-- ===== src/Handlers/Cases.antt =====
-- handler.go: what the registry and the typed handlers do.
use orderedjob.Prelude.{
  String, ◌≡◌, ◌⊎◌, ◌↔◌, refl, ap, true, Option, none, some, List, [], ◌∷◌, In, ite, text_discrete,
  arith,
}
use orderedjob.GoMap.{GoMap, get, keys, get-insert, In-keys, keys-get}
use orderedjob.Job.{Job, ok}
use orderedjob.Failure.{Failure, is_non_retryable}
use orderedjob.Handlers.{
  register, get_handler, or_missing, must_get, insert_text, sort_texts, job_types, Checks, Accepts,
}

module _ {P : Type 0} where
  module _ (c : Checks P) (fn : Job → P → Option Failure) (j : Job) where
    -- The typed function runs, or the failure is final.
    abbrev pub CallsOrRejects : Option Failure → Type 0
    CallsOrRejects o = ((p : P) × Accepts c j p × (o ≡ fn j p)) ⊎ (is_non_retryable o ≡ true)

insert_text-In : (t s : String) (ss : List String) → In t (insert_text s ss) → (s ≡ t) ⊎ In t ss
unfolding insert_text
insert_text-In t s [] h = h
insert_text-In t s (u ∷ ss) h = ground (arith, insert_text-In t s ss)

In-insert_text : (t s : String) (ss : List String) → (s ≡ t) ⊎ In t ss → In t (insert_text s ss)
unfolding insert_text
In-insert_text t s [] h = h
In-insert_text t s (u ∷ ss) h = ground (arith, In-insert_text t s ss)

sort_texts-In : (t : String) (ss : List String) → In t (sort_texts ss) → In t ss
unfolding sort_texts
sort_texts-In t [] h = h
sort_texts-In t (s ∷ ss) h = ground (arith, insert_text-In t s (sort_texts ss), sort_texts-In t ss)

In-sort_texts : (t : String) (ss : List String) → In t ss → In t (sort_texts ss)
unfolding sort_texts
In-sort_texts t [] h = h
In-sort_texts t (s ∷ ss) h = In-insert_text t s (sort_texts ss) (ground (arith, In-sort_texts t ss))

module _ {H : Type 0} where
  -- A type is listed by JobTypes exactly when MustGet finds a handler for it.
  pub job_types_iff :
      (r : GoMap String H) (t : String) → In t (job_types r) ↔ ((h : H) × (must_get r t ≡ ok h))
  unfolding job_types must_get get_handler
  job_types_iff r t = (
    λ m. let (h, e) = keys-get text_discrete t r (sort_texts-In t _ m) in (h, ap or_missing e),
    λ (h, e). In-sort_texts t _ (registered _ refl e),
  )
    where
      registered :
          {h : H} (o : Option H) → get text_discrete t r ≡ o → or_missing o ≡ ok h → In t (keys r)
      registered none e f = cc
      registered (some k) e f = In-keys text_discrete t k r e

  -- After Register, MustGet finds the new handler for its type, and what it found before for any
  -- other.
  pub must_get-register :
      (r : GoMap String H) (t u : String) (h : H)
      → must_get (register r t h) u ≡ ite (text_discrete t u) (ok h) (must_get r u)
  unfolding must_get register get_handler
  must_get-register r t u h = rw (get-insert text_discrete t u h r) (ground arith)
