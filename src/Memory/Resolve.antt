-- ===== src/Memory/Resolve.antt =====
-- The sequence that repository/memory/repository.go gives a request: free in its chain, and at most
-- one above the greatest.
use orderedjob.Prelude.{
  ℕ, String, ◌≡◌, ◌≢◌, ◌⊎◌, false, Option, none, some, arith, text_discrete, Option-cases,
  Bool-cases, inl, inr, List, [], ◌∷◌, In, if◌then◌else◌, if_pos, if_neg,
}
use orderedjob.Int64.{
  ℤ, pos, max_mag, inc64, dec64, lt64, ℤ_discrete, lt64_irrefl, lt64_trans, lt64-asym, lt64-inc64,
  dec64-le, inc64_mono, inc64-pos0,
}
use orderedjob.GoMap.{GoMap, get, In-keys}
use orderedjob.Job.{Result, ok}
use orderedjob.Memory.State.{Repo, find_seq, find_in}
use orderedjob.Memory.Enqueue.{
  greatest, sequences, get_max_sequence, check_sequence, validate_and_resolve_sequence,
}

-- The chain has a sequence left: its greatest is not the greatest int64.
abbrev pub HasRoom : Repo → String → Type 0
HasRoom r chain = get_max_sequence r chain ≢ pos max_mag

greatest-start : (m : ℤ) (ss : List ℤ) → lt64 (greatest m ss) m ≡ false
unfolding greatest
greatest-start m [] = lt64_irrefl m
greatest-start m (s ∷ ss) = elim (Bool-cases (lt64 m s)) [
  | inl b ↦ rw b (lt64_trans m s (greatest s ss) (lt64-asym m s b) (greatest-start s ss))
  | inr b ↦ rw b (greatest-start m ss)
]

greatest-In : (m s : ℤ) (ss : List ℤ) → In s ss → lt64 (greatest m ss) s ≡ false
unfolding greatest
greatest-In m s [] h = absurd h
greatest-In m s (t ∷ ss) (inr h) = greatest-In (if lt64 m t then t else m) s ss h
greatest-In m s (t ∷ ss) (inl e) = elim (Bool-cases (lt64 m t)) [
  | inl b ↦ rw (b, ← e) (greatest-start t ss)
  | inr b ↦ rw (b, ← e) (lt64_trans t m (greatest m ss) b (greatest-start m ss))
]

find_in-keys :
    (o : Option (GoMap ℤ ℕ)) (s : ℤ) (id : ℕ) → find_in o s ≡ some id → In s (sequences o)
find_in-keys none s id h = cc
find_in-keys (some m) s id h = In-keys ℤ_discrete s id m h

-- No sequence of the chain is above the greatest.
pub find_seq-le-max :
    (r : Repo) (c : String) (s : ℤ) (id : ℕ)
    → find_seq r c s ≡ some id
    → lt64 (get_max_sequence r c) s ≡ false
unfolding find_seq get_max_sequence
find_seq-le-max r c s id h =
    greatest-In (pos 0) s _ (find_in-keys (get text_discrete c r.chain) s id h)

next_is_free :
    (r : Repo) (c : String) → HasRoom r c → find_seq r c (inc64 (get_max_sequence r c)) ≡ none
next_is_free r c room = elim (Option-cases (find_seq r c (inc64 (get_max_sequence r c)))) [
  | inl e ↦ e
  | inr (id, e) ↦ cc (find_seq-le-max r c _ id e, lt64-inc64 (get_max_sequence r c) room)
]

-- What the code asks of a sequence `q` that the request names.
check_sequence_ok :
    (r : Repo) (c : String) (s q : ℤ) (o : Option (GoMap ℤ ℕ))
    → check_sequence r c s o ≡ ok q
    → (q ≡ s)
      × (find_in o s ≡ none)
      × ((lt64 (pos 1) s ≡ false)
          ⊎ ((id : ℕ) × (find_in o (dec64 s) ≡ some id))
          ⊎ (lt64 (inc64 (get_max_sequence r c)) s ≡ false))
check_sequence_ok r c s q none h = ground arith
check_sequence_ok r c s q (some m) h = ground arith

validate_cases :
    (P : Result ℤ → Type 0) (r : Repo) (c : String) (s : ℤ)
    → P (ok (inc64 (get_max_sequence r c)))
    → P (check_sequence r c s (get text_discrete c r.chain))
    → P (validate_and_resolve_sequence r c s)
unfolding validate_and_resolve_sequence
validate_cases P r c s auto named = elim (ℤ_discrete s (pos 0)) [
  | yes p ↦ rw (if_pos _ p) auto
  | no p ↦ rw (if_neg _ p) named
]

-- A resolved sequence is free in its chain.
pub resolved_is_free :
    (r : Repo) (c : String) (s q : ℤ)
    → HasRoom r c
    → validate_and_resolve_sequence r c s ≡ ok q
    → find_seq r c q ≡ none
unfolding find_seq
resolved_is_free r c s q room =
    validate_cases (λ x. x ≡ ok q → find_seq r c q ≡ none) r c s (λ h. cc (next_is_free r c room))
      (λ h. let (e, f, _) = check_sequence_ok r c s q _ h in cc)

one_le_next :
    (r : Repo) (c : String) → HasRoom r c → lt64 (inc64 (get_max_sequence r c)) (pos 1) ≡ false
unfolding get_max_sequence
one_le_next r c room =
    rw (← inc64-pos0) (inc64_mono (pos 0) (get_max_sequence r c) (greatest-start (pos 0) _) room)

named_bound :
    (r : Repo) (c : String) (s : ℤ)
    → HasRoom r c
    → (lt64 (pos 1) s ≡ false)
      ⊎ ((id : ℕ) × (find_seq r c (dec64 s) ≡ some id))
      ⊎ (lt64 (inc64 (get_max_sequence r c)) s ≡ false)
    → lt64 (inc64 (get_max_sequence r c)) s ≡ false
named_bound r c s room (inl h) = lt64_trans s (pos 1) _ h (one_le_next r c room)
named_bound r c s room (inr (inl (id, h))) = elim (Bool-cases (lt64 (pos 1) s)) [
  | inl b ↦ dec64-le (get_max_sequence r c) s b room (find_seq-le-max r c (dec64 s) id h)
  | inr b ↦ lt64_trans s (pos 1) _ b (one_le_next r c room)
]
named_bound r c s room (inr (inr h)) = h

-- A resolved sequence is at most one above the greatest of its chain.
pub resolved_bound :
    (r : Repo) (c : String) (s q : ℤ)
    → HasRoom r c
    → validate_and_resolve_sequence r c s ≡ ok q
    → lt64 (inc64 (get_max_sequence r c)) q ≡ false
unfolding find_seq
resolved_bound r c s q room =
    validate_cases (λ x. x ≡ ok q → lt64 (inc64 (get_max_sequence r c)) q ≡ false) r c s
      (λ h. cc (lt64_irrefl (inc64 (get_max_sequence r c))))
      (λ h. let (e, _, f) = check_sequence_ok r c s q _ h in rw e (named_bound r c s room f))
