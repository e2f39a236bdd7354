-- ===== src/Memory/Index.antt =====
-- The index of repository/memory/repository.go agrees with its jobs: each job stands under its own
-- id and under its chain and sequence, and each entry of the index leads to such a job.
use mathlib.Core.List.{lookup}
use mathlib.Core.Path.{ap₂}
use orderedjob.Prelude.{
  ℕ, String, ◌≡◌, ◌⊎◌, refl, sym, ◌∙◌, Option, none, some, arith, ite, ℕ_discrete, text_discrete,
  inl, inr, [], ◌∷◌,
}
use orderedjob.Int64.{ℤ, ℤ_discrete}
use orderedjob.GoMap.{GoMap, get, insert, delete, get-insert, get-delete}
use orderedjob.Job.{Job}
use orderedjob.Memory.State.{Repo, new, find_job, find_seq, find_in}
use orderedjob.Memory.Enqueue.{add_job, or_new}
use orderedjob.Memory.Bulk.{purge_at, put_chain, unindex}
use orderedjob.Memory.Evolves.{Keeps, EvolvesBy, before_step, after_step}

pub record IsIndexed (r : Repo) : Type 0 where
  pub own_id : (id : ℕ) (j : Job) → find_job r id ≡ some j → j.id ≡ id
  pub listed :
      (id : ℕ) (j : Job) → find_job r id ≡ some j → find_seq r j.chain_id j.sequence ≡ some id
  pub leads :
      (c : String) (s : ℤ) (id : ℕ)
      → find_seq r c s ≡ some id
      → (j : Job) × (find_job r id ≡ some j) × (j.chain_id ≡ c) × (j.sequence ≡ s)

pub new-IsIndexed : IsIndexed new
unfolding new find_job find_seq lookup
new-IsIndexed = record { own_id = λ id j e. cc; listed = λ id j e. cc; leads = λ c s id e. cc }

pub kept-IsIndexed : {r r' : Repo} → EvolvesBy Keeps r r' → IsIndexed r → IsIndexed r'
kept-IsIndexed {r} {r'} ev ix = record {
  own_id = λ id k e.
      let (j, f, l) = before_step Keeps _ _ k (ev.jobs_at id) e in l.same_id ∙ ix.own_id id j f;
  listed = λ id k e.
      let (j, f, l) = before_step Keeps _ _ k (ev.jobs_at id) e in
      ev.chain_at _ _ ∙ ap₂ (find_seq r) l.same_chain l.same_sequence ∙ ix.listed id j f;
  leads = λ c s id e.
      let (j, f, pc, ps) = ix.leads c s id (sym (ev.chain_at c s) ∙ e) in
      let (k, g, l) = after_step Keeps _ _ j (ev.jobs_at id) f in
      (k, g, l.same_chain ∙ pc, l.same_sequence ∙ ps);
}

pub find_job-add :
    (r : Repo) (j : Job) (id : ℕ)
    → find_job (add_job r j) id ≡ ite (ℕ_discrete j.id id) (some j) (find_job r id)
unfolding find_job add_job
find_job-add r j id = get-insert ℕ_discrete j.id id j r.jobs

find_in-or_new : (o : Option (GoMap ℤ ℕ)) (s : ℤ) → find_in (some (or_new o)) s ≡ find_in o s
unfolding lookup
find_in-or_new none s = refl
find_in-or_new (some m) s = refl

find_in-insert :
    (o : Option (GoMap ℤ ℕ)) (s t : ℤ) (id : ℕ)
    → find_in (some (insert ℤ_discrete s id (or_new o))) t
      ≡ ite (ℤ_discrete s t) (some id) (find_in o t)
find_in-insert o s t id = rw (get-insert ℤ_discrete s t id (or_new o), find_in-or_new o t) refl

pub find_seq-add :
    (r : Repo) (j : Job) (c : String) (s : ℤ)
    → find_seq (add_job r j) c s
      ≡ ite
          (text_discrete j.chain_id c)
          (ite (ℤ_discrete j.sequence s) (some j.id) (find_seq r c s))
          (find_seq r c s)
unfolding find_seq add_job
find_seq-add r j c s =
    let old = get text_discrete j.chain_id r.chain in
    ground (
      arith,
      get-insert text_discrete j.chain_id c (insert ℤ_discrete j.sequence j.id (or_new old))
          r.chain,
      find_in-insert old j.sequence s j.id,
    )

module _ (r : Repo) (j : Job) (ix : IsIndexed r) (fresh : find_job r j.id ≡ none)
    (free : find_seq r j.chain_id j.sequence ≡ none) where
  add_job-listed :
      (id : ℕ) (k : Job)
      → find_job (add_job r j) id ≡ some k
      → find_seq (add_job r j) k.chain_id k.sequence ≡ some id
  add_job-listed id k e =
      ground (arith, find_job-add r j id, find_seq-add r j k.chain_id k.sequence, ix.listed id k)

  find_seq-add_cases :
      (c : String) (s : ℤ) (id : ℕ)
      → find_seq (add_job r j) c s ≡ some id
      → ((j.chain_id ≡ c) × (j.sequence ≡ s) × (j.id ≡ id)) ⊎ (find_seq r c s ≡ some id)
  find_seq-add_cases c s id e = ground (arith, find_seq-add r j c s)

  add_job-leads :
      (c : String) (s : ℤ) (id : ℕ)
      → find_seq (add_job r j) c s ≡ some id
      → (k : Job) × (find_job (add_job r j) id ≡ some k) × (k.chain_id ≡ c) × (k.sequence ≡ s)
  add_job-leads c s id e = elim (find_seq-add_cases c s id e) [
    | inl (pc, ps, p) ↦ (j, ground (arith, find_job-add r j id), pc, ps)
    | inr h ↦
        let (k, f, pc, ps) = ix.leads c s id h in (k, ground (arith, find_job-add r j id), pc, ps)
  ]

  pub add_job-IsIndexed : IsIndexed (add_job r j)
  add_job-IsIndexed = record {
    own_id = λ id k e. ground (arith, find_job-add r j id, ix.own_id id k);
    listed = add_job-listed;
    leads = add_job-leads;
  }

find_in-put_chain :
    (chain : GoMap String (GoMap ℤ ℕ)) (c d : String) (m : GoMap ℤ ℕ) (s : ℤ)
    → find_in (get text_discrete d (put_chain chain c m)) s
      ≡ ite (text_discrete c d) (find_in (some m) s) (find_in (get text_discrete d chain) s)
unfolding lookup
find_in-put_chain chain c d [] s = ground (arith, get-delete text_discrete c d chain)
find_in-put_chain chain c d (e ∷ m) s = ground (arith, get-insert text_discrete c d (e ∷ m) chain)

find_in-unindex :
    (chain : GoMap String (GoMap ℤ ℕ)) (c d : String) (s t : ℤ) (o : Option (GoMap ℤ ℕ))
    → get text_discrete c chain ≡ o
    → find_in (get text_discrete d (unindex chain c s o)) t
      ≡ ite
          (text_discrete c d)
          (ite (ℤ_discrete s t) none (find_in (get text_discrete d chain) t))
          (find_in (get text_discrete d chain) t)
find_in-unindex chain c d s t none e = ground arith
find_in-unindex chain c d s t (some m) e =
    ground
      (arith, find_in-put_chain chain c d (delete ℤ_discrete s m) t, get-delete ℤ_discrete s t m)

pub find_job-purge :
    (r : Repo) (id : ℕ) (j : Job) (i : ℕ)
    → find_job (purge_at r id j) i ≡ ite (ℕ_discrete id i) none (find_job r i)
unfolding find_job purge_at
find_job-purge r id j i = get-delete ℕ_discrete id i r.jobs

pub find_seq-purge :
    (r : Repo) (id : ℕ) (j : Job) (c : String) (s : ℤ)
    → find_seq (purge_at r id j) c s
      ≡ ite
          (text_discrete j.chain_id c)
          (ite (ℤ_discrete j.sequence s) none (find_seq r c s))
          (find_seq r c s)
unfolding find_seq purge_at
find_seq-purge r id j c s =
    find_in-unindex r.chain j.chain_id c j.sequence s (get text_discrete j.chain_id r.chain) refl

module _ (r : Repo) (id : ℕ) (j : Job) (ix : IsIndexed r) (found : find_job r id ≡ some j) where
  purge-listed :
      (i : ℕ) (k : Job)
      → find_job (purge_at r id j) i ≡ some k
      → find_seq (purge_at r id j) k.chain_id k.sequence ≡ some i
  purge-listed i k e = ground (
    arith,
    find_job-purge r id j i,
    find_seq-purge r id j k.chain_id k.sequence,
    ix.listed i k,
    ix.listed id j found,
  )

  purge-leads :
      (c : String) (s : ℤ) (i : ℕ)
      → find_seq (purge_at r id j) c s ≡ some i
      → (k : Job) × (find_job (purge_at r id j) i ≡ some k) × (k.chain_id ≡ c) × (k.sequence ≡ s)
  purge-leads c s i e =
      let kept : find_seq r c s ≡ some i = ground (arith, find_seq-purge r id j c s) in
      let (k, f, pc, ps) = ix.leads c s i kept in
      (k, ground (arith, find_job-purge r id j i, find_seq-purge r id j c s), pc, ps)

  pub purge-IsIndexed : IsIndexed (purge_at r id j)
  purge-IsIndexed = record {
    own_id = λ i k e. ground (arith, find_job-purge r id j i, ix.own_id i k);
    listed = purge-listed;
    leads = purge-leads;
  }
