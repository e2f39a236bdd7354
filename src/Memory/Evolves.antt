-- ===== src/Memory/Evolves.antt =====
-- What the methods that only write jobs back have in common: no job comes or goes or moves to
-- another place of a chain, the index stays, and no job starts to run.
use orderedjob.Prelude.{
  ℕ, String, ◌≡◌, refl, ◌∙◌, ap, subst, Option, none, some, ite, ℕ_discrete, if_pos, if_neg,
}
use orderedjob.Int64.{ℤ}
use orderedjob.Lifecycle.{processing}
use orderedjob.Job.{Job}
use orderedjob.Memory.State.{Repo, find_job, find_seq, put_job, find_job-put, find_seq-put, or_zero}

-- `k` is what became of `j`: the same job, at the same place of its chain.
pub record Keeps (j k : Job) : Type 0 where
  pub same_id : k.id ≡ j.id
  pub same_chain : k.chain_id ≡ j.chain_id
  pub same_sequence : k.sequence ≡ j.sequence
  pub same_key : k.idempotency_key ≡ j.idempotency_key

-- Nor was the job leased anew, and it runs only if it did before.
pub record Later (j k : Job) : Type 0 where
  pub kept : Keeps j k
  pub open kept use *
  pub same_generation : k.lease_generation ≡ j.lease_generation
  pub same_worker : k.worker_id ≡ j.worker_id
  pub ran : k.status ≡ processing → j.status ≡ processing

module _ (R : Job → Job → Type 0) where
  abbrev pub At : Option Job → Option Job → Type 0
  At none none = Unit {0}
  At none (some k) = ⊥
  At (some j) none = ⊥
  At (some j) (some k) = R j k

  -- The same jobs are stored, each related to what it was, and the index has not changed.
  pub record EvolvesBy (r r' : Repo) : Type 0 where
    pub jobs_at : (id : ℕ) → At (find_job r id) (find_job r' id)
    pub chain_at : (c : String) (s : ℤ) → find_seq r' c s ≡ find_seq r c s

abbrev pub Evolves : Repo → Repo → Type 0
Evolves = EvolvesBy Later

Keeps-refl : (j : Job) → Keeps j j
Keeps-refl j = record { same_id = refl; same_chain = refl; same_sequence = refl; same_key = refl }

Later-refl : (j : Job) → Later j j
Later-refl j = record {
  kept = Keeps-refl j;
  same_generation = refl;
  same_worker = refl;
  ran = λ h. h;
}

At-refl : (R : Job → Job → Type 0) → ((j : Job) → R j j) → (o : Option Job) → At R o o
At-refl R same none = tt
At-refl R same (some j) = same j

Later-trans : {j k l : Job} → Later j k → Later k l → Later j l
Later-trans a b = record {
  kept = record {
    same_id = b.same_id ∙ a.same_id;
    same_chain = b.same_chain ∙ a.same_chain;
    same_sequence = b.same_sequence ∙ a.same_sequence;
    same_key = b.same_key ∙ a.same_key;
  };
  same_generation = b.same_generation ∙ a.same_generation;
  same_worker = b.same_worker ∙ a.same_worker;
  ran = λ h. a.ran (b.ran h);
}

At-trans : (o p q : Option Job) → At Later o p → At Later p q → At Later o q
At-trans none none none a b = tt
At-trans (some j) (some k) (some l) a b = Later-trans a b
At-trans none (some k) q a b = absurd a
At-trans (some j) none q a b = absurd a
At-trans none none (some l) a b = absurd b
At-trans (some j) (some k) none a b = absurd b

pub Evolves-refl : (r : Repo) → Evolves r r
Evolves-refl r = record {
  jobs_at = λ id. At-refl Later Later-refl (find_job r id);
  chain_at = λ c s. refl;
}

-- The maps of `r'` have the entries of the maps of `r`.
abbrev pub HasSameEntries : Repo → Repo → Type 0
HasSameEntries r r' =
    ((id : ℕ) → find_job r' id ≡ find_job r id)
    × ((c : String) (s : ℤ) → find_seq r' c s ≡ find_seq r c s)

pub same_entries-Evolves : {r r' : Repo} → HasSameEntries r r' → Evolves r r'
same_entries-Evolves {r} {r'} (jobs, chain) = record {
  jobs_at = λ id. rw (jobs id) (At-refl Later Later-refl (find_job r id));
  chain_at = chain;
}

pub Evolves-trans : {r s t : Repo} → Evolves r s → Evolves s t → Evolves r t
Evolves-trans {r} {s} {t} a b = record {
  jobs_at = λ id. At-trans _ _ _ (a.jobs_at id) (b.jobs_at id);
  chain_at = λ c q. b.chain_at c q ∙ a.chain_at c q;
}

At-kept : (o p : Option Job) → At Later o p → At Keeps o p
At-kept none none a = tt
At-kept (some j) (some k) a = a.kept
At-kept none (some k) a = absurd a
At-kept (some j) none a = absurd a

pub Evolves-kept : {r r' : Repo} → Evolves r r' → EvolvesBy Keeps r r'
Evolves-kept e = record {
  jobs_at = λ id. At-kept _ _ (e.jobs_at id);
  chain_at = λ c s. e.chain_at c s;
}

-- A job written back evolves the repository.
put-EvolvesBy :
    (R : Job → Job → Type 0)
    → ((j : Job) → R j j)
    → (r : Repo) (id : ℕ) (j k : Job) → find_job r id ≡ some j
    → R j k
    → EvolvesBy R r (put_job r id k)
put-EvolvesBy R same r id j k found step = record {
  jobs_at = λ i. rw (find_job-put r id i k) (at i);
  chain_at = λ c s. find_seq-put r id k c s;
}
  where
    at : (i : ℕ) → At R (find_job r i) (ite (ℕ_discrete id i) (some k) (find_job r i))
    at i = elim (ℕ_discrete id i) [
      | yes p ↦ rw (if_pos _ p, ← p, found) step
      | no p ↦ rw (if_neg _ p) (At-refl R same (find_job r i))
    ]

pub put-Evolves :
    (r : Repo) (id : ℕ) (j k : Job)
    → find_job r id ≡ some j
    → Later j k
    → Evolves r (put_job r id k)
put-Evolves = put-EvolvesBy Later Later-refl

pub put-kept :
    (r : Repo) (id : ℕ) (j k : Job)
    → find_job r id ≡ some j
    → Keeps j k
    → EvolvesBy Keeps r (put_job r id k)
put-kept = put-EvolvesBy Keeps Keeps-refl

-- What a stored job was before, and what became of it.
pub before_step :
    (R : Job → Job → Type 0) (o p : Option Job) (k : Job)
    → At R o p
    → p ≡ some k
    → (j : Job) × (o ≡ some j) × R j k
before_step R none none k a e = cc
before_step R none (some l) k a e = absurd a
before_step R (some j) none k a e = absurd a
before_step R (some j) (some l) k a e = (j, refl, subst (R j) (ap or_zero e) a)

pub after_step :
    (R : Job → Job → Type 0) (o p : Option Job) (j : Job)
    → At R o p
    → o ≡ some j
    → (k : Job) × (p ≡ some k) × R j k
after_step R none p j a e = cc
after_step R (some i) none j a e = absurd a
after_step R (some i) (some k) j a e = (k, refl, subst (λ q. R q k) (ap or_zero e) a)
