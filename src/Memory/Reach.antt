-- ===== src/Memory/Reach.antt =====
-- Every sequence of calls of repository/memory/repository.go, from the empty repository on.
use orderedjob.Prelude.{
  ℕ, String, ◌≡◌, refl, Bool, Option, none, some, List, [], ◌∷◌, ◌++◌, Bool-cases, inl, inr,
}
use orderedjob.Int64.{ℤ}
use orderedjob.Job.{Job, EnqueueRequest, Result, ok, err}
use orderedjob.Memory.State.{Repo, new, find_job, find_seq, put_job}
use orderedjob.Memory.Enqueue.{add_job, make_job, enqueue_single, enqueue_all}
use orderedjob.Memory.Claim.{claim, start_job}
use orderedjob.Memory.Bulk.{bulk_one, bulk_over, purge_at}
use orderedjob.Memory.Evolves.{Keeps, Evolves, EvolvesBy, Evolves-kept, put-kept}
use orderedjob.Memory.Index.{
  IsIndexed, new-IsIndexed, kept-IsIndexed, add_job-IsIndexed, purge-IsIndexed,
}
use orderedjob.Memory.Resolve.{HasRoom, resolved_is_free}
use orderedjob.Memory.Exclusive.{
  IsExclusive, new-IsExclusive, Evolves-IsExclusive, add_job-IsExclusive, purge-IsExclusive,
  start-IsExclusive,
}
use orderedjob.Memory.Keys.{
  new_job, enqueue_cases, initial_status-idle, HasUniqueKeys, new-HasUniqueKeys, kept-HasUniqueKeys,
  purge-HasUniqueKeys, new_job-HasUniqueKeys,
}
use orderedjob.Memory.Claims.{claim_cases, chosen_facts}

-- The index agrees with the jobs, one job of a chain runs at most, and a key names one job at most.
pub record IsSound (r : Repo) : Type 0 where
  pub indexed : IsIndexed r
  pub exclusive : IsExclusive r
  pub unique : HasUniqueKeys r

pub new-IsSound : IsSound new
new-IsSound = record {
  indexed = new-IsIndexed;
  exclusive = new-IsExclusive;
  unique = new-HasUniqueKeys;
}

pub Evolves-IsSound : {r r' : Repo} → Evolves r r' → IsSound r → IsSound r'
Evolves-IsSound ev s = record {
  indexed = kept-IsIndexed (Evolves-kept ev) s.indexed;
  exclusive = Evolves-IsExclusive ev s.exclusive;
  unique = kept-HasUniqueKeys (Evolves-kept ev) s.unique;
}

-- The id of the request is new, and its chain has a sequence left.
abbrev pub CanAdd : Repo → EnqueueRequest → ℕ → Type 0
CanAdd r req id = (find_job r id ≡ none) × HasRoom r req.chain_id

module _ (r : Repo) (req : EnqueueRequest) (id now : ℕ) (s : IsSound r)
    (can : CanAdd r req id) where
  new_job-IsIndexed :
      (q : ℤ) → find_seq r req.chain_id q ≡ none → IsIndexed (add_job r (new_job r req id now q))
  unfolding make_job
  new_job-IsIndexed q free = add_job-IsIndexed r _ s.indexed can.0 free

  new_job-IsExclusive : (q : ℤ) → IsExclusive (add_job r (new_job r req id now q))
  unfolding make_job
  new_job-IsExclusive q = add_job-IsExclusive r _ s.exclusive (initial_status-idle r req.chain_id q)

  pub enqueue-IsSound : IsSound (enqueue_single r req id now).0
  enqueue-IsSound =
      enqueue_cases (λ x. IsSound x.0) r req id now (λ e. s) (λ j e. s)
        λ q e v. record {
          indexed = new_job-IsIndexed q (resolved_is_free r req.chain_id req.sequence q can.1 v);
          exclusive = new_job-IsExclusive q;
          unique = new_job-HasUniqueKeys r req id now q s.unique e;
        }

-- Each request of a batch can be added when its turn comes.
abbrev pub CanAddAll : Repo → List (EnqueueRequest × ℕ × ℕ) → Type 0
CanAddAll r [] = Unit {0}
CanAddAll r ((req, id, now) ∷ rest) =
    CanAdd r req id × CanAddAll (enqueue_single r req id now).0 rest

pub enqueue_all-IsSound :
    (backup r : Repo) (out : List Job) (reqs : List (EnqueueRequest × ℕ × ℕ))
    → IsSound backup
    → IsSound r
    → CanAddAll r reqs
    → IsSound (enqueue_all backup r out reqs).0
unfolding enqueue_all
enqueue_all-IsSound backup r out [] b s can = s
enqueue_all-IsSound backup r out ((req, id, now) ∷ rest) b s can =
    at (enqueue_single r req id now).1 (λ j.
      enqueue_all-IsSound backup (enqueue_single r req id now).0 (out ++ j ∷ []) rest b
        (enqueue-IsSound r req id now s can.0) can.1)
  where
    at :
        (x : Result Job)
        → ((j : Job)
            → IsSound (enqueue_all backup (enqueue_single r req id now).0 (out ++ j ∷ []) rest).0)
        → IsSound
            (elim x as (λ _. Repo × Result (List Job)) [
              | err e ↦ (backup, err e)
              | ok j ↦ enqueue_all backup (enqueue_single r req id now).0 (out ++ j ∷ []) rest
            ]).0
    at (err e) go = b
    at (ok j) go = go j

start_job-Keeps :
    (j : Job) (worker : String) (lease now : ℕ) → Keeps j (start_job j worker lease now)
unfolding start_job
start_job-Keeps j worker lease now = record {
  same_id = refl;
  same_chain = refl;
  same_sequence = refl;
  same_key = refl;
}

pub claim-IsSound :
    (r : Repo) (worker : String) (lease now : ℕ) → IsSound r → IsSound (claim r worker lease now).0
claim-IsSound r worker lease now s =
    claim_cases (λ x. IsSound x.0) r worker lease now (λ e. s)
      λ j e.
        let (found, idle) = chosen_facts r now j s.indexed e in
        let kept : EvolvesBy Keeps r (put_job r j.id (start_job j worker lease now)) =
          put-kept r j.id j _ found (start_job-Keeps j worker lease now) in
        record {
          indexed = kept-IsIndexed kept s.indexed;
          exclusive =
              start-IsExclusive r j.id _ s.exclusive
                (rw ((start_job-Keeps j worker lease now).same_chain) idle);
          unique = kept-HasUniqueKeys kept s.unique;
        }

pub purge_over-IsSound :
    (matches : Job → Bool) (ids : List ℕ) (r : Repo) (count : ℕ)
    → IsSound r
    → IsSound (bulk_over matches purge_at ids r count).0
unfolding bulk_over
purge_over-IsSound matches [] r count s = s
purge_over-IsSound matches (id ∷ ids) r count s =
    purge_over-IsSound matches ids (bulk_one matches purge_at r id (find_job r id)).0 _
      (one (find_job r id) refl)
  where
    one : (o : Option Job) → find_job r id ≡ o → IsSound (bulk_one matches purge_at r id o).0
    one none e = s
    one (some j) e = elim (Bool-cases (matches j)) [
      | inl b ↦ rw b (record {
        indexed = purge-IsIndexed r id j s.indexed e;
        exclusive = purge-IsExclusive r id j s.exclusive;
        unique = purge-HasUniqueKeys r id j s.unique;
      })
      | inr b ↦ rw b s
    ]
