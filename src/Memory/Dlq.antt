-- ===== src/Memory/Dlq.antt =====
-- The bulk methods of repository/memory/repository.go on the dead-letter queue.
use orderedjob.Prelude.{
  ℕ, ◌≡◌, refl, sym, ◌∙◌, ap, Bool, false, Option, none, some, arith, List, [], ◌∷◌, In,
  Option-cases, Bool-cases, inl, inr, ℕ_discrete,
}
use orderedjob.GoMap.{keys, In-keys, range, range-get}
use orderedjob.Lifecycle.{Status-discrete, pending}
use orderedjob.Job.{Job, JobFilter, is_empty}
use orderedjob.Memory.State.{Repo, find_job, put_job, find_job-put, or_zero}
use orderedjob.Memory.Lease.{promote_after, promote_id, completed_job}
use orderedjob.Memory.Admin.{replayed_job}
use orderedjob.Memory.Bulk.{
  TextOps, is_dead, matches_dlq_filter, bulk_one, bulk_over, replay_at, skip_at, purge_at,
  bulk_replay_dlq, bulk_skip_dlq, bulk_purge_dlq, count_dead, count_dlq,
}
use orderedjob.Memory.Index.{find_job-purge}

-- No job under `id` matches.
abbrev pub IsClear : (Job → Bool) → Repo → ℕ → Type 0
IsClear matches r id = (j : Job) → find_job r id ≡ some j → matches j ≡ false

-- A loop whose action clears its job, and brings no match to another one, clears all that it visits.
module _ (matches : Job → Bool) (act : Repo → ℕ → Job → Repo)
    (clears : (r : Repo) (i : ℕ) (j : Job) → find_job r i ≡ some j → IsClear matches (act r i j) i)
    (keeps : (r : Repo) (i : ℕ) (j : Job) (id : ℕ)
      → find_job r i ≡ some j
      → IsClear matches r id
      → IsClear matches (act r i j) id) where
  bulk_one-IsClear :
      (r : Repo) (i id : ℕ) (o : Option Job)
      → find_job r i ≡ o
      → (IsClear matches r id → IsClear matches (bulk_one matches act r i o).0 id)
        × IsClear matches (bulk_one matches act r i o).0 i
  bulk_one-IsClear r i id none e = (λ h. h, λ j f. cc)
  bulk_one-IsClear r i id (some k) e = elim (Bool-cases (matches k)) [
    | inl b ↦ rw b (keeps r i k id e, clears r i k e)
    | inr b ↦ rw b (λ h. h, λ j f. rw (ap or_zero (sym f ∙ e)) b)
  ]

  bulk_over-keeps :
      (ids : List ℕ) (r : Repo) (count id : ℕ)
      → IsClear matches r id
      → IsClear matches (bulk_over matches act ids r count).0 id
  unfolding bulk_over
  bulk_over-keeps [] r count id h = h
  bulk_over-keeps (i ∷ ids) r count id h =
      bulk_over-keeps ids _ _ id ((bulk_one-IsClear r i id (find_job r i) refl).0 h)

  bulk_over-In :
      (ids : List ℕ) (r : Repo) (count id : ℕ)
      → In id ids
      → IsClear matches (bulk_over matches act ids r count).0 id
  unfolding bulk_over
  bulk_over-In [] r count id m = absurd m
  bulk_over-In (i ∷ ids) r count id (inl e) =
      rw (← e) (bulk_over-keeps ids _ _ i (bulk_one-IsClear r i i (find_job r i) refl).1)
  bulk_over-In (i ∷ ids) r count id (inr m) = bulk_over-In ids _ _ id m

  pub bulk_over-IsClear :
      (r : Repo) (id : ℕ) → IsClear matches (bulk_over matches act (keys r.jobs) r 0).0 id
  unfolding find_job
  bulk_over-IsClear r id = elim (Option-cases (find_job r id)) [
    | inl e ↦ bulk_over-keeps (keys r.jobs) r 0 id (λ j f. cc)
    | inr (j, e) ↦ bulk_over-In (keys r.jobs) r 0 id (In-keys ℕ_discrete id j r.jobs e)
  ]

not_dead :
    (ops : TextOps) (f : JobFilter) (j : Job)
    → is_dead j ≡ false
    → matches_dlq_filter ops f j ≡ false
unfolding matches_dlq_filter
not_dead ops f j h = rw h

replayed-not_dead : (j : Job) (now : ℕ) → is_dead (replayed_job j now) ≡ false
unfolding is_dead replayed_job Status-discrete
replayed-not_dead j now = refl

completed-not_dead : (j : Job) (now : ℕ) → is_dead (completed_job j now) ≡ false
unfolding is_dead completed_job Status-discrete
completed-not_dead j now = refl

promoted-not_dead :
    (j : Job) (now : ℕ) → is_dead (record j { status = pending; updated_at = now }) ≡ false
unfolding is_dead Status-discrete
promoted-not_dead j now = refl

put-clears :
    (ops : TextOps) (f : JobFilter) (r : Repo) (i : ℕ) (n : Job)
    → is_dead n ≡ false
    → IsClear (matches_dlq_filter ops f) (put_job r i n) i
put-clears ops f r i n d k h = ground (arith, find_job-put r i i n, not_dead ops f k)

put-keeps :
    (ops : TextOps) (f : JobFilter) (r : Repo) (i : ℕ) (n : Job) (id : ℕ)
    → is_dead n ≡ false
    → IsClear (matches_dlq_filter ops f) r id
    → IsClear (matches_dlq_filter ops f) (put_job r i n) id
put-keeps ops f r i n id d h k e = ground (arith, find_job-put r i id n, not_dead ops f n, h k)

promote-keeps :
    (ops : TextOps) (f : JobFilter) (r : Repo) (now id : ℕ) (o : Option ℕ)
    → IsClear (matches_dlq_filter ops f) r id
    → IsClear (matches_dlq_filter ops f) (promote_id r now o) id
promote-keeps ops f r now id none h = h
promote-keeps ops f r now id (some next) h = ground (
  arith,
  put-keeps ops f r next (record (or_zero (find_job r next)) { status = pending; updated_at = now })
      id (promoted-not_dead (or_zero (find_job r next)) now) h,
)

skip-keeps :
    (ops : TextOps) (f : JobFilter) (now : ℕ) (r : Repo) (i : ℕ) (j : Job) (id : ℕ)
    → find_job r i ≡ some j
    → IsClear (matches_dlq_filter ops f) r id
    → IsClear (matches_dlq_filter ops f) (skip_at now r i j) id
unfolding skip_at promote_after
skip-keeps ops f now r i j id e h =
    promote-keeps ops f _ now id _
      (put-keeps ops f r i (completed_job j now) id (completed-not_dead j now) h)

skip-clears :
    (ops : TextOps) (f : JobFilter) (now : ℕ) (r : Repo) (i : ℕ) (j : Job)
    → find_job r i ≡ some j
    → IsClear (matches_dlq_filter ops f) (skip_at now r i j) i
unfolding skip_at promote_after
skip-clears ops f now r i j e =
    promote-keeps ops f _ now i _
      (put-clears ops f r i (completed_job j now) (completed-not_dead j now))

purge-clears :
    (ops : TextOps) (f : JobFilter) (r : Repo) (i : ℕ) (j : Job)
    → find_job r i ≡ some j
    → IsClear (matches_dlq_filter ops f) (purge_at r i j) i
purge-clears ops f r i j e k h = ground (arith, find_job-purge r i j i)

purge-keeps :
    (ops : TextOps) (f : JobFilter) (r : Repo) (i : ℕ) (j : Job) (id : ℕ)
    → find_job r i ≡ some j
    → IsClear (matches_dlq_filter ops f) r id
    → IsClear (matches_dlq_filter ops f) (purge_at r i j) id
purge-keeps ops f r i j id e h k g = ground (arith, find_job-purge r i j id, h k)

-- After each of the three bulk methods no stored job matches the filter any more.
pub bulk_clears :
    (ops : TextOps) (f : JobFilter) (r : Repo) (now id : ℕ)
    → IsClear (matches_dlq_filter ops f) (bulk_replay_dlq ops r f now).0 id
      × IsClear (matches_dlq_filter ops f) (bulk_skip_dlq ops r f now).0 id
      × IsClear (matches_dlq_filter ops f) (bulk_purge_dlq ops r f).0 id
unfolding bulk_replay_dlq bulk_skip_dlq bulk_purge_dlq replay_at
bulk_clears ops f r now id = (
  bulk_over-IsClear _ _ (λ r i j e. put-clears ops f r i _ (replayed-not_dead j now))
      (λ r i j id e. put-keeps ops f r i _ id (replayed-not_dead j now)) r id,
  bulk_over-IsClear _ _ (skip-clears ops f now) (skip-keeps ops f now) r id,
  bulk_over-IsClear _ _ (purge-clears ops f) (purge-keeps ops f) r id,
)

-- The filter that asks for nothing.
abbrev pub AsksNothing : JobFilter → Type 0
AsksNothing f =
    (f.chain_id ≡ "") × (f.job_type ≡ "") × (f.tenant_id ≡ "") × (f.trace_id ≡ "") × (f.search ≡ "")

matches-dead :
    (ops : TextOps) (f : JobFilter) (j : Job)
    → AsksNothing f
    → matches_dlq_filter ops f j ≡ is_dead j
unfolding matches_dlq_filter is_empty
matches-dead ops f j h = ground arith

count_dead-zero :
    (l : List (ℕ × Job))
    → ((id : ℕ) (j : Job) → In (id, j) l → is_dead j ≡ false)
    → count_dead l ≡ 0
unfolding count_dead
count_dead-zero [] h = refl
count_dead-zero ((id, j) ∷ l) h =
    ground (arith, h id j (inl refl), count_dead-zero l (λ i k m. h i k (inr m)))

clear_count :
    (ops : TextOps) (f : JobFilter) (s : Repo)
    → AsksNothing f
    → ((id : ℕ) → IsClear (matches_dlq_filter ops f) s id)
    → count_dlq s ≡ 0
unfolding count_dlq find_job
clear_count ops f s h clear =
    count_dead-zero (range ℕ_discrete s.jobs)
      λ id j m. sym (matches-dead ops f j h) ∙ clear id j (range-get ℕ_discrete id j s.jobs m)

-- With the filter that asks for nothing, each of the three bulk methods empties the dead-letter
-- queue: CountDLQ is 0 afterwards.
pub bulk_empties :
    (ops : TextOps) (f : JobFilter) (r : Repo) (now : ℕ)
    → AsksNothing f
    → (count_dlq (bulk_replay_dlq ops r f now).0 ≡ 0)
      × (count_dlq (bulk_skip_dlq ops r f now).0 ≡ 0)
      × (count_dlq (bulk_purge_dlq ops r f).0 ≡ 0)
bulk_empties ops f r now h = (
  clear_count ops f _ h (λ id. (bulk_clears ops f r now id).0),
  clear_count ops f _ h (λ id. (bulk_clears ops f r now id).1),
  clear_count ops f _ h (λ id. (bulk_clears ops f r now id).2),
)
