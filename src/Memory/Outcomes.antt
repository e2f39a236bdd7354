-- ===== src/Memory/Outcomes.antt =====
-- The end of a run, in repository/memory/repository.go: Complete, and Fail with PromoteNext, as the
-- holder of the lease calls them.
use mathlib.Core.Path.{ap₂}
use orderedjob.Prelude.{
  ℕ, String, ◌≡◌, ◌≢◌, ◌⊎◌, ◌≤◌, refl, sym, ◌∙◌, ap, subst, Bool, true, Option, none, some, arith,
  inl, inr, ite, ℕ_discrete,
}
use orderedjob.Int64.{ℤ, pos, inc64, dec64, InRange, dec64-inc64}
use orderedjob.Lifecycle.{processing, blocked}
use orderedjob.Job.{Job, ok, skip_on_failure, dead_letter_and_continue}
use orderedjob.Memory.State.{Repo, find_job, find_seq, put_job, or_zero, find_job-put, find_seq-put}
use orderedjob.Memory.Lease.{
  holds_lease, fenced, complete, completed_job, fail, failed_job, promote_after,
}
use orderedjob.Memory.Admin.{promote_next}
use orderedjob.Memory.Index.{IsIndexed}
use orderedjob.Memory.Exclusive.{IsExclusive}
use orderedjob.Memory.Claims.{IsDone, IsClaimable}
use orderedjob.Memory.Progress.{promoted, find_job-after, IsOpened, after-IsOpened}

fenced_holds :
    (r : Repo) (id : ℕ) (worker : String) (gen : ℤ) (act : Job → Repo) (j : Job)
    → find_job r id ≡ some j
    → j.worker_id ≡ worker
    → j.lease_generation ≡ gen
    → fenced r id worker gen act ≡ (act j, ok tt)
unfolding fenced holds_lease
fenced_holds r id worker gen act j e w g = rw e (ground arith)

module _ (r : Repo) (id : ℕ) (worker : String) (gen : ℤ) (now : ℕ) (j : Job)
    (found : find_job r id ≡ some j) (holds_worker : j.worker_id ≡ worker)
    (holds_gen : j.lease_generation ≡ gen) where
  pub complete_lem :
      complete r id worker gen now
      ≡ (promote_after (put_job r id (completed_job j now)) j.chain_id j.sequence now, ok tt)
  unfolding complete
  complete_lem = fenced_holds r id worker gen _ j found holds_worker holds_gen

  pub fail_lem :
      (msg : String) (terminal : Bool)
      → fail r id worker gen msg terminal now
        ≡ (put_job r id (failed_job j now msg terminal), ok tt)
  unfolding fail
  fail_lem msg terminal = fenced_holds r id worker gen _ j found holds_worker holds_gen

  module _ (next : ℕ) (k : Job) (runs : j.status ≡ processing)
      (behind : find_seq r j.chain_id (inc64 j.sequence) ≡ some next)
      (found_next : find_job r next ≡ some k) (waits : k.status ≡ blocked) where
    -- The holder of the lease completes a running job, behind which a BLOCKED one waits: the call
    -- succeeds, the job is COMPLETED, the one behind it PENDING, and all else is as it was.
    pub complete_writes :
        ((complete r id worker gen now).1 ≡ ok tt)
        × ((i : ℕ)
            → find_job (complete r id worker gen now).0 i
              ≡ ite
                  (ℕ_discrete next i)
                  (some (promoted k now))
                  (ite (ℕ_discrete id i) (some (completed_job j now)) (find_job r i)))
    complete_writes = (
      ap (λ x. x.1) complete_lem,
      λ i.
          ap (λ x. find_job x.0 i) complete_lem
          ∙ find_job-after r id next now j k _ found runs behind found_next waits i,
    )

    module _ (later : ℕ) (ix : IsIndexed r) (x : IsExclusive r) (range : InRange j.sequence)
        (due : k.available_at ≤ later) where
      -- Over an indexed repository in which one job of a chain runs at most, the holder of the lease
      -- completes a running job, whose sequence is an int64: the job that is stored then in the place of
      -- the BLOCKED one behind it is claimable, from the time on at which that one is due.
      pub complete_opens_next : IsOpened (complete r id worker gen now).0 next k later
      unfolding completed_job
      complete_opens_next =
          subst (λ x. IsOpened x.0 next k later) (sym complete_lem)
            (after-IsOpened r id next now j k _ found runs behind found_next waits later ix x range
              (λ h. cc) (inl refl) due)

      failed_job-IsDone :
          (msg : String)
          → (j.ordering_mode ≡ skip_on_failure) ⊎ (j.ordering_mode ≡ dead_letter_and_continue)
          → IsDone (failed_job j now msg true)
      unfolding failed_job
      failed_job-IsDone msg mode = ground arith

      failed_job-stops : (msg : String) → (failed_job j now msg true).status ≢ processing
      unfolding failed_job
      failed_job-stops msg = ground arith

      -- Over an indexed repository in which one job of a chain runs at most, the holder of the lease
      -- reports a terminal failure of a running job, whose mode goes on and whose sequence is an
      -- int64: after PromoteNext, the BLOCKED job behind it is claimable, from the time on at which
      -- it is due.
      pub fail_opens_next :
          (msg : String)
          → (j.ordering_mode ≡ skip_on_failure) ⊎ (j.ordering_mode ≡ dead_letter_and_continue)
          → IsOpened
              (promote_next (fail r id worker gen msg true now).0 j.chain_id j.sequence now)
              next
              k
              later
      unfolding promote_next
      fail_opens_next msg mode =
          subst (λ x. IsOpened (promote_after x.0 j.chain_id j.sequence now) next k later)
            (sym (fail_lem msg true))
            (after-IsOpened r id next now j k _ found runs behind found_next waits later ix x range
              (failed_job-stops msg) (failed_job-IsDone msg mode) due)

  strict-not-IsDone :
      (msg : String)
      → j.ordering_mode ≢ skip_on_failure
      → j.ordering_mode ≢ dead_letter_and_continue
      → ¬ IsDone (failed_job j now msg true)
  unfolding failed_job
  strict-not-IsDone msg s d h = ground arith

  find_failed :
      (msg : String)
      → find_job (put_job r id (failed_job j now msg true)) id ≡ some (failed_job j now msg true)
  find_failed msg = ground (arith, find_job-put r id id (failed_job j now msg true))

  -- A terminal failure in the strict mode, or in one of no known name, holds the chain back: no job
  -- right behind the failed one is claimable, at any time.
  pub strict_blocks :
      (msg : String) (next : ℕ) (k : Job) (later : ℕ)
      → IsIndexed r
      → InRange j.sequence
      → inc64 j.sequence ≢ pos 1
      → j.ordering_mode ≢ skip_on_failure
      → j.ordering_mode ≢ dead_letter_and_continue
      → find_seq r j.chain_id (inc64 j.sequence) ≡ some next
      → find_job r next ≡ some k
      → ¬ IsClaimable (fail r id worker gen msg true now).0 later k
  strict_blocks msg next k later ix range later_one s d behind f =
      subst (λ x. ¬ IsClaimable x.0 later k) (sym (fail_lem msg true))
        (λ c. elim c.2 [
          | inl one ↦ later_one (sym seq ∙ one)
          | inr (i, p, e, g, fin) ↦
              let here : i ≡ id = ap or_none (sym e ∙ find_seq-put r id _ _ _ ∙ at) in
              let it : p ≡ failed_job j now msg true =
                ap or_zero (sym g ∙ ap (find_job _) here ∙ find_failed msg) in
              strict-not-IsDone msg s d (subst IsDone it fin)
        ])
    where
      or_none : Option ℕ → ℕ
      or_none none = 0
      or_none (some n) = n

      found_at :
          (q : Job) × (find_job r next ≡ some q)
          × (q.chain_id ≡ j.chain_id)
          × (q.sequence ≡ inc64 j.sequence)
      found_at = ix.leads j.chain_id (inc64 j.sequence) next behind

      same : found_at.0 ≡ k
      same = ap or_zero (sym found_at.1 ∙ f)

      seq : k.sequence ≡ inc64 j.sequence
      seq = ap (λ (q : Job). q.sequence) (sym same) ∙ found_at.3

      at : find_seq r k.chain_id (dec64 k.sequence) ≡ some id
      at =
          ap₂ (find_seq r) (ap (λ (q : Job). q.chain_id) (sym same) ∙ found_at.2)
            (ap dec64 seq ∙ dec64-inc64 j.sequence range)
          ∙ ix.listed id j found
