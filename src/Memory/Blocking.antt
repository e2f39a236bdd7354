-- ===== src/Memory/Blocking.antt =====
-- A failure that blocks its chain, in repository/memory/repository.go: Fail and the Claim after it.
use orderedjob.Prelude.{
  ℕ, String, ◌≡◌, ◌≢◌, ◌⊎◌, sym, ◌∙◌, ap, subst, true, some, arith, inl, inr, ℕ_discrete,
}
use orderedjob.Int64.{ℤ, pos, inc64, InRange}
use orderedjob.Job.{Job, ok, skip_on_failure, dead_letter_and_continue}
use orderedjob.Memory.State.{Repo, find_job, find_seq, put_job, find_job-put}
use orderedjob.Memory.Claim.{claim, start_job}
use orderedjob.Memory.Lease.{fail, failed_job}
use orderedjob.Memory.Evolves.{Evolves-kept}
use orderedjob.Memory.Steps.{fail-Evolves}
use orderedjob.Memory.Index.{IsIndexed, kept-IsIndexed}
use orderedjob.Memory.Claims.{IsClaimable, claim-Takes}
use orderedjob.Memory.Outcomes.{fail_lem, strict_blocks}

-- The stored job at `next` is the one from before the failure, or the failed one.
failed_or_old :
    (r : Repo) (id next now : ℕ) (msg : String) (j k l : Job)
    → find_job r next ≡ some k
    → find_job (put_job r id (failed_job j now msg true)) next ≡ some l
    → (l ≡ k) ⊎ (l ≡ failed_job j now msg true)
failed_or_old r id next now msg j k l f e = elim (ℕ_discrete id next) [
  | yes p ↦ inr (ground (arith, find_job-put r id next (failed_job j now msg true)))
  | no p ↦ inl (ground (arith, find_job-put r id next (failed_job j now msg true)))
]

failed-not-IsClaimable :
    (r : Repo) (later now : ℕ) (msg : String) (j : Job)
    → ¬ IsClaimable r later (failed_job j now msg true)
unfolding failed_job
failed-not-IsClaimable r later now msg j (s, due, first, idle) = ground arith

-- After a terminal failure that the holder of the lease reports for a job whose mode does not go
-- on, over an indexed repository, the next claim by any worker at any time takes another job than
-- the one right behind the failed one; the sequence of the failed job is an int64, and the next one
-- is not 1.
pub strict_not_claimed :
    (r r' : Repo) (id : ℕ) (worker : String) (gen : ℤ) (now : ℕ) (j k n : Job) (msg : String)
    (next : ℕ) (other : String) (lease later : ℕ)
    → find_job r id ≡ some j
    → j.worker_id ≡ worker
    → j.lease_generation ≡ gen
    → IsIndexed r
    → InRange j.sequence
    → inc64 j.sequence ≢ pos 1
    → j.ordering_mode ≢ skip_on_failure
    → j.ordering_mode ≢ dead_letter_and_continue
    → find_seq r j.chain_id (inc64 j.sequence) ≡ some next
    → find_job r next ≡ some k
    → claim (fail r id worker gen msg true now).0 other lease later ≡ (r', ok n)
    → n.id ≢ next
unfolding start_job
strict_not_claimed r r' id worker gen now j k n msg next other lease later found w g ix range one s
      d behind f h p =
    let kept = fail-Evolves r id worker gen msg true now in
    let (l, at, claimable, _, same, _) =
      claim-Takes _ r' other lease later n (kept-IsIndexed (Evolves-kept kept) ix) h in
    let its_id : l.id ≡ next = sym (ap (λ (q : Job). q.id) same) ∙ p in
    let stored : find_job (put_job r id (failed_job j now msg true)) next ≡ some l =
      subst (λ x. find_job x.0 next ≡ some l) (fail_lem r id worker gen now j found w g msg true)
        (subst (λ i. find_job (fail r id worker gen msg true now).0 i ≡ some l) its_id at) in
    elim (failed_or_old r id next now msg j k l f stored) [
      | inl e ↦
          strict_blocks r id worker gen now j found w g msg next k later ix range one s d behind f
            (subst (IsClaimable _ later) e claimable)
      | inr e ↦ failed-not-IsClaimable _ later now msg j (subst (IsClaimable _ later) e claimable)
    ]
