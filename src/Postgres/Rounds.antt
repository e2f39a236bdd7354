-- ===== src/Postgres/Rounds.antt =====
-- A worker of repository/postgres/repository.go that completes what it claims, at any times and beside
-- any rows that other transactions hold.
use orderedjob.Prelude.{
  inl, inr, sym, subst, ap, ℕ, ◌+◌, ◌≤◌, ◌<◌, String, Bool, List, [], ◌∷◌, In, arith,
}
use orderedjob.Int64.{ℤ, inc64}
use orderedjob.Job.{Job, Result, ok, err}
use orderedjob.Sql.{update_where, count_where}
use orderedjob.Sql.Schema.{Row, Table, has_id, scan_job}
use orderedjob.Sql.Rows.{In-update_where, updated-yes}
use orderedjob.Sql.Order.{IsLinked}
use orderedjob.Postgres.Lease.{complete}
use orderedjob.Postgres.Claim.{claimed_row, claim}
use orderedjob.Postgres.Choice.{claim_cases, has_id_refl}
use orderedjob.Postgres.Steps.{complete-IsLinked}
use orderedjob.Postgres.Turns.{claim-IsLinked}
use orderedjob.Postgres.Draining.{
  is_left, complete-left, claimed-left, claimed-runs, free_claimable,
}

-- A round: the rows that others hold, the time of the claim, and that of the completion.
abbrev pub Round : Type 0
Round = (Row → Bool) × ℕ × ℕ

module _ (worker : String) (lease : ℤ) where
  abbrev answered : Table × Result Job → ℕ
  answered (t, err e) = 0
  answered (t, ok j) = 1

  abbrev completed_at : ℕ → Table × Result Job → Table
  completed_at done (t, err e) = t
  completed_at done (t, ok j) = (complete t j.id worker j.lease_generation done).0

  -- The number of the rounds in which the worker gets a job.
  unfoldable pub served : List Round → Table → ℕ
  served [] t = 0
  served ((locked, now, done) ∷ rounds) t =
      let out = claim locked t worker lease now in
      answered out + served rounds (completed_at done out)

  -- However long a worker goes on, whatever the times are and whatever rows other transactions hold:
  -- it gets no more jobs than a linked table has rows that are not completed, if it completes each.
  pub served-bounded :
      (rounds : List Round) (t : Table) → IsLinked t → served rounds t ≤ count_where is_left t
  unfolding served scan_job claimed_row
  served-bounded [] t l = omega arith
  served-bounded ((locked, now, done) ∷ rounds) t l =
      elim (claim_cases locked t worker lease now l) [
        | inl (e, _) ↦
            subst (λ s. answered s + served rounds (completed_at done s) ≤ count_where is_left t)
              (sym e) (none_more (served-bounded rounds t l))
        | inr (c, m, free, _, e) ↦
            subst (λ s. answered s + served rounds (completed_at done s) ≤ count_where is_left t)
              (sym e)
              (one_more
                (served-bounded rounds (after c) (
                  complete-IsLinked (taken c) c.id worker (inc64 c.lease_generation) done (
                    subst IsLinked (ap (λ s. s.0) e) (claim-IsLinked locked t worker lease now l))))
                (complete-left (taken c) c.id worker (inc64 c.lease_generation) done
                  (claimed_row worker lease now c) (there c m) (claimed-runs worker lease now c))
                (claimed-left worker lease now c t l m (free_claimable locked t now c free)))
      ]
    where
      taken : Row → Table
      taken c = update_where (has_id c.id) (claimed_row worker lease now) t

      after : Row → Table
      after c = (complete (taken c) c.id worker (inc64 c.lease_generation) done).0

      there : (c : Row) → In c t → In (claimed_row worker lease now c) (taken c)
      there c m =
          subst (λ r. In r (taken c))
            (updated-yes (has_id c.id) (claimed_row worker lease now) c (has_id_refl c))
            (In-update_where (has_id c.id) (claimed_row worker lease now) t c m)

      one_more : {n a b d : ℕ} → n ≤ a → a < b → b ≤ d → 1 + n ≤ d
      one_more h k i = omega arith

      none_more : {n d : ℕ} → n ≤ d → 0 + n ≤ d
      none_more h = omega arith
