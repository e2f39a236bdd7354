-- ===== src/Postgres/Draining.antt =====
-- A worker whose handlers all succeed, on repository/postgres/repository.go: it stops.
use orderedjob.Prelude.{
  ◌≡◌, ◌≢◌, inl, inr, refl, sym, ◌∙◌, subst, ap, ℕ, zero, suc, ◌≤◌, ◌<◌, String, Bool, true, false,
  not, Option, none, some, In, arith, Bool-cases,
}
use orderedjob.Int64.{ℤ, inc64}
use orderedjob.Lifecycle.{Status-discrete, completed, processing, pending, blocked, same}
use orderedjob.Job.{Job, Result, ok, err, not_found}
use orderedjob.Sql.{row_where, update_where, count_where, with_tx, roll_back}
use orderedjob.Sql.Schema.{Row, Table, has_id, scan_job}
use orderedjob.Sql.Rows.{count_where-zero, In-update_where, updated-yes}
use orderedjob.Sql.Counting.{count_where-update, count_where-less}
use orderedjob.Sql.Order.{IsLinked}
use orderedjob.Postgres.Lease.{
  holds_lease, runs_for, then_open_next, open_next, open_place, waits_at, opened_row, completed_row,
  complete,
}
use orderedjob.Postgres.Claim.{is_claimable, claimed_row, claim}
use orderedjob.Postgres.Choice.{is_free, claim_cases, has_id_refl}
use orderedjob.Postgres.Fencing.{update_leased-cases, found_after}
use orderedjob.Postgres.Steps.{complete-IsLinked}
use orderedjob.Postgres.Turns.{claim-IsLinked, has_id-same}

-- Each round claims a job and completes it, all at one time and beside the same locked rows.
module _ (locked : Row → Bool) (worker : String) (lease : ℤ) (now : ℕ) where
  abbrev completed_claim : Table × Result Job → Table
  completed_claim (t, err e) = t
  completed_claim (t, ok j) = (complete t j.id worker j.lease_generation now).0

  unfoldable pub drain : ℕ → Table → Table
  drain zero t = t
  drain (suc rounds) t = drain rounds (completed_claim (claim locked t worker lease now))

abbrev pub is_left : Row → Bool
is_left r = not (same r.status completed)

blocked_left : (a : Row) → a.status ≡ blocked → is_left a ≡ true
unfolding Status-discrete
blocked_left a e = rw e refl

running_left : (a : Row) → a.status ≡ processing → is_left a ≡ true
unfolding Status-discrete
running_left a e = rw e refl

claimable_left : (t : Table) (now : ℕ) (a : Row) → is_claimable t now a ≡ true → is_left a ≡ true
unfolding is_claimable Status-discrete
claimable_left t now a h = elim (Bool-cases (same a.status pending)) [
  | inl e ↦ ground arith
  | inr e ↦ ground arith
]

open_place-left :
    (chain : String) (seq : ℤ) (now : ℕ) (t : Table)
    → count_where is_left (open_place chain seq now t) ≤ count_where is_left t
unfolding open_place waits_at opened_row
open_place-left chain seq now t =
    count_where-update is_left (waits_at chain seq) (opened_row now) t
      (λ a _ h _. blocked_left a (ground arith))

completed_done : (now : ℕ) (a : Row) → is_left (completed_row now a) ≡ false
unfolding completed_row Status-discrete
completed_done now a = refl

runs_for-left :
    (id : ℕ) (worker : String) (gen : ℤ) (a : Row)
    → runs_for id worker gen a ≡ true
    → is_left a ≡ true
unfolding runs_for
runs_for-left id worker gen a h = running_left a (ground arith)

-- The claim of a row with one id: no row less is left.
pub claimed-left :
    (worker : String) (lease : ℤ) (now : ℕ) (c : Row) (t : Table)
    → IsLinked t
    → In c t
    → is_claimable t now c ≡ true
    → count_where is_left (update_where (has_id c.id) (claimed_row worker lease now) t)
      ≤ count_where is_left t
claimed-left worker lease now c t l m h =
    count_where-update is_left (has_id c.id) (claimed_row worker lease now) t λ a n e _.
      subst (λ r. is_left r ≡ true) (sym (l.one_id a c n m (has_id-same a c.id e)))
        (claimable_left t now c h)

same_id : (now : ℕ) (a : Row) → Row.id (completed_row now a) ≡ a.id
unfolding completed_row
same_id now a = refl

runs_for-id :
    (id : ℕ) (worker : String) (gen : ℤ) (a : Row)
    → runs_for id worker gen a ≡ true
    → has_id id a ≡ true
unfolding runs_for holds_lease
runs_for-id id worker gen a h = ground arith

pub free_claimable :
    (locked : Row → Bool) (t : Table) (now : ℕ) (c : Row)
    → is_free locked t now c ≡ true
    → is_claimable t now c ≡ true
unfolding is_free
free_claimable locked t now c h = ground arith

-- A call of Complete for a running row leaves fewer rows.
pub complete-left :
    (t : Table) (id : ℕ) (worker : String) (gen : ℤ) (now : ℕ) (r : Row)
    → In r t
    → runs_for id worker gen r ≡ true
    → count_where is_left (complete t id worker gen now).0 < count_where is_left t
unfolding complete with_tx
complete-left t id worker gen now r m h =
    elim (update_leased-cases (runs_for id worker gen) (completed_row now) t) [
      | inl (e, f) ↦ absurd (ground (arith, f r m))
      | inr (e, _) ↦
          subst
            (λ c.
              count_where is_left (roll_back t (then_open_next id now c)).0 < count_where is_left t)
            (sym e)
            (opened (row_where (has_id id) after) (
              found_after (runs_for id worker gen) (completed_row now) id t r (same_id now) m
                (runs_for-id id worker gen r h)))
    ]
  where
    after : Table
    after = update_where (runs_for id worker gen) (completed_row now) t

    fewer : count_where is_left after < count_where is_left t
    fewer =
        count_where-less is_left (runs_for id worker gen) (completed_row now)
          (λ a _. completed_done now a) t r m h (runs_for-left id worker gen r h)

    below : {a b c : ℕ} → a ≤ b → b < c → a < c
    below h k = omega arith

    opened :
        (o : Option Row)
        → o ≢ none
        → count_where is_left (roll_back t (open_next now after o)).0 < count_where is_left t
    opened none n = absurd (n refl)
    opened (some p) n = below (open_place-left p.chain_id (inc64 p.sequence) now after) fewer

-- The claimed row runs for the worker, in its generation.
pub claimed-runs :
    (worker : String) (lease : ℤ) (now : ℕ) (c : Row)
    → runs_for c.id worker
        (Row.lease_generation (claimed_row worker lease now c))
        (claimed_row worker lease now c)
      ≡ true
unfolding runs_for holds_lease claimed_row has_id Status-discrete
claimed-runs worker lease now c = ground arith

module _ (locked : Row → Bool) (worker : String) (lease : ℤ) (now : ℕ) where
  -- A worker that gets no job leaves the table as it is.
  drain-rests :
      (rounds : ℕ) (t : Table)
      → claim locked t worker lease now ≡ (t, err not_found)
      → drain locked worker lease now rounds t ≡ t
  unfolding drain
  drain-rests zero t e = refl
  drain-rests (suc n) t e =
      ap (λ c. drain locked worker lease now n (completed_claim locked worker lease now c)) e
      ∙ drain-rests n t e

  -- A worker completes each job that it claims, and in all rounds the time is one and the rows that
  -- other transactions hold are the same: after as many rounds as a linked table has rows that are not
  -- completed, it gets no job any more at that time.
  pub drain-stops :
      (rounds : ℕ) (t : Table)
      → IsLinked t
      → count_where is_left t ≤ rounds
      → (claim locked (drain locked worker lease now rounds t) worker lease now).1 ≡ err not_found
  unfolding drain scan_job claimed_row
  drain-stops zero t l h = elim (claim_cases locked t worker lease now l) [
    | inl (e, _) ↦ ap (λ c. c.1) e
    | inr (c, m, free, _, _) ↦ absurd (
        ground (
          arith,
          count_where-zero is_left t c (none_left h) m,
          claimable_left t now c (free_claimable locked t now c free),
        ))
  ]
    where
      none_left : {n : ℕ} → n ≤ 0 → n ≡ 0
      none_left k = omega arith
  drain-stops (suc n) t l h = elim (claim_cases locked t worker lease now l) [
    | inl (e, _) ↦
        ap
          (λ s.
            (claim locked
              (drain locked worker lease now n (completed_claim locked worker lease now s)) worker
              lease now).1)
          e
        ∙ ap (λ s. (claim locked s worker lease now).1) (drain-rests n t e)
        ∙ ap (λ c. c.1) e
    | inr (c, m, free, _, e) ↦
        ap
          (λ s.
            (claim locked
              (drain locked worker lease now n (completed_claim locked worker lease now s)) worker
              lease now).1)
          e
        ∙ drain-stops n (after_round c)
            (complete-IsLinked (claimed_table c) c.id worker (inc64 c.lease_generation) now
              (subst IsLinked (ap (λ s. s.0) e) (claim-IsLinked locked t worker lease now l)))
            (fewer
              (complete-left (claimed_table c) c.id worker (inc64 c.lease_generation) now
                (claimed_row worker lease now c) (claimed_there c m)
                (claimed-runs worker lease now c))
              (claimed-left worker lease now c t l m (free_claimable locked t now c free)))
  ]
    where
      claimed_table : Row → Table
      claimed_table c = update_where (has_id c.id) (claimed_row worker lease now) t

      after_round : Row → Table
      after_round c = (complete (claimed_table c) c.id worker (inc64 c.lease_generation) now).0

      claimed_there : (c : Row) → In c t → In (claimed_row worker lease now c) (claimed_table c)
      claimed_there c m =
          subst (λ r. In r (claimed_table c))
            (updated-yes (has_id c.id) (claimed_row worker lease now) c (has_id_refl c))
            (In-update_where (has_id c.id) (claimed_row worker lease now) t c m)

      fewer : {a b : ℕ} → a < b → b ≤ count_where is_left t → a ≤ n
      fewer p q = omega arith
