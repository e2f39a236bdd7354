-- ===== src/Postgres/Fencing.antt =====
-- What the calls of repository/postgres/repository.go with a test of the lease report.
use orderedjob.Prelude.{
  ◌≡◌, ◌≢◌, ◌↔◌, ◌⊎◌, inl, inr, refl, sym, ◌∙◌, subst, ap, ℕ, String, Bool, true, false, Option,
  none, some, In, arith, ℕ_discrete,
}
use orderedjob.Int64.{ℤ}
use orderedjob.Job.{Result, ok, err, lease_conflict}
use orderedjob.Lifecycle.{processing}
use orderedjob.Sql.{null_or_text, row_where, update_where, count_where, with_tx, roll_back}
use orderedjob.Sql.Schema.{Row, Table, has_id}
use orderedjob.Sql.Rows.{
  row_where-none, count_where-zero, count_where-In, update_where-none, updated, In-update_where,
}
use orderedjob.Postgres.Lease.{
  holds_lease, runs_for, update_leased, open_next, then_open_next, completed_row, complete,
  failure_status, failed_row, fail, retrying_row, retry, extended_row, heartbeat,
}

-- A call answers `ok` exactly if some row passes the test, and else leaves the table as it is.
abbrev pub IsTested : (Row → Bool) → Table → Table × Result (Unit {0}) → Type 0
IsTested test t c =
    ((c.1 ≡ ok tt) ↔ ((r : Row) × In r t × (test r ≡ true))) × (c.1 ≢ ok tt → c.0 ≡ t)

-- The two answers.
module _ (test : Row → Bool) (t : Table) where
  pub refused-IsTested :
      (c : Table × Result (Unit {0}))
      → c ≡ (t, err lease_conflict)
      → ((r : Row) → In r t → test r ≡ false)
      → IsTested test t c
  refused-IsTested c e f = subst (IsTested test t) (sym e) refused
    where
      refused : IsTested test t (t, err lease_conflict)
      refused =
          ((λ h. absurd (ground arith), λ (r, m, h). absurd (ground (arith, f r m))), λ _. refl)

  pub granted-IsTested :
      (u : Table) (c : Table × Result (Unit {0}))
      → c ≡ (u, ok tt)
      → (r : Row) × In r t × (test r ≡ true)
      → IsTested test t c
  granted-IsTested u c e r = subst (IsTested test t) (sym e) granted
    where
      granted : IsTested test t (u, ok tt)
      granted = ((λ _. r, λ _. refl), λ h. absurd (h refl))

module _ (test : Row → Bool) (change : Row → Row) (t : Table) where
  pub update_leased-cases :
      ((update_leased test change t ≡ (t, err lease_conflict))
        × ((r : Row) → In r t → test r ≡ false))
      ⊎ ((update_leased test change t ≡ (update_where test change t, ok tt))
          × ((r : Row) × In r t × (test r ≡ true)))
  unfolding update_leased
  update_leased-cases = elim (ℕ_discrete (count_where test t) 0) [
    | yes e ↦
        inl
          (rw e (rw (update_where-none test change t e) refl), λ r m. count_where-zero test t r e m)
    | no n ↦ inr (ground arith, count_where-In test t n)
  ]

  pub update_leased-IsTested : IsTested test t (update_leased test change t)
  update_leased-IsTested = elim update_leased-cases [
    | inl (e, f) ↦ refused-IsTested test t _ e f
    | inr (e, r) ↦ granted-IsTested test t _ _ e r
  ]

-- A transaction of the update alone, whose change depends on the table.
update_in_tx-IsTested :
    (test : Row → Bool) (change : Table → Row → Row) (t : Table)
    → IsTested test t (with_tx (λ s. update_leased test (change s) s) t)
unfolding with_tx
update_in_tx-IsTested test change t = elim (update_leased-cases test (change t) t) [
  | inl (e, f) ↦ refused-IsTested test t _ (ap (roll_back t) e) f
  | inr (e, r) ↦ granted-IsTested test t _ _ (ap (roll_back t) e) r
]

-- A row that was there by its id is still found by it.
pub found_after :
    (test : Row → Bool) (change : Row → Row) (id : ℕ) (t : Table) (r : Row)
    → ((a : Row) → Row.id (change a) ≡ a.id)
    → In r t
    → has_id id r ≡ true
    → row_where (has_id id) (update_where test change t) ≢ none
unfolding has_id
found_after test change id t r keeps m h e = absurd (
    ground (
      arith,
      keeps r,
      row_where-none (has_id id) (update_where test change t) (updated test change r) e
          (In-update_where test change t r m),
    ))

module _ (id : ℕ) (worker : String) (gen : ℤ) (now : ℕ) (change : Row → Row) (t : Table) where
  -- A transaction of the update and of the promotion of the next job.
  pub then_open_next-IsTested :
      ((a : Row) → Row.id (change a) ≡ a.id)
      → IsTested
          (runs_for id worker gen)
          t
          (with_tx (λ s. then_open_next id now (update_leased (runs_for id worker gen) change s)) t)
  unfolding with_tx runs_for holds_lease
  then_open_next-IsTested keeps = elim (update_leased-cases (runs_for id worker gen) change t) [
    | inl (e, f) ↦
        refused-IsTested (runs_for id worker gen) t _
          (ap (λ c. roll_back t (then_open_next id now c)) e) f
    | inr (e, r) ↦
        let (u, g) =
          opened (row_where (has_id id) (update_where (runs_for id worker gen) change t))
            (found_after (runs_for id worker gen) change id t r.0 keeps r.1 (ground arith)) in
        granted-IsTested (runs_for id worker gen) t u _
          (ap (λ c. roll_back t (then_open_next id now c)) e ∙ ap (roll_back t) g) r
  ]
    where
      opened :
          (o : Option Row)
          → o ≢ none
          → (u : Table) × (open_next now (update_where (runs_for id worker gen) change t) o
              ≡ (u, ok tt))
      opened none n = absurd (n refl)
      opened (some r) n = (_, refl)

-- The calls of a worker on its job.
pub data LeaseCall : Type 0 where
  completes : LeaseCall
  fails : String → Bool → LeaseCall
  retries : String → ℕ → LeaseCall
  beats : ℤ → LeaseCall

unfoldable pub call : LeaseCall → Table → ℕ → String → ℤ → ℕ → Table × Result (Unit {0})
call completes t id worker gen now = complete t id worker gen now
call (fails msg terminal) t id worker gen now = fail t id worker gen msg terminal now
call (retries msg next) t id worker gen now = retry t id worker gen msg next now
call (beats lease) t id worker gen now = heartbeat t id worker gen lease now

call-IsTested :
    (c : LeaseCall) (t : Table) (id : ℕ) (worker : String) (gen : ℤ) (now : ℕ)
    → IsTested (runs_for id worker gen) t (call c t id worker gen now)
unfolding call complete completed_row fail retry heartbeat
call-IsTested completes t id worker gen now =
    then_open_next-IsTested id worker gen now (completed_row now) t (λ a. refl)
call-IsTested (fails msg terminal) t id worker gen now =
    update_in_tx-IsTested (runs_for id worker gen)
      (λ s. failed_row (failure_status s id terminal) msg now) t
call-IsTested (retries msg next) t id worker gen now =
    update_in_tx-IsTested (runs_for id worker gen) (λ _. retrying_row msg next now) t
call-IsTested (beats lease) t id worker gen now =
    update_leased-IsTested (runs_for id worker gen) (extended_row lease now) t

-- The row with the id is PROCESSING for the worker, in the generation.
abbrev pub RunsFor : ℕ → String → ℤ → Row → Type 0
RunsFor id worker gen r =
    (r.id ≡ id) × (r.worker_id ≡ some worker) × (r.lease_generation ≡ gen) × (r.status ≡ processing)

pub null_or_text-some : (o : Option String) (s : String) → null_or_text o s ≡ true → o ≡ some s
null_or_text-some none s h = absurd (ground arith)
null_or_text-some (some a) s h = ap some (ground arith)

runs_for-RunsFor :
    (id : ℕ) (worker : String) (gen : ℤ) (r : Row)
    → runs_for id worker gen r ≡ true
    → RunsFor id worker gen r
unfolding runs_for holds_lease has_id
runs_for-RunsFor id worker gen r h =
    (ground arith, null_or_text-some r.worker_id worker (ground arith), ground arith, ground arith)

RunsFor-runs_for :
    (id : ℕ) (worker : String) (gen : ℤ) (r : Row)
    → RunsFor id worker gen r
    → runs_for id worker gen r ≡ true
unfolding runs_for holds_lease has_id
RunsFor-runs_for id worker gen r (a, b, c, d) = rw (a, b, c, d) (ground arith)

-- A call answers without an error exactly if a row is as `P` says, and else leaves the table as it is.
abbrev pub IsFenced : (Row → Type 0) → Table → Table × Result (Unit {0}) → Type 0
IsFenced P t c = ((c.1 ≡ ok tt) ↔ ((r : Row) × In r t × P r)) × (c.1 ≢ ok tt → c.0 ≡ t)

pub spelled_out :
    (test : Row → Bool) (P : Row → Type 0) (t : Table) (c : Table × Result (Unit {0}))
    → ((r : Row) → test r ≡ true → P r)
    → ((r : Row) → P r → test r ≡ true)
    → IsTested test t c
    → IsFenced P t c
spelled_out test P t c there back ((only, if_so), keeps) =
    ((λ e. let (r, m, h) = only e in (r, m, there r h), λ (r, m, h). if_so (r, m, back r h)), keeps)

pub running-IsFenced :
    (id : ℕ) (worker : String) (gen : ℤ) (t : Table) (c : Table × Result (Unit {0}))
    → IsTested (runs_for id worker gen) t c
    → IsFenced (RunsFor id worker gen) t c
running-IsFenced id worker gen t c =
    spelled_out (runs_for id worker gen) (RunsFor id worker gen) t c
      (runs_for-RunsFor id worker gen) (RunsFor-runs_for id worker gen)

-- Complete, Fail, Retry and Heartbeat answer without an error exactly if a row with the id is
-- PROCESSING for the worker in the generation; with an error the table is as it was.
pub lease_call-IsFenced :
    (c : LeaseCall) (t : Table) (id : ℕ) (worker : String) (gen : ℤ) (now : ℕ)
    → IsFenced (RunsFor id worker gen) t (call c t id worker gen now)
lease_call-IsFenced c t id worker gen now =
    running-IsFenced id worker gen t (call c t id worker gen now)
      (call-IsTested c t id worker gen now)
