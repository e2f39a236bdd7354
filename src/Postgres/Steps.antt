-- ===== src/Postgres/Steps.antt =====
-- The methods of repository/postgres/repository.go keep the invariant of the table.
use orderedjob.Prelude.{◌≡◌, refl, ℕ, String, Bool, true, Option, none, some, In, arith}
use orderedjob.Int64.{ℤ, inc64}
use orderedjob.Lifecycle.{Status-discrete, processing}
use orderedjob.Job.{Result, ok, err}
use orderedjob.Sql.{row_where}
use orderedjob.Sql.Schema.{Row, Table, has_id, is_done}
use orderedjob.Sql.Order.{IsLinked, Moves, has_begun}
use orderedjob.Sql.Keeps.{update-IsLinked, with_tx-keeps}
use orderedjob.Sql.Moving.{
  begun-Moves, waiting-Moves, running_begun, running_undone, blocked_undone,
}
use orderedjob.Postgres.Lease.{
  runs_for, update_leased, waits_at, opened_row, open_place, completed_row, open_next,
  then_open_next, complete, failure_status, failed_row, fail, retrying_row, retry, extended_row,
  heartbeat,
}

pub runs_for-running :
    (id : ℕ) (worker : String) (gen : ℤ) (a : Row)
    → runs_for id worker gen a ≡ true
    → a.status ≡ processing
unfolding runs_for
runs_for-running id worker gen a h = ground arith

pub update_leased-IsLinked :
    (test : Row → Bool) (change : Row → Row) (t : Table)
    → IsLinked t
    → ((a : Row) → In a t → test a ≡ true → Moves t a (change a))
    → IsLinked (update_leased test change t).0
unfolding update_leased
update_leased-IsLinked test change t l moves = update-IsLinked test change t l moves

pub open_place-IsLinked :
    (t : Table) (chain : String) (seq : ℤ) (now : ℕ)
    → IsLinked t
    → IsLinked (open_place chain seq now t)
unfolding open_place waits_at opened_row has_begun
open_place-IsLinked t chain seq now l =
    update-IsLinked _ _ t l
      λ a m h. waiting-Moves t a _ refl refl refl refl refl refl (blocked_undone a (ground arith))

pub then_open_next-IsLinked :
    (id now : ℕ) (c : Table × Result (Unit {0}))
    → IsLinked c.0
    → IsLinked (then_open_next id now c).0
then_open_next-IsLinked id now (s, err e) k = k
then_open_next-IsLinked id now (s, ok _) k = opened (row_where (has_id id) s)
  where
    opened : (r : Option Row) → IsLinked (open_next now s r).0
    opened none = k
    opened (some r) = open_place-IsLinked s r.chain_id (inc64 r.sequence) now k

pub complete-IsLinked :
    (t : Table) (id : ℕ) (worker : String) (gen : ℤ) (now : ℕ)
    → IsLinked t
    → IsLinked (complete t id worker gen now).0
unfolding complete completed_row is_done Status-discrete
complete-IsLinked t id worker gen now l = with_tx-keeps IsLinked _ t l (
    then_open_next-IsLinked id now (update_leased (runs_for id worker gen) (completed_row now) t) (
      update_leased-IsLinked _ _ t l λ a m h.
        begun-Moves t a _ refl refl refl refl refl
          (running_begun a (runs_for-running id worker gen a h)) (λ k. refl)))

-- A change of a running row that leaves it begun.
pub settled :
    (t : Table) (id : ℕ) (worker : String) (gen : ℤ) (change : Row → Row)
    → IsLinked t
    → ((a : Row) → Row.id (change a) ≡ a.id)
    → ((a : Row) → Row.chain_id (change a) ≡ a.chain_id)
    → ((a : Row) → Row.sequence (change a) ≡ a.sequence)
    → ((a : Row) → Row.started_at (change a) ≡ a.started_at)
    → ((a : Row) → Row.worker_id (change a) ≡ a.worker_id)
    → IsLinked (update_leased (runs_for id worker gen) change t).0
settled t id worker gen change l i c s e w = update_leased-IsLinked _ change t l λ a m h.
    begun-Moves t a (change a) (i a) (c a) (s a) (e a) (w a)
      (running_begun a (runs_for-running id worker gen a h))
      (λ k. absurd (ground (arith, running_undone a (runs_for-running id worker gen a h))))

pub fail-IsLinked :
    (t : Table) (id : ℕ) (worker : String) (gen : ℤ) (msg : String) (terminal : Bool) (now : ℕ)
    → IsLinked t
    → IsLinked (fail t id worker gen msg terminal now).0
unfolding fail failed_row
fail-IsLinked t id worker gen msg terminal now l = with_tx-keeps IsLinked _ t l (
    settled t id worker gen (failed_row (failure_status t id terminal) msg now) l (λ a. refl)
      (λ a. refl) (λ a. refl) (λ a. refl) (λ a. refl))

pub retry-IsLinked :
    (t : Table) (id : ℕ) (worker : String) (gen : ℤ) (msg : String) (next now : ℕ)
    → IsLinked t
    → IsLinked (retry t id worker gen msg next now).0
unfolding retry retrying_row
retry-IsLinked t id worker gen msg next now l = with_tx-keeps IsLinked _ t l (
    settled t id worker gen (retrying_row msg next now) l (λ a. refl) (λ a. refl) (λ a. refl)
      (λ a. refl) (λ a. refl))

pub heartbeat-IsLinked :
    (t : Table) (id : ℕ) (worker : String) (gen lease : ℤ) (now : ℕ)
    → IsLinked t
    → IsLinked (heartbeat t id worker gen lease now).0
unfolding heartbeat extended_row
heartbeat-IsLinked t id worker gen lease now l =
    settled t id worker gen (extended_row lease now) l (λ a. refl) (λ a. refl) (λ a. refl)
      (λ a. refl) (λ a. refl)
