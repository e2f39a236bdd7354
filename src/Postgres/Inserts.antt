-- ===== src/Postgres/Inserts.antt =====
-- Enqueue and EnqueueBatch of repository/postgres/repository.go keep the invariant of the table.
use orderedjob.Prelude.{
  ◌≡◌, refl, inl, inr, ℕ, String, Bool, false, Option, none, some, List, [], ◌∷◌, ◌++◌, arith,
  if◌then◌else◌, Bool-cases,
}
use orderedjob.Int64.{ℤ, pos, dec64, lt64}
use orderedjob.Lifecycle.{Status}
use orderedjob.Job.{Job, EnqueueRequest, Result, ok, err, OrderingMode, strict, is_empty}
use orderedjob.Sql.{row_where}
use orderedjob.Sql.Schema.{Row, Table, at_place}
use orderedjob.Sql.Order.{IsLinked, has_started, has_begun}
use orderedjob.Sql.Keeps.{insert_row-IsLinked, with_tx-keeps}
use orderedjob.Postgres.Enqueue.{
  find_existing, resolve_sequence, choose_sequence, first_status, status_behind, determine_status,
  new_row, insert_payload, payload-inserted, inserted, insert_single, enqueue_unless, enqueue,
  find_in_batch, insert_in_tx, unless_in_batch, unless_existing, enqueue_single, enqueue_all,
  enqueue_batch, or_strict,
}

status_behind_waits : (r : Option Row) → has_begun (status_behind r) ≡ false
unfolding has_begun
status_behind_waits none = refl
status_behind_waits (some r) = ground arith

first_status_waits :
    (t : Table) (chain : String) (seq : ℤ) → has_begun (first_status t chain seq) ≡ false
unfolding first_status has_begun
first_status_waits t chain seq = elim (Bool-cases (lt64 (pos 1) seq)) [
  | inl e ↦ rw e (status_behind_waits (row_where (at_place chain (dec64 seq)) t))
  | inr e ↦ rw e refl
]

pub determine_status_waits :
    (t : Table) (chain : String) (seq : ℤ) (batch : List Job)
    → has_begun (determine_status t chain seq batch) ≡ false
unfolding determine_status has_begun
determine_status_waits t chain seq batch = ground arith

-- A row that a request makes enters a linked table.
pub inserted-IsLinked :
    (t : Table) (req : EnqueueRequest) (id now : ℕ) (seq : ℤ) (status : Status)
    (mode : OrderingMode) (j : Job)
    → IsLinked t
    → has_begun status ≡ false
    → IsLinked (inserted t j (insert_payload req (new_row req id now seq status mode) t)).0
unfolding new_row has_started
inserted-IsLinked t req id now seq status mode j l w =
    on (insert_payload req (new_row req id now seq status mode) t) refl
  where
    on :
        (o : Option Table)
        → insert_payload req (new_row req id now seq status mode) t ≡ o
        → IsLinked (inserted t j o).0
    on none e = l
    on (some t') e =
        insert_row-IsLinked t t' (new_row req id now seq status mode) l
          (payload-inserted req (new_row req id now seq status mode) t t' e)
          (λ h. ground arith, λ h. absurd (ground arith)) (λ h. ground arith)

pub enqueue-IsLinked :
    (allow_gap : Bool) (t : Table) (req : EnqueueRequest) (id now : ℕ)
    → IsLinked t
    → IsLinked (enqueue allow_gap t req id now).0
unfolding enqueue
enqueue-IsLinked allow_gap t req id now l =
    with_tx-keeps IsLinked _ t l (on (find_existing t req.idempotency_key))
  where
    with_sequence : (seq : Result ℤ) → IsLinked (insert_single t req id now seq).0
    with_sequence (err e) = l
    with_sequence (ok seq) =
        inserted-IsLinked t req id now seq (first_status t req.chain_id seq) strict _ l
          (first_status_waits t req.chain_id seq)

    on : (o : Option Job) → IsLinked (enqueue_unless allow_gap req id now t o).0
    on (some existing) = l
    on none = with_sequence (choose_sequence allow_gap t req)

enqueue_single-IsLinked :
    (t : Table) (req : EnqueueRequest) (id now : ℕ) (batch : List Job)
    → IsLinked t
    → IsLinked (enqueue_single t req id now batch).0
unfolding enqueue_single
enqueue_single-IsLinked t req id now batch l = on (find_existing t req.idempotency_key)
  where
    with_sequence : (seq : Result ℤ) → IsLinked (insert_in_tx t req id now batch seq).0
    with_sequence (err e) = l
    with_sequence (ok seq) =
        inserted-IsLinked t req id now seq (determine_status t req.chain_id seq batch)
          (or_strict req.ordering_mode) _ l (determine_status_waits t req.chain_id seq batch)

    unless : (o : Option Job) → IsLinked (unless_in_batch t req id now batch o).0
    unless (some j) = l
    unless none = with_sequence (resolve_sequence t req.chain_id req.sequence)

    on : (o : Option Job) → IsLinked (unless_existing t req id now batch o).0
    on (some existing) = l
    on none =
        unless
          (if is_empty req.idempotency_key then none else find_in_batch req.idempotency_key batch)

enqueue_all-IsLinked :
    (t : Table) (out : List Job) (reqs : List (EnqueueRequest × ℕ × ℕ))
    → IsLinked t
    → IsLinked (enqueue_all t out reqs).0
unfolding enqueue_all
enqueue_all-IsLinked t out [] l = l
enqueue_all-IsLinked t out ((req, id, now) ∷ rest) l =
    on (enqueue_single t req id now out) (enqueue_single-IsLinked t req id now out l)
      (λ u js. enqueue_all-IsLinked u js rest)
  where
    on :
        (c : Table × Result Job)
        → IsLinked c.0
        → ((u : Table) (js : List Job) → IsLinked u → IsLinked (enqueue_all u js rest).0)
        → IsLinked
            (elim c.1 as (λ _. Table × Result (List Job)) [
              | err e ↦ (c.0, err e)
              | ok j ↦ enqueue_all c.0 (out ++ j ∷ []) rest
            ]).0
    on (u, err e) k go = k
    on (u, ok j) k go = go u (out ++ j ∷ []) k

pub enqueue_batch-IsLinked :
    (t : Table) (reqs : List (EnqueueRequest × ℕ × ℕ))
    → IsLinked t
    → IsLinked (enqueue_batch t reqs).0
unfolding enqueue_batch
enqueue_batch-IsLinked t reqs l =
    with_tx-keeps IsLinked (λ s. enqueue_all s [] reqs) t l (enqueue_all-IsLinked t [] reqs l)
