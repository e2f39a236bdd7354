-- ===== src/Postgres/Keys.antt =====
-- What Enqueue of repository/postgres/repository.go does with a key that it has seen.
use orderedjob.Prelude.{
  ◌≡◌, refl, ◌∙◌, subst, ap, ℕ, String, Bool, false, Option, none, some, ◌∷◌, arith,
}
use orderedjob.Int64.{ℤ}
use orderedjob.Lifecycle.{Status}
use orderedjob.Job.{Job, EnqueueRequest, Result, ok, err, OrderingMode, strict, no_mode, is_empty}
use orderedjob.Sql.{with_tx, roll_back, row_where}
use orderedjob.Sql.Schema.{Table}
use orderedjob.Sql.Keeps.{insert_row-adds}
use orderedjob.Postgres.Enqueue.{
  find_existing, scan_found, new_row, insert_payload, payload-inserted, first_status, inserted,
  choose_sequence, insert_single, enqueue_unless, enqueue,
}

-- The table finds the job by the key.
abbrev IsKept : String → Table × Result Job → Type 0
IsKept key (t, err e) = Unit {0}
IsKept key (t, ok j) =
    (k : Job) × (find_existing t key ≡ some k)
    × (k.id ≡ j.id)
    × (k.chain_id ≡ j.chain_id)
    × (k.sequence ≡ j.sequence)

-- A row that a request with a key makes is found by it.
new_row_found :
    (t : Table) (req : EnqueueRequest) (id now : ℕ) (seq : ℤ) (status : Status)
    (mode : OrderingMode)
    → is_empty req.idempotency_key ≡ false
    → find_existing (new_row req id now seq status mode ∷ t) req.idempotency_key
      ≡ some (scan_found (new_row req id now seq status mode))
unfolding find_existing row_where new_row
new_row_found t req id now seq status mode h = rw h (ground arith)

keeps_once :
    (t : Table) (req : EnqueueRequest) (id now : ℕ) (seq : ℤ) (status : Status)
    (mode mode' : OrderingMode)
    → is_empty req.idempotency_key ≡ false
    → IsKept req.idempotency_key (
        inserted t
          (record (scan_found (new_row req id now seq status mode)) { ordering_mode = mode' })
          (insert_payload req (new_row req id now seq status mode) t))
keeps_once t req id now seq status mode mode' h =
    on (insert_payload req (new_row req id now seq status mode) t) refl
  where
    on :
        (o : Option Table)
        → insert_payload req (new_row req id now seq status mode) t ≡ o
        → IsKept req.idempotency_key (
            inserted t
              (record (scan_found (new_row req id now seq status mode)) { ordering_mode = mode' })
              o)
    on none e = tt
    on (some t') e = (
      scan_found (new_row req id now seq status mode),
      ap (λ s. find_existing s req.idempotency_key)
            (insert_row-adds t t' (new_row req id now seq status mode)
              (payload-inserted req (new_row req id now seq status mode) t t' e)).0
          ∙ new_row_found t req id now seq status mode h,
      refl,
      refl,
      refl,
    )

enqueue-IsKept :
    (allow_gap : Bool) (t : Table) (req : EnqueueRequest) (id now : ℕ)
    → is_empty req.idempotency_key ≡ false
    → IsKept req.idempotency_key (enqueue allow_gap t req id now)
unfolding enqueue with_tx
enqueue-IsKept allow_gap t req id now h = on (find_existing t req.idempotency_key) refl
  where
    roll :
        (c : Table × Result Job)
        → IsKept req.idempotency_key c
        → IsKept req.idempotency_key (roll_back t c)
    roll (u, ok j) k = k
    roll (u, err e) k = tt

    sequenced : (seq : Result ℤ) → IsKept req.idempotency_key (insert_single t req id now seq)
    sequenced (err e) = tt
    sequenced (ok seq) =
        keeps_once t req id now seq (first_status t req.chain_id seq) strict no_mode h

    on :
        (o : Option Job)
        → find_existing t req.idempotency_key ≡ o
        → IsKept req.idempotency_key (roll_back t (enqueue_unless allow_gap req id now t o))
    on (some j) e = (j, e, refl, refl, refl)
    on none e =
        roll (insert_single t req id now (choose_sequence allow_gap t req))
          (sequenced (choose_sequence allow_gap t req))

found_again :
    (allow_gap : Bool) (t : Table) (req : EnqueueRequest) (id now : ℕ) (k : Job)
    → find_existing t req.idempotency_key ≡ some k
    → enqueue allow_gap t req id now ≡ (t, ok k)
unfolding enqueue with_tx
found_again allow_gap t req id now k e =
    ap (λ o. roll_back t (enqueue_unless allow_gap req id now t o)) e

-- After an Enqueue with a key that succeeded, every Enqueue with the key, whatever else it asks for,
-- leaves the table as it is and returns the job of the same id, chain and sequence.
pub enqueue_finds_key :
    (gap gap' : Bool) (t t' : Table) (req req' : EnqueueRequest) (id id' now now' : ℕ) (j : Job)
    → is_empty req.idempotency_key ≡ false
    → req'.idempotency_key ≡ req.idempotency_key
    → enqueue gap t req id now ≡ (t', ok j)
    → (k : Job) × (enqueue gap' t' req' id' now' ≡ (t', ok k))
      × (k.id ≡ j.id)
      × (k.chain_id ≡ j.chain_id)
      × (k.sequence ≡ j.sequence)
enqueue_finds_key gap gap' t t' req req' id id' now now' j h same e =
    let (k, f, i, c, s) =
      subst (IsKept req.idempotency_key) e (enqueue-IsKept gap t req id now h) in
    (k, found_again gap' t' req' id' now' k (ap (find_existing t') same ∙ f), i, c, s)
