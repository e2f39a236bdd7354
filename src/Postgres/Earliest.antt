-- ===== src/Postgres/Earliest.antt =====
-- Which row Claim of repository/postgres/repository.go takes and what it makes of it, in terms that do
-- not run the code.
use orderedjob.Prelude.{
  ◌<◌, ◌≤◌, ◌≡◌, ◌≢◌, ◌⊎◌, ◌↔◌, inl, inr, refl, sym, ◌∙◌, subst, ap, ℕ, ◌||◌, String, Bool, true,
  false, some, In, arith, Bool-cases,
}
use orderedjob.Int64.{ℤ, pos, negsuc, inc64}
use orderedjob.Lifecycle.{Status, Status-discrete, pending, retrying, processing, same}
use orderedjob.Job.{ok, err, not_found}
use orderedjob.Sql.{update_where}
use orderedjob.Sql.Schema.{Row, Table, has_id, scan_job}
use orderedjob.Sql.Rows.{update_where-In, In-update_where, updated-yes, updated-no}
use orderedjob.Sql.Order.{IsLinked, HasTurn, may_follow-HasTurn, HasTurn-may_follow}
use orderedjob.Postgres.Lease.{lease_sec, lease_end}
use orderedjob.Postgres.Claim.{is_claimable, claimed_row, claim}
use orderedjob.Postgres.Choice.{is_free, has_id_refl, IsDueFirst, claim_cases}
use orderedjob.Postgres.Turns.{has_id-same}

-- A row that a worker may take: PENDING or RETRYING, due, in its turn, and held by no other.
abbrev pub IsFree : (Row → Bool) → Table → ℕ → Row → Type 0
IsFree locked t now r =
    ((r.status ≡ pending) ⊎ (r.status ≡ retrying))
    × (r.available_at ≤ now)
    × HasTurn t r
    × (locked r ≡ false)

waits-cases :
    (s : Status) → (same s pending || same s retrying) ≡ true → (s ≡ pending) ⊎ (s ≡ retrying)
unfolding Status-discrete
waits-cases pending h = inl refl
waits-cases retrying h = inr refl
waits-cases _ h = absurd (ground arith)

cases-waits :
    (s : Status) → (s ≡ pending) ⊎ (s ≡ retrying) → (same s pending || same s retrying) ≡ true
unfolding Status-discrete
cases-waits s (inl e) = rw e refl
cases-waits s (inr e) = rw e refl

is_free-IsFree :
    (locked : Row → Bool) (t : Table) (now : ℕ) (r : Row)
    → is_free locked t now r ≡ true
    → IsFree locked t now r
unfolding is_free is_claimable
is_free-IsFree locked t now r h = (
  waits-cases r.status (ground arith),
  ground arith,
  may_follow-HasTurn t r (ground arith),
  ground arith,
)

IsFree-is_free :
    (locked : Row → Bool) (t : Table) (now : ℕ) (r : Row)
    → IsFree locked t now r
    → is_free locked t now r ≡ true
unfolding is_free is_claimable
IsFree-is_free locked t now r (w, d, h, u) =
    ground (arith, cases-waits r.status w, HasTurn-may_follow t r h)

-- `r` is the row `c` as the worker runs it: in the next generation and attempt, under a lease that
-- ends later than now.
pub record IsRunOf (worker : String) (now : ℕ) (c r : Row) : Type 0 where
  pub same_id : r.id ≡ c.id
  pub same_chain : r.chain_id ≡ c.chain_id
  pub same_sequence : r.sequence ≡ c.sequence
  pub same_type : r.job_type ≡ c.job_type
  pub same_payload : r.payload ≡ c.payload
  pub same_mode : r.ordering_mode ≡ c.ordering_mode
  pub runs : r.status ≡ processing
  pub for_worker : r.worker_id ≡ some worker
  pub next_generation : r.lease_generation ≡ inc64 c.lease_generation
  pub next_attempt : r.attempt ≡ inc64 c.attempt
  pub leased : (u : ℕ) × (r.lease_until ≡ some u) × (now < u)

lease_sec-positive : (lease : ℤ) → 0 < lease_sec lease
unfolding lease_sec
lease_sec-positive (negsuc n) = omega arith
lease_sec-positive (pos n) = ground arith

lease_end-later : (lease : ℤ) (now : ℕ) → now < lease_end lease now
unfolding lease_end
lease_end-later lease now = let h = lease_sec-positive lease in omega arith

claimed-IsRunOf :
    (worker : String) (lease : ℤ) (now : ℕ) (c : Row)
    → IsRunOf worker now c (claimed_row worker lease now c)
unfolding claimed_row
claimed-IsRunOf worker lease now c = record {
  same_id = refl;
  same_chain = refl;
  same_sequence = refl;
  same_type = refl;
  same_payload = refl;
  same_mode = refl;
  runs = refl;
  for_worker = refl;
  next_generation = refl;
  next_attempt = refl;
  leased = (lease_end lease now, refl, lease_end-later lease now);
}

-- `u` is `t` with the row `r` in the place of `c`.
abbrev pub Replaces : Row → Row → Table → Table → Type 0
Replaces c r t u = (a : Row) → In a u ↔ ((a ≡ r) ⊎ (In a t × (a.id ≢ c.id)))

other_id : (id : ℕ) (a : Row) → a.id ≢ id → has_id id a ≡ false
unfolding has_id
other_id id a n = ground arith

not_id : (id : ℕ) (a : Row) → has_id id a ≡ false → a.id ≢ id
unfolding has_id
not_id id a h = ground arith

update-Replaces :
    (change : Row → Row) (c : Row) (t : Table)
    → IsLinked t
    → In c t
    → Replaces c (change c) t (update_where (has_id c.id) change t)
update-Replaces change c t l m a = (there, back)
  where
    there : In a (update_where (has_id c.id) change t) → (a ≡ change c) ⊎ (In a t × (a.id ≢ c.id))
    there i =
        let (b, n, e) = update_where-In (has_id c.id) change t a i in
        elim (Bool-cases (has_id c.id b)) [
          | inl y ↦
              let own = l.one_id b c n m (has_id-same b c.id y) in
              inl (e ∙ updated-yes (has_id c.id) change b y ∙ ap change own)
          | inr y ↦
              let kept : a ≡ b = e ∙ updated-no (has_id c.id) change b y in
              inr (
                subst (λ x. In x t) (sym kept) n,
                subst (λ x. Row.id x ≢ c.id) (sym kept) (not_id c.id b y),
              )
        ]

    back : (a ≡ change c) ⊎ (In a t × (a.id ≢ c.id)) → In a (update_where (has_id c.id) change t)
    back (inl e) =
        subst (λ x. In x (update_where (has_id c.id) change t))
          (updated-yes (has_id c.id) change c (has_id_refl c) ∙ sym e)
          (In-update_where (has_id c.id) change t c m)
    back (inr (n, d)) =
        subst (λ x. In x (update_where (has_id c.id) change t))
          (updated-no (has_id c.id) change a (other_id c.id a d))
          (In-update_where (has_id c.id) change t a n)

-- What Claim answers: no row, and ErrNotFound, or the first free row, which it runs.
abbrev pub TakesEarliest : (Row → Bool) → Table → String → ℤ → ℕ → Type 0
TakesEarliest locked t worker lease now =
    ((claim locked t worker lease now ≡ (t, err not_found))
      × ((a : Row) → In a t → ¬ IsFree locked t now a))
    ⊎ ((c : Row) × (r : Row) × In c t
        × IsFree locked t now c
        × ((a : Row) → In a t → IsFree locked t now a → IsDueFirst c a)
        × IsRunOf worker now c r
        × ((claim locked t worker lease now).1 ≡ ok (scan_job r))
        × Replaces c r t (claim locked t worker lease now).0)

-- On a linked table, Claim takes a row that is PENDING or RETRYING, due, in its turn and held by no
-- other transaction, and that no such row is due before; it returns the row as a job, PROCESSING for
-- the worker in the next generation under a lease that ends later than now, and writes it in the
-- place of the old one and nothing else. Where there is no such row, it changes nothing and reports
-- ErrNotFound.
pub claims_earliest :
    (locked : Row → Bool) (t : Table) (worker : String) (lease : ℤ) (now : ℕ)
    → IsLinked t
    → TakesEarliest locked t worker lease now
claims_earliest locked t worker lease now l = elim (claim_cases locked t worker lease now l) [
  | inl (e, f) ↦ inl (e, λ a m h. absurd (ground (arith, f a m, IsFree-is_free locked t now a h)))
  | inr (c, m, free, first, e) ↦ inr (
    c,
    claimed_row worker lease now c,
    m,
    is_free-IsFree locked t now c free,
    λ a n h. first a n (IsFree-is_free locked t now a h),
    claimed-IsRunOf worker lease now c,
    ap (λ x. x.1) e,
    subst (λ x. Replaces c (claimed_row worker lease now c) t x) (sym (ap (λ x. x.0) e))
        (update-Replaces (claimed_row worker lease now) c t l m),
  )
]
