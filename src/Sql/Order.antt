-- ===== src/Sql/Order.antt =====
-- The invariant of a table on which the statements of the SQL repositories run, and that they keep.
use orderedjob.Prelude.{
  ◌≡◌, ◌⊎◌, inl, inr, refl, Bool, true, false, ◌&&◌, ◌||◌, Option, none, some, [], In, arith, zero,
  suc, String,
}
use orderedjob.Int64.{ℤ, pos, negsuc, ℤ_discrete}
use orderedjob.Job.{OrderingMode, skip_on_failure, dead_letter_and_continue}
use orderedjob.Lifecycle.{
  Status, unset, pending, blocked, cancel_requested, completed, failed, dead_lettered, same,
  Status-discrete,
}
use orderedjob.Memory.State.{continues}
use orderedjob.Sql.Schema.{Row, Table, at_place, prev, is_done, may_follow}
use orderedjob.Sql.Rows.{exists_where-In, In-exists_where}

abbrev pub is_some : {A : Type 0} → Option A → Bool
is_some none = false
is_some (some _) = true

-- The states of a job that a worker has started.
unfoldable pub has_begun : Status → Bool
has_begun unset = false
has_begun pending = false
has_begun blocked = false
has_begun cancel_requested = false
has_begun _ = true

unfoldable pub is_positive : ℤ → Bool
is_positive (pos (suc n)) = true
is_positive _ = false

unfoldable pub has_started : Row → Bool
has_started r = is_some r.started_at

-- A row in a state of a started job, or with a worker, has its time of start.
abbrev pub IsDated : Row → Type 0
IsDated r =
    (has_begun r.status ≡ true → has_started r ≡ true)
    × (is_some r.worker_id ≡ true → has_started r ≡ true)

-- Two rows of one id, or of one place, are one; a started row has nothing open before it.
pub record IsLinked (t : Table) : Type 0 where
  pub one_id : (a b : Row) → In a t → In b t → a.id ≡ b.id → a ≡ b
  pub one_place :
      (a b : Row) → In a t → In b t → a.chain_id ≡ b.chain_id → a.sequence ≡ b.sequence → a ≡ b
  pub dated : (a : Row) → In a t → IsDated a
  pub behind : (a : Row) → In a t → has_started a ≡ true → may_follow t a ≡ true
  pub counted : (a : Row) → In a t → has_started a ≡ true → is_positive a.sequence ≡ true

-- What a statement may make of a row.
pub record Moves (t : Table) (a b : Row) : Type 0 where
  pub same_id : b.id ≡ a.id
  pub same_chain : b.chain_id ≡ a.chain_id
  pub same_place : b.sequence ≡ a.sequence
  pub stays_done : is_done a ≡ true → is_done b ≡ true
  pub starts : has_started b ≡ true → (has_started a ≡ true) ⊎ (may_follow t a ≡ true)
  pub dates : IsDated a → IsDated b

pub []-IsLinked : IsLinked []
[]-IsLinked = record {
  one_id = λ a b m. absurd m;
  one_place = λ a b m. absurd m;
  dated = λ a m. absurd m;
  behind = λ a m. absurd m;
  counted = λ a m. absurd m;
}

pub Moves-refl : (t : Table) (a : Row) → Moves t a a
Moves-refl t a = record {
  same_id = refl;
  same_chain = refl;
  same_place = refl;
  stays_done = λ h. h;
  starts = λ h. inl h;
  dates = λ h. h;
}

-- A row that is done has begun.
pub is_done-begun : (r : Row) → is_done r ≡ true → has_begun r.status ≡ true
unfolding is_done has_begun Status-discrete
is_done-begun r = on r.status
  where
    on :
        (s : Status)
        → (same s completed
            || ((same s failed || same s dead_lettered) && continues r.ordering_mode))
          ≡ true
        → has_begun s ≡ true
    on unset h = ground arith
    on pending h = ground arith
    on blocked h = ground arith
    on cancel_requested h = ground arith
    on _ h = ground arith

pub prev-positive : (x : ℤ) → is_positive (prev x) ≡ true → is_positive x ≡ true
unfolding is_positive prev
prev-positive (pos zero) h = cc
prev-positive (pos (suc n)) h = refl
prev-positive (negsuc n) h = cc

-- The test of a place, as equations.
pub at_place-split :
    (r : Row) (c : String) (s : ℤ) → at_place c s r ≡ true → (r.chain_id ≡ c) × (r.sequence ≡ s)
unfolding at_place
at_place-split r c s h = (ground arith, ground arith)

pub at_place-join :
    (r : Row) (c : String) (s : ℤ) → r.chain_id ≡ c → r.sequence ≡ s → at_place c s r ≡ true
unfolding at_place
at_place-join r c s e f = ground arith

-- `r` is the first of its chain, or the row before it is there and done.
pub may_follow-cases :
    (t : Table) (r : Row)
    → may_follow t r ≡ true
    → (r.sequence ≡ pos 1)
      ⊎ ((p : Row) × In p t
          × (p.chain_id ≡ r.chain_id)
          × (p.sequence ≡ prev r.sequence)
          × (is_done p ≡ true))
unfolding may_follow
may_follow-cases t r h = elim (ℤ_discrete r.sequence (pos 1)) [
  | yes e ↦ inl e
  | no n ↦
      let (p, m, d) =
        exists_where-In (λ p. at_place r.chain_id (prev r.sequence) p && is_done p) t
          (ground arith) in
      let (c, s) = at_place-split p r.chain_id (prev r.sequence) (ground arith) in
      inr (p, m, c, s, ground arith)
]

pub may_follow-first : (t : Table) (r : Row) → r.sequence ≡ pos 1 → may_follow t r ≡ true
unfolding may_follow
may_follow-first t r e = ground arith

pub may_follow-done :
    (t : Table) (r p : Row)
    → In p t
    → p.chain_id ≡ r.chain_id
    → p.sequence ≡ prev r.sequence
    → is_done p ≡ true
    → may_follow t r ≡ true
unfolding may_follow
may_follow-done t r p m c s d = ground (
  arith,
  In-exists_where (λ p. at_place r.chain_id (prev r.sequence) p && is_done p) t p m,
  at_place-join p r.chain_id (prev r.sequence) c s,
)

-- A finished row lets the chain go on: completed, or failed or buried in a mode that goes on.
abbrev pub IsOver : Row → Type 0
IsOver p =
    (p.status ≡ completed)
    ⊎ (((p.status ≡ failed) ⊎ (p.status ≡ dead_lettered))
        × ((p.ordering_mode ≡ skip_on_failure) ⊎ (p.ordering_mode ≡ dead_letter_and_continue)))

-- The first of its chain, or one behind a row that is over.
abbrev pub HasTurn : Table → Row → Type 0
HasTurn t r =
    (r.sequence ≡ pos 1)
    ⊎ ((p : Row) × In p t × (p.chain_id ≡ r.chain_id) × (p.sequence ≡ prev r.sequence) × IsOver p)

continues-cases :
    (m : OrderingMode) → continues m ≡ true → (m ≡ skip_on_failure) ⊎ (m ≡ dead_letter_and_continue)
continues-cases skip_on_failure h = inl refl
continues-cases dead_letter_and_continue h = inr refl
continues-cases _ h = absurd (ground arith)

is_done-IsOver : (p : Row) → is_done p ≡ true → IsOver p
unfolding is_done Status-discrete
is_done-IsOver p h = on p.status h
  where
    on :
        (s : Status)
        → (same s completed
            || ((same s failed || same s dead_lettered) && continues p.ordering_mode))
          ≡ true
        → (s ≡ completed)
          ⊎ (((s ≡ failed) ⊎ (s ≡ dead_lettered))
              × ((p.ordering_mode ≡ skip_on_failure)
                  ⊎ (p.ordering_mode ≡ dead_letter_and_continue)))
    on completed h = inl refl
    on failed h = inr (inl refl, continues-cases p.ordering_mode h)
    on dead_lettered h = inr (inr refl, continues-cases p.ordering_mode h)
    on _ h = absurd (ground arith)

pub may_follow-HasTurn : (t : Table) (r : Row) → may_follow t r ≡ true → HasTurn t r
may_follow-HasTurn t r h = elim (may_follow-cases t r h) [
  | inl e ↦ inl e
  | inr (p, m, c, s, d) ↦ inr (p, m, c, s, is_done-IsOver p d)
]

IsOver-is_done : (p : Row) → IsOver p → is_done p ≡ true
unfolding is_done Status-discrete
IsOver-is_done p (inl e) = rw e refl
IsOver-is_done p (inr (inl e, inl m)) = rw (e, m) refl
IsOver-is_done p (inr (inl e, inr m)) = rw (e, m) refl
IsOver-is_done p (inr (inr e, inl m)) = rw (e, m) refl
IsOver-is_done p (inr (inr e, inr m)) = rw (e, m) refl

pub HasTurn-may_follow : (t : Table) (r : Row) → HasTurn t r → may_follow t r ≡ true
HasTurn-may_follow t r (inl e) = may_follow-first t r e
HasTurn-may_follow t r (inr (p, m, c, s, o)) = may_follow-done t r p m c s (IsOver-is_done p o)
