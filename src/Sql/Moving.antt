-- ===== src/Sql/Moving.antt =====
-- The changes that the statements of the SQL repositories make to a row.
use orderedjob.Prelude.{◌≡◌, refl, inl, inr, sym, ◌∙◌, ap, true, false, arith, ℕ, some}
use orderedjob.Lifecycle.{Status-discrete, blocked, processing}
use orderedjob.Sql.Schema.{Row, Table, is_done, may_follow}
use orderedjob.Sql.Order.{Moves, has_started, has_begun, is_some}

-- A change of the state of a row that has begun and is not done.
pub begun-Moves :
    (t : Table) (a b : Row)
    → b.id ≡ a.id
    → b.chain_id ≡ a.chain_id
    → b.sequence ≡ a.sequence
    → b.started_at ≡ a.started_at
    → b.worker_id ≡ a.worker_id
    → has_begun a.status ≡ true
    → (is_done a ≡ true → is_done b ≡ true)
    → Moves t a b
unfolding has_started
begun-Moves t a b i c s e w h d = record {
  same_id = i;
  same_chain = c;
  same_place = s;
  stays_done = d;
  starts = λ k. inl (ap is_some (sym e) ∙ k);
  dates = λ p. (λ k. ap is_some e ∙ p.0 h, λ k. ap is_some e ∙ p.0 h);
}

-- A change of a row to a state that has not begun.
pub waiting-Moves :
    (t : Table) (a b : Row)
    → b.id ≡ a.id
    → b.chain_id ≡ a.chain_id
    → b.sequence ≡ a.sequence
    → b.started_at ≡ a.started_at
    → b.worker_id ≡ a.worker_id
    → has_begun b.status ≡ false
    → is_done a ≡ false
    → Moves t a b
unfolding has_started
waiting-Moves t a b i c s e w h d = record {
  same_id = i;
  same_chain = c;
  same_place = s;
  stays_done = λ k. ground arith;
  starts = λ k. inl (ap is_some (sym e) ∙ k);
  dates = λ p. (λ k. ground arith, λ k. ap is_some e ∙ p.1 (ap is_some (sym w) ∙ k));
}

pub running_begun : (a : Row) → a.status ≡ processing → has_begun a.status ≡ true
unfolding has_begun
running_begun a e = rw e refl

pub running_undone : (a : Row) → a.status ≡ processing → is_done a ≡ false
unfolding is_done Status-discrete
running_undone a e = rw e refl

pub blocked_undone : (a : Row) → a.status ≡ blocked → is_done a ≡ false
unfolding is_done Status-discrete
blocked_undone a e = rw e refl

-- The start of a row that may follow.
pub starting-Moves :
    (t : Table) (a b : Row) (at : ℕ)
    → b.id ≡ a.id
    → b.chain_id ≡ a.chain_id
    → b.sequence ≡ a.sequence
    → b.started_at ≡ some at
    → may_follow t a ≡ true
    → is_done a ≡ false
    → Moves t a b
unfolding has_started
starting-Moves t a b at i c s e h d = record {
  same_id = i;
  same_chain = c;
  same_place = s;
  stays_done = λ k. ground arith;
  starts = λ k. inr h;
  dates = λ p. (λ k. ap is_some e, λ k. ap is_some e);
}
