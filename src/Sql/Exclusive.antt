-- ===== src/Sql/Exclusive.antt =====
-- At most one job of a chain runs at a time on a table of the SQL repositories.
use orderedjob.Prelude.{
  ◌≡◌, ◌≢◌, ◌⊎◌, inl, inr, refl, sym, ◌∙◌, subst, ap, true, In, arith, ℕ, zero, suc, ◌+◌,
}
use orderedjob.Int64.{ℤ, pos, negsuc}
use orderedjob.Lifecycle.{Status-discrete, processing}
use orderedjob.Sql.Schema.{Row, Table, prev, is_done}
use orderedjob.Sql.Order.{
  IsLinked, has_started, has_begun, is_positive, is_done-begun, may_follow-cases,
}

-- Behind a started row, the row of each earlier positive place is there and done.
all_done_before :
    (t : Table) (n k : ℕ) (b : Row)
    → IsLinked t
    → In b t
    → has_started b ≡ true
    → b.sequence ≡ pos (suc (suc (n + k)))
    → (p : Row) × In p t
      × (p.chain_id ≡ b.chain_id)
      × (p.sequence ≡ pos (suc n))
      × (is_done p ≡ true)
unfolding prev
all_done_before t n zero b l m h e = elim (may_follow-cases t b (l.behind b m h)) [
  | inl f ↦ absurd (ground arith)
  | inr (p, i, c, s, d) ↦ (p, i, c, s ∙ ap prev e ∙ ground arith, d)
]
all_done_before t n (suc k) b l m h e = elim (may_follow-cases t b (l.behind b m h)) [
  | inl f ↦ absurd (ground arith)
  | inr (p, i, c, s, d) ↦
      let (q, j, c', s', d') =
        all_done_before t n k p l i ((l.dated p i).0 (is_done-begun p d))
          (s ∙ ap prev e ∙ ground arith) in
      (q, j, c' ∙ c, s', d')
]

pub running-started :
    (t : Table) (a : Row) → IsLinked t → In a t → a.status ≡ processing → has_started a ≡ true
unfolding has_begun
running-started t a l m e = (l.dated a m).0 (rw e refl)

running_not_done : (a : Row) → a.status ≡ processing → is_done a ≢ true
unfolding is_done Status-discrete
running_not_done a e = rw e (ground arith)

positive_place : (x : ℤ) → is_positive x ≡ true → (n : ℕ) × (x ≡ pos (suc n))
unfolding is_positive
positive_place (pos zero) h = absurd (ground arith)
positive_place (pos (suc n)) h = (n, refl)
positive_place (negsuc n) h = absurd (ground arith)

-- No running row has a running row of its chain at a greater place.
not_before :
    (t : Table) (n k : ℕ) (a b : Row)
    → IsLinked t
    → In a t
    → In b t
    → a.status ≡ processing
    → b.status ≡ processing
    → a.chain_id ≡ b.chain_id
    → a.sequence ≡ pos (suc n)
    → b.sequence ≡ pos (suc (suc (n + k)))
    → ⊥
not_before t n k a b l m m' p q c e f =
    let (d, i, c', s, done) = all_done_before t n k b l m' (running-started t b l m' q) f in
    running_not_done a p
      (subst (λ x. is_done x ≡ true) (l.one_place d a i m (c' ∙ sym c) (s ∙ sym e)) done)

-- On a linked table, two running rows of one chain are one row.
pub one_running :
    (t : Table) (a b : Row)
    → IsLinked t
    → In a t
    → In b t
    → a.status ≡ processing
    → b.status ≡ processing
    → a.chain_id ≡ b.chain_id
    → a ≡ b
one_running t a b l m m' p q c =
    let (x, e) = positive_place a.sequence (l.counted a m (running-started t a l m p)) in
    let (y, f) = positive_place b.sequence (l.counted b m' (running-started t b l m' q)) in
    elim (trichotomy x y) [
      | inl g ↦ l.one_place a b m m' c (e ∙ ap (λ i. pos (suc i)) g ∙ sym f)
      | inr (inl (k, g)) ↦
          absurd (not_before t x k a b l m m' p q c e (f ∙ ap (λ i. pos (suc i)) g))
      | inr (inr (k, g)) ↦
          absurd (not_before t y k b a l m' m q p (sym c) f (e ∙ ap (λ i. pos (suc i)) g))
    ]
  where
    trichotomy :
        (x y : ℕ) → (x ≡ y) ⊎ (((k : ℕ) × (y ≡ suc (x + k))) ⊎ ((k : ℕ) × (x ≡ suc (y + k))))
    trichotomy zero zero = inl refl
    trichotomy zero (suc y) = inr (inl (y, omega arith))
    trichotomy (suc x) zero = inr (inr (x, omega arith))
    trichotomy (suc x) (suc y) = elim (trichotomy x y) [
      | inl e ↦ inl (ap suc e)
      | inr (inl (k, e)) ↦ inr (inl (k, omega arith))
      | inr (inr (k, e)) ↦ inr (inr (k, omega arith))
    ]
