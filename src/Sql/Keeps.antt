-- ===== src/Sql/Keeps.antt =====
-- The statements of the SQL repositories keep the invariant of a table.
use orderedjob.Prelude.{
  ◌≡◌, ◌≢◌, inl, inr, refl, sym, ◌∙◌, subst, ap, Bool, true, some, ◌∷◌, In, arith, Bool-cases,
}
use orderedjob.Job.{Result, ok, err}
use orderedjob.Sql.{exists_where, update_where, with_tx, roll_back}
use orderedjob.Sql.Schema.{Row, Table, prev, may_follow, conflicts, insert_row, has_id}
use orderedjob.Sql.Rows.{
  In-exists_where, updated, update_where-In, In-update_where, updated-yes, updated-no,
}
use orderedjob.Sql.Order.{
  IsLinked, IsDated, Moves, Moves-refl, has_started, is_positive, is_done-begun, prev-positive,
  may_follow-cases, may_follow-first, may_follow-done, at_place-join,
}

-- A row that follows in a table has a positive place, where the started rows have one.
pub may_follow-positive :
    (t : Table) (r : Row) → IsLinked t → may_follow t r ≡ true → is_positive r.sequence ≡ true
unfolding is_positive
may_follow-positive t r l h = elim (may_follow-cases t r h) [
  | inl e ↦ rw e refl
  | inr (p, m, c, s, d) ↦
      prev-positive r.sequence
        (subst (λ x. is_positive x ≡ true) s (l.counted p m ((l.dated p m).0 (is_done-begun p d))))
]

module _ (test : Row → Bool) (change : Row → Row) (t : Table) where
  -- What an update makes of a row, where it moves the rows that it reaches.
  abbrev MovesAll : Type 0
  MovesAll = (a : Row) → In a t → test a ≡ true → Moves t a (change a)

  moved : MovesAll → (a : Row) → In a t → Moves t a (updated test change a)
  moved moves a m = elim (Bool-cases (test a)) [
    | inl e ↦ subst (Moves t a) (sym (updated-yes test change a e)) (moves a m e)
    | inr e ↦ subst (Moves t a) (sym (updated-no test change a e)) (Moves-refl t a)
  ]

  follows :
      MovesAll
      → (a : Row) → In a t
      → may_follow t a ≡ true
      → may_follow (update_where test change t) (updated test change a) ≡ true
  follows moves a m h =
      let v = moved moves a m in
      elim (may_follow-cases t a h) [
        | inl e ↦ may_follow-first _ _ (v.same_place ∙ e)
        | inr (p, n, c, s, d) ↦
            let w = moved moves p n in
            may_follow-done _ _ (updated test change p) (In-update_where test change t p n)
              (w.same_chain ∙ c ∙ sym v.same_chain) (w.same_place ∙ s ∙ sym (ap prev v.same_place))
              (w.stays_done d)
      ]

  starts_behind :
      IsLinked t
      → MovesAll
      → (a : Row) → In a t
      → has_started (updated test change a) ≡ true
      → may_follow t a ≡ true
  starts_behind l moves a m h = elim ((moved moves a m).starts h) [
    | inl e ↦ l.behind a m e
    | inr e ↦ e
  ]

  -- An UPDATE keeps the invariant, where it moves the rows that it reaches.
  pub update-IsLinked :
      IsLinked t
      → ((a : Row) → In a t → test a ≡ true → Moves t a (change a))
      → IsLinked (update_where test change t)
  update-IsLinked l moves = record {
    one_id = λ b d m n c.
        let (a, m', e) = update_where-In test change t b m in
        let (a', n', e') = update_where-In test change t d n in
        let same = l.one_id a a' m' n' (
          sym (moved moves a m').same_id
          ∙ ap (λ r. r.id) (sym e)
          ∙ c
          ∙ ap (λ r. r.id) e'
          ∙ (moved moves a' n').same_id) in
        e ∙ ap (updated test change) same ∙ sym e';
    one_place = λ b d m n c s.
        let (a, m', e) = update_where-In test change t b m in
        let (a', n', e') = update_where-In test change t d n in
        let v = moved moves a m' in
        let w = moved moves a' n' in
        let same =
          l.one_place a a' m' n'
            (sym v.same_chain
              ∙ ap (λ r. r.chain_id) (sym e)
              ∙ c
              ∙ ap (λ r. r.chain_id) e'
              ∙ w.same_chain)
            (sym v.same_place
              ∙ ap (λ r. r.sequence) (sym e)
              ∙ s
              ∙ ap (λ r. r.sequence) e'
              ∙ w.same_place) in
        e ∙ ap (updated test change) same ∙ sym e';
    dated = λ b m.
        let (a, m', e) = update_where-In test change t b m in
        subst IsDated (sym e) ((moved moves a m').dates (l.dated a m'));
    behind = λ b m.
        let (a, m', e) = update_where-In test change t b m in
        subst (λ r. has_started r ≡ true → may_follow (update_where test change t) r ≡ true) (sym e)
          (λ h. follows moves a m' (starts_behind l moves a m' h));
    counted = λ b m.
        let (a, m', e) = update_where-In test change t b m in
        subst (λ r. has_started r ≡ true → is_positive r.sequence ≡ true) (sym e)
          (λ h.
            subst (λ x. is_positive x ≡ true) (sym (moved moves a m').same_place)
              (may_follow-positive t a l (starts_behind l moves a m' h)));
  }

-- `a` has neither the id nor the place of `r`.
abbrev pub IsFree : Row → Row → Type 0
IsFree r a = (a.id ≢ r.id) × (a.chain_id ≡ r.chain_id → a.sequence ≢ r.sequence)

-- An INSERT of a row that has not begun keeps the invariant.
module _ (t t' : Table) (r : Row) where
  pub insert_row-adds : insert_row r t ≡ some t' → (t' ≡ r ∷ t) × ((a : Row) → In a t → IsFree r a)
  unfolding insert_row conflicts has_id
  insert_row-adds h = elim (Bool-cases (exists_where (conflicts r) t)) [
    | inl e ↦ ground arith
    | inr e ↦ (
      ground arith,
      λ a m. (
        λ i. ground (arith, In-exists_where (conflicts r) t a m),
        λ c s.
            ground (
              arith,
              In-exists_where (conflicts r) t a m,
              at_place-join a r.chain_id r.sequence c s,
            ),
      ),
    )
  ]

  more_follow : (a : Row) → may_follow t a ≡ true → may_follow (r ∷ t) a ≡ true
  more_follow a h = elim (may_follow-cases t a h) [
    | inl e ↦ may_follow-first (r ∷ t) a e
    | inr (p, m, c, s, d) ↦ may_follow-done (r ∷ t) a p (inr m) c s d
  ]

  cons-IsLinked :
      IsLinked t
      → ((a : Row) → In a t → IsFree r a)
      → IsDated r
      → has_started r ≢ true
      → IsLinked (r ∷ t)
  cons-IsLinked l free dated idle = record {
    one_id = λ a b m n c. ids a b m n c;
    one_place = λ a b m n c s. places a b m n c s;
    dated = λ a m. elim m [ inl e ↦ subst IsDated e dated | inr n ↦ l.dated a n ];
    behind = λ a m. elim m [
      | inl e ↦ λ h. absurd (idle (subst (λ x. has_started x ≡ true) (sym e) h))
      | inr n ↦ λ h. more_follow a (l.behind a n h)
    ];
    counted = λ a m. elim m [
      | inl e ↦ λ h. absurd (idle (subst (λ x. has_started x ≡ true) (sym e) h))
      | inr n ↦ l.counted a n
    ];
  }
    where
      ids : (a b : Row) → In a (r ∷ t) → In b (r ∷ t) → a.id ≡ b.id → a ≡ b
      ids a b (inl e) (inl f) c = sym e ∙ f
      ids a b (inl e) (inr n) c = absurd ((free b n).0 (sym c ∙ ap (λ x. x.id) (sym e)))
      ids a b (inr m) (inl f) c = absurd ((free a m).0 (c ∙ ap (λ x. x.id) (sym f)))
      ids a b (inr m) (inr n) c = l.one_id a b m n c

      places :
          (a b : Row)
          → In a (r ∷ t)
          → In b (r ∷ t)
          → a.chain_id ≡ b.chain_id
          → a.sequence ≡ b.sequence
          → a ≡ b
      places a b (inl e) (inl f) c s = sym e ∙ f
      places a b (inl e) (inr n) c s = absurd (
          (free b n).1 (sym c ∙ ap (λ x. x.chain_id) (sym e))
            (sym s ∙ ap (λ x. x.sequence) (sym e)))
      places a b (inr m) (inl f) c s =
          absurd
            ((free a m).1 (c ∙ ap (λ x. x.chain_id) (sym f)) (s ∙ ap (λ x. x.sequence) (sym f)))
      places a b (inr m) (inr n) c s = l.one_place a b m n c s

  pub insert_row-IsLinked :
      IsLinked t → insert_row r t ≡ some t' → IsDated r → has_started r ≢ true → IsLinked t'
  insert_row-IsLinked l h dated idle =
      let (e, free) = insert_row-adds h in subst IsLinked (sym e) (cons-IsLinked l free dated idle)

-- What the function of a transaction keeps, the transaction keeps.
pub with_tx-keeps :
    {T A : Type 0}
    → (P : T → Type 0) → (fn : T → T × Result A) → (t : T) → P t
    → P (fn t).0
    → P (with_tx fn t).0
unfolding with_tx
with_tx-keeps {T} {A} P fn t p = on (fn t)
  where
    on : (c : T × Result A) → P c.0 → P (roll_back t c).0
    on (t', ok a) q = q
    on (t', err e) q = p
