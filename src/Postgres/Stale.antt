-- ===== src/Postgres/Stale.antt =====
-- What RecoverStale of repository/postgres/repository.go does with the rows.
use orderedjob.Prelude.{
  ◌⊎◌, ◌≡◌, inl, inr, refl, sym, ◌∙◌, subst, ap, ℕ, suc, ◌+◌, ◌≤◌, Bool, true, false, ◌&&◌, not,
  Option, List, [], ◌∷◌, In, arith, Bool-cases, length, none, some, ◌<◌,
}
use orderedjob.Int64.{ℤ, pos}
use orderedjob.Lifecycle.{Status-discrete, processing, retrying}
use orderedjob.Job.{Result, ok}
use orderedjob.Sql.{select_where, update_where, count_where, limit, order_by, with_tx}
use orderedjob.Sql.Schema.{Row, Table, has_id}
use orderedjob.Sql.Rows.{
  update_where-In, In-update_where, updated-yes, updated-no, In-select_where, length-select_where,
  select_where-agrees,
}
use orderedjob.Sql.Sorting.{In-order_by, length-order_by, limit-all}
use orderedjob.Postgres.Admin.{
  is_stale, is_same_stale, stale_rows, recovered_row, delay_of, recover_over, recover_stale,
  ends_earlier, is_over,
}

recovered_not_stale : (next now : ℕ) (a : Row) → is_stale now (recovered_row next now a) ≡ false
unfolding is_stale recovered_row Status-discrete
recovered_not_stale next now a = refl

not_same :
    (id now : ℕ) (b : Row)
    → is_same_stale id now b ≡ false
    → is_stale now b ≡ true
    → has_id id b ≡ false
unfolding is_same_stale
not_same id now b h k = ground arith

module _ (policy : Option (ℤ → ℕ)) (now : ℕ) where
  -- A row that is stale after the loop was so before, and is not in the list.
  left_stale :
      (ss : List Row) (n : ℕ) (t : Table) (b : Row)
      → In b (recover_over policy now ss n t).0
      → is_stale now b ≡ true
      → In b t × ((s : Row) → In s ss → has_id s.id b ≡ false)
  unfolding recover_over is_same_stale
  left_stale [] n t b m h = (m, λ s k. absurd k)
  left_stale (s ∷ ss) n t b m h =
      let (k, f) = left_stale ss (suc n) _ b m h in
      let (a, i, e) =
        update_where-In (is_same_stale s.id now)
          (recovered_row (now + delay_of policy s.attempt) now) t b k in
      elim (Bool-cases (is_same_stale s.id now a)) [
        | inl y ↦ absurd (
            ground (
              arith,
              recovered_not_stale (now + delay_of policy s.attempt) now a,
              ap (is_stale now) (
                  e
                  ∙ updated-yes (is_same_stale s.id now)
                      (recovered_row (now + delay_of policy s.attempt) now) a y),
            ))
        | inr y ↦
            let same_row =
              e
              ∙ updated-no (is_same_stale s.id now)
                  (recovered_row (now + delay_of policy s.attempt) now) a y in
            let not_s =
              not_same s.id now b (subst (λ x. is_same_stale s.id now x ≡ false) (sym same_row) y)
                h in
            (
              subst (λ x. In x t) (sym same_row) i,
              λ r j. elim j [
                | inl q ↦ subst (λ x. has_id (Row.id x) b ≡ false) q not_s
                | inr q ↦ f r q
              ],
            )
      ]

  -- A row that is not stale stays as it is.
  stays :
      (ss : List Row) (n : ℕ) (t : Table) (a : Row)
      → In a t
      → is_stale now a ≡ false
      → In a (recover_over policy now ss n t).0
  unfolding recover_over is_same_stale
  stays [] n t a m h = m
  stays (s ∷ ss) n t a m h =
      stays ss (suc n) _ a
        (subst
          (λ x. In x (
            update_where (is_same_stale s.id now)
              (recovered_row (now + delay_of policy s.attempt) now) t))
          (updated-no (is_same_stale s.id now) (recovered_row (now + delay_of policy s.attempt) now)
            a (ground arith))
          (In-update_where (is_same_stale s.id now)
            (recovered_row (now + delay_of policy s.attempt) now) t a m))
        h

  -- A row is still there, as it was or RETRYING.
  recovers :
      (ss : List Row) (n : ℕ) (t : Table) (a : Row)
      → In a t
      → (b : Row) × In b (recover_over policy now ss n t).0
        × (b.id ≡ a.id)
        × ((b ≡ a) ⊎ (b.status ≡ retrying))
  unfolding recover_over recovered_row
  recovers [] n t a m = (a, m, refl, inl refl)
  recovers (s ∷ ss) n t a m = elim (Bool-cases (is_same_stale s.id now a)) [
    | inl y ↦ (
      change s a,
      stays ss (suc n) _ (change s a)
          (subst (λ x. In x (update_where (is_same_stale s.id now) (change s) t))
            (updated-yes (is_same_stale s.id now) (change s) a y)
            (In-update_where (is_same_stale s.id now) (change s) t a m))
          (recovered_not_stale (now + delay_of policy s.attempt) now a),
      refl,
      inr refl,
    )
    | inr y ↦ recovers ss (suc n) _ a (
        subst (λ x. In x (update_where (is_same_stale s.id now) (change s) t))
          (updated-no (is_same_stale s.id now) (change s) a y)
          (In-update_where (is_same_stale s.id now) (change s) t a m))
  ]
    where
      change : Row → Row → Row
      change r = recovered_row (now + delay_of policy r.attempt) now

  counts_list :
      (ss : List Row) (n : ℕ) (t : Table) → (recover_over policy now ss n t).1 ≡ n + length ss
  unfolding recover_over
  counts_list [] n t = omega arith
  counts_list (s ∷ ss) n t = counts_list ss (suc n) _ ∙ omega arith

own_id : (a : Row) → has_id a.id a ≡ true
unfolding has_id
own_id a = ground arith

stale_rows-all :
    (locked : Row → Bool) (max now : ℕ) (t : Table)
    → ((a : Row) → In a t → is_stale now a ≡ true → locked a ≡ false)
    → count_where (is_stale now) t ≤ max
    → stale_rows locked max now t ≡ order_by ends_earlier (select_where (is_stale now) t)
unfolding stale_rows
stale_rows-all locked max now t free enough =
    ap (λ s. limit max (order_by ends_earlier s)) agree
    ∙ limit-all max (order_by ends_earlier (select_where (is_stale now) t)) (
        ground (
          arith,
          length-order_by ends_earlier (select_where (is_stale now) t),
          length-select_where (is_stale now) t,
        ))
  where
    agree : select_where (λ r. is_stale now r && not (locked r)) t ≡ select_where (is_stale now) t
    agree = select_where-agrees _ (is_stale now) t λ a m. ground (arith, free a m)

-- The same, by the test of the statement.
abbrev ClearsTested : Table → ℕ → Table × Result ℕ → Type 0
ClearsTested t now result =
    (result.1 ≡ ok (count_where (is_stale now) t))
    × ((b : Row) → In b result.0 → is_stale now b ≡ false)
    × ((a : Row) → In a t → is_stale now a ≡ false → In a result.0)
    × ((a : Row)
        → In a t
        → (b : Row) × In b result.0 × (b.id ≡ a.id) × ((b ≡ a) ⊎ (b.status ≡ retrying)))

tested_clears :
    (locked : Row → Bool) (t : Table) (max : ℕ) (policy : Option (ℤ → ℕ)) (now : ℕ)
    → ((a : Row) → In a t → is_stale now a ≡ true → locked a ≡ false)
    → count_where (is_stale now) t ≤ max
    → ClearsTested t now (recover_stale locked t (pos max) policy now)
unfolding recover_stale with_tx
tested_clears locked t max policy now free enough = (
  ap ok (
      counts_list policy now (stale_rows locked max now t) 0 t
      ∙ no_more (length (stale_rows locked max now t))
      ∙ ap length listed
      ∙ length-order_by ends_earlier (select_where (is_stale now) t)
      ∙ length-select_where (is_stale now) t),
  λ b m. elim (Bool-cases (is_stale now b)) [
    | inl h ↦
        let (k, f) = left_stale policy now (stale_rows locked max now t) 0 t b m h in
        absurd (ground (arith, own_id b, f b (in_list b k h)))
    | inr h ↦ h
  ],
  λ a m h. stays policy now (stale_rows locked max now t) 0 t a m h,
  λ a m. recovers policy now (stale_rows locked max now t) 0 t a m,
)
  where
    listed : stale_rows locked max now t ≡ order_by ends_earlier (select_where (is_stale now) t)
    listed = stale_rows-all locked max now t free enough

    no_more : (n : ℕ) → 0 + n ≡ n
    no_more n = omega arith

    in_list : (b : Row) → In b t → is_stale now b ≡ true → In b (stale_rows locked max now t)
    in_list b m h =
        subst (λ s. In b s) (sym listed)
          (In-order_by ends_earlier _ b (In-select_where (is_stale now) t b m h))

-- A running row whose lease is over.
abbrev pub IsStale : ℕ → Row → Type 0
IsStale now a = (a.status ≡ processing) × (u : ℕ) × (a.lease_until ≡ some u) × (u < now)

-- How many rows of the table are as `P` says.
pub data Counts (P : Row → Type 0) : Table → ℕ → Type 0 where
  no_rows : Counts P [] 0
  counted : {a : Row} {t : Table} {n : ℕ} → P a → Counts P t n → Counts P (a ∷ t) (suc n)
  passed : {a : Row} {t : Table} {n : ℕ} → ¬ P a → Counts P t n → Counts P (a ∷ t) n

is_stale-IsStale : (now : ℕ) (a : Row) → is_stale now a ≡ true → IsStale now a
unfolding is_stale
is_stale-IsStale now a h =
    let (u, e, l) = on a.lease_until (ground arith) in (ground arith, u, e, l)
  where
    on : (o : Option ℕ) → is_over o now ≡ true → (u : ℕ) × (o ≡ some u) × (u < now)
    on none k = absurd (ground arith)
    on (some u) k = (u, refl, ground arith)

IsStale-is_stale : (now : ℕ) (a : Row) → IsStale now a → is_stale now a ≡ true
unfolding is_stale
IsStale-is_stale now a (e, u, f, h) = rw (e, f) (ground arith)

not_stale : (now : ℕ) (a : Row) → ¬ IsStale now a → is_stale now a ≡ false
not_stale now a n = elim (Bool-cases (is_stale now a)) [
  | inl h ↦ absurd (n (is_stale-IsStale now a h))
  | inr h ↦ h
]

Counts-count_where :
    (now : ℕ) (t : Table) (n : ℕ) → Counts (IsStale now) t n → count_where (is_stale now) t ≡ n
unfolding count_where
Counts-count_where now [] n no_rows = refl
Counts-count_where now (a ∷ t) n (counted h c) =
    let e = Counts-count_where now t _ c in let f = IsStale-is_stale now a h in ground arith
Counts-count_where now (a ∷ t) n (passed h c) =
    let e = Counts-count_where now t _ c in let f = not_stale now a h in ground arith

-- The number of the stale rows is answered, none of them is left, each is RETRYING, and the others
-- stay.
abbrev pub ClearsStale : Table → ℕ → ℕ → Table × Result ℕ → Type 0
ClearsStale t now n result =
    (result.1 ≡ ok n)
    × ((b : Row) → In b result.0 → ¬ IsStale now b)
    × ((a : Row) → In a t → ¬ IsStale now a → In a result.0)
    × ((a : Row)
        → In a t
        → IsStale now a
        → (b : Row) × In b result.0 × (b.id ≡ a.id) × (b.status ≡ retrying))

-- Where no other transaction holds a stale row, a running one whose lease is over, and the limit is
-- not less than their number, RecoverStale answers this number, leaves no row stale but each of them
-- RETRYING, and keeps every other row as it is.
pub recover_stale_clears :
    (locked : Row → Bool) (t : Table) (n max : ℕ) (policy : Option (ℤ → ℕ)) (now : ℕ)
    → ((a : Row) → In a t → IsStale now a → locked a ≡ false)
    → Counts (IsStale now) t n
    → n ≤ max
    → ClearsStale t now n (recover_stale locked t (pos max) policy now)
recover_stale_clears locked t n max policy now free c enough =
    let number = Counts-count_where now t n c in
    let (answer, none_left, others, found) =
      tested_clears locked t max policy now (λ a m h. free a m (is_stale-IsStale now a h))
        (subst (λ k. k ≤ max) (sym number) enough) in
    (
      answer ∙ ap ok number,
      λ b m h. absurd (ground (arith, none_left b m, IsStale-is_stale now b h)),
      λ a m h. others a m (not_stale now a h),
      λ a m h.
          let (b, k, e, c) = found a m in
          (
            b,
            k,
            e,
            elim c [
              | inl q ↦ absurd (
                  ground
                    (arith, none_left b k, IsStale-is_stale now b (subst (IsStale now) (sym q) h)))
              | inr r ↦ r
            ],
          ),
    )
