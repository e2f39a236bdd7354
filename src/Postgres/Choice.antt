-- ===== src/Postgres/Choice.antt =====
-- Which row Claim of repository/postgres/repository.go takes.
use orderedjob.Prelude.{
  ℕ_discrete, ◌<◌, ◌≤◌, ◌≡◌, ◌⊎◌, inl, inr, refl, sym, ◌∙◌, subst, ap, ℕ, String, Bool, true, false,
  ◌&&◌, not, Option, none, some, List, [], ◌∷◌, In, arith, Bool-cases,
}
use orderedjob.Int64.{ℤ}
use orderedjob.Job.{ok, err, not_found}
use orderedjob.Sql.{row_where, select_where, update_where, limit, order_by, with_tx, roll_back}
use orderedjob.Sql.Schema.{Row, Table, has_id, scan_job}
use orderedjob.Sql.Rows.{
  row_where-In, select_where-In, In-select_where, updated, update_where-In, updated-yes,
}
use orderedjob.Sql.Sorting.{IsLed, order_by-IsLed, In-order_by, order_by-In}
use orderedjob.Sql.Order.{IsLinked}
use orderedjob.Postgres.Claim.{
  is_claimable, earlier, candidates, claimed_row, claimed_job, claim_first, claim,
}
use orderedjob.Postgres.Fencing.{found_after}
use orderedjob.Postgres.Turns.{has_id-same}

earlier_asym : (a b : Row) → earlier a b ≡ true → earlier b a ≡ false
unfolding earlier
earlier_asym a b h = ground arith

earlier_connects : (a b c : Row) → earlier a b ≡ false → earlier b c ≡ false → earlier a c ≡ false
unfolding earlier
earlier_connects a b c h k = ground arith

pub has_id_refl : (a : Row) → has_id a.id a ≡ true
unfolding has_id
has_id_refl a = ground arith

-- A row that Claim may take: claimable, and not held by another transaction.
unfoldable pub is_free : (Row → Bool) → Table → ℕ → Row → Bool
is_free locked t now r = is_claimable t now r && not (locked r)

-- The candidates are none, and no row is free, or they are one free row that no free row comes
-- before.
candidates-cases :
    (locked : Row → Bool) (t : Table) (now : ℕ)
    → ((candidates locked t now ≡ []) × ((a : Row) → In a t → is_free locked t now a ≡ false))
      ⊎ ((c : Row) × (candidates locked t now ≡ c ∷ [])
          × In c t
          × (is_free locked t now c ≡ true)
          × ((a : Row) → In a t → is_free locked t now a ≡ true → earlier a c ≡ false))
unfolding candidates limit is_free
candidates-cases locked t now =
    on (order_by earlier rows) refl (order_by-IsLed earlier earlier_asym earlier_connects rows)
  where
    rows : List Row
    rows = select_where (is_free locked t now) t

    listed : (a : Row) → In a t → is_free locked t now a ≡ true → In a (order_by earlier rows)
    listed a m h = In-order_by earlier rows a (In-select_where (is_free locked t now) t a m h)

    on :
        (s : List Row)
        → order_by earlier rows ≡ s
        → IsLed earlier earlier_asym earlier_connects s
        → ((candidates locked t now ≡ []) × ((a : Row) → In a t → is_free locked t now a ≡ false))
          ⊎ ((c : Row) × (candidates locked t now ≡ c ∷ [])
              × In c t
              × (is_free locked t now c ≡ true)
              × ((a : Row) → In a t → is_free locked t now a ≡ true → earlier a c ≡ false))
    on [] e led = inl (ap (limit 1) e, none_free)
      where
        none_free : (a : Row) → In a t → is_free locked t now a ≡ false
        none_free a m = elim (Bool-cases (is_free locked t now a)) [
          | inl h ↦ absurd (subst (λ s. In a s) e (listed a m h))
          | inr h ↦ h
        ]
    on (c ∷ rest) e led =
        let (m, h) =
          select_where-In (is_free locked t now) t c
            (order_by-In earlier rows c (subst (λ s. In c s) (sym e) (inl refl))) in
        inr (c, ap (limit 1) e, m, h, λ a n k. led a (subst (λ s. In a s) e (listed a n k)))

claimed_id :
    (worker : String) (lease : ℤ) (now : ℕ) (a : Row)
    → Row.id (claimed_row worker lease now a) ≡ a.id
unfolding claimed_row
claimed_id worker lease now a = refl

updated_id :
    (worker : String) (lease : ℤ) (now id : ℕ) (a : Row)
    → Row.id (updated (has_id id) (claimed_row worker lease now) a) ≡ a.id
updated_id worker lease now id a = elim (Bool-cases (has_id id a)) [
  | inl e ↦ rw e (claimed_id worker lease now a)
  | inr e ↦ rw e refl
]

-- The row that the UPDATE returns is the candidate's, claimed.
returned_row :
    (t : Table) (worker : String) (lease : ℤ) (now : ℕ) (c : Row)
    → IsLinked t
    → In c t
    → row_where (has_id c.id) (update_where (has_id c.id) (claimed_row worker lease now) t)
      ≡ some (claimed_row worker lease now c)
returned_row t worker lease now c l m =
    on (row_where (has_id c.id) (update_where (has_id c.id) (claimed_row worker lease now) t)) refl
  where
    own_id : has_id c.id c ≡ true
    own_id = has_id_refl c

    on :
        (o : Option Row)
        → row_where (has_id c.id) (update_where (has_id c.id) (claimed_row worker lease now) t) ≡ o
        → o ≡ some (claimed_row worker lease now c)
    on none e = absurd (
        found_after (has_id c.id) (claimed_row worker lease now) c.id t c
          (claimed_id worker lease now) m own_id e)
    on (some r) e =
        let (n, h) = row_where-In (has_id c.id) _ r e in
        let (a, k, f) = update_where-In (has_id c.id) (claimed_row worker lease now) t r n in
        let same_id = updated_id worker lease now c.id a in
        let a_is_c =
          l.one_id a c k m (sym same_id ∙ ap (λ x. x.id) (sym f) ∙ has_id-same r c.id h) in
        ap some (
          f
          ∙ ap (updated (has_id c.id) (claimed_row worker lease now)) a_is_c
          ∙ updated-yes (has_id c.id) (claimed_row worker lease now) c own_id)

-- `c` is due before `a`, or at the same time and is not younger.
abbrev pub IsDueFirst : Row → Row → Type 0
IsDueFirst c a =
    (c.available_at < a.available_at)
    ⊎ ((c.available_at ≡ a.available_at) × (c.created_at ≤ a.created_at))

due_first : (a c : Row) → earlier a c ≡ false → IsDueFirst c a
unfolding earlier
due_first a c h = elim (ℕ_discrete a.available_at c.available_at) [
  | yes e ↦ inr (sym e, ground arith)
  | no n ↦ inl (ground arith)
]

-- What Claim answers, by the tests of the statement: no row, and ErrNotFound, or the first free row,
-- claimed.
abbrev pub TakesFirst : (Row → Bool) → Table → String → ℤ → ℕ → Type 0
TakesFirst locked t worker lease now =
    ((claim locked t worker lease now ≡ (t, err not_found))
      × ((a : Row) → In a t → is_free locked t now a ≡ false))
    ⊎ ((c : Row) × In c t
        × (is_free locked t now c ≡ true)
        × ((a : Row) → In a t → is_free locked t now a ≡ true → IsDueFirst c a)
        × (claim locked t worker lease now ≡ (
          update_where (has_id c.id) (claimed_row worker lease now) t,
          ok (scan_job (claimed_row worker lease now c)),
        )))

pub claim_cases :
    (locked : Row → Bool) (t : Table) (worker : String) (lease : ℤ) (now : ℕ)
    → IsLinked t
    → TakesFirst locked t worker lease now
unfolding claim with_tx
claim_cases locked t worker lease now l = elim (candidates-cases locked t now) [
  | inl (e, f) ↦ inl (ap (λ cs. roll_back t (claim_first worker lease now t cs)) e, f)
  | inr (c, e, m, h, first) ↦ inr (
    c,
    m,
    h,
    (λ a n k. due_first a c (first a n k)),
    ap (λ cs. roll_back t (claim_first worker lease now t cs)) e
        ∙ ap
            (λ o.
              roll_back t
                (update_where (has_id c.id) (claimed_row worker lease now) t, claimed_job o))
            (returned_row t worker lease now c l m),
  )
]
