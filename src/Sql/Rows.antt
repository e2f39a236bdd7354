-- ===== src/Sql/Rows.antt =====
-- Rows before and after a statement.
use orderedjob.Prelude.{
  ◌≡◌, ◌≢◌, inl, inr, refl, sym, ◌∙◌, subst, ap, Bool, true, false, none, some, List, [], ◌∷◌, In,
  arith, Bool-cases, if◌then◌else◌, suc, length,
}
use orderedjob.Sql.{select_where, exists_where, row_where, update_where, count_where, delete_where}

module _ {A : Type 0} (test : A → Bool) where
  pub select_where-In : (t : List A) (a : A) → In a (select_where test t) → In a t × (test a ≡ true)
  unfolding select_where
  select_where-In [] a = λ h. absurd h
  select_where-In (b ∷ t) a = elim (Bool-cases (test b)) [
    | inl e ↦ rw e (first e (select_where-In t a))
    | inr e ↦ rw e (λ h. let (m, p) = select_where-In t a h in (inr m, p))
  ]
    where
      first :
          test b ≡ true
          → (In a (select_where test t) → In a t × (test a ≡ true))
          → In a (b ∷ select_where test t)
          → In a (b ∷ t) × (test a ≡ true)
      first e rest (inl same) = (inl same, subst (λ x. test x ≡ true) same e)
      first e rest (inr h) = let (m, p) = rest h in (inr m, p)

  pub In-select_where : (t : List A) (a : A) → In a t → test a ≡ true → In a (select_where test t)
  unfolding select_where
  In-select_where [] a m h = absurd m
  In-select_where (b ∷ t) a (inl e) h = ground arith
  In-select_where (b ∷ t) a (inr m) h = ground (arith, In-select_where t a m h)

  pub exists_where-In :
      (t : List A) → exists_where test t ≡ true → (a : A) × In a t × (test a ≡ true)
  unfolding exists_where
  exists_where-In [] h = cc
  exists_where-In (b ∷ t) h = elim (Bool-cases (test b)) [
    | inl e ↦ (b, inl refl, e)
    | inr e ↦ let (a, m, p) = exists_where-In t (ground arith) in (a, inr m, p)
  ]

  pub In-exists_where : (t : List A) (a : A) → In a t → test a ≡ true → exists_where test t ≡ true
  unfolding exists_where
  In-exists_where [] a m h = absurd m
  In-exists_where (b ∷ t) a (inl e) h = ground arith
  In-exists_where (b ∷ t) a (inr m) h = ground (arith, In-exists_where t a m h)

  pub row_where-In : (t : List A) (a : A) → row_where test t ≡ some a → In a t × (test a ≡ true)
  unfolding row_where
  row_where-In [] a h = cc
  row_where-In (b ∷ t) a h = elim (Bool-cases (test b)) [
    | inl e ↦ (inl (ground arith), ground arith)
    | inr e ↦ let (m, p) = row_where-In t a (ground arith) in (inr m, p)
  ]

  pub row_where-none : (t : List A) (a : A) → row_where test t ≡ none → In a t → test a ≡ false
  unfolding row_where
  row_where-none [] a h m = absurd m
  row_where-none (b ∷ t) a h (inl e) = ground arith
  row_where-none (b ∷ t) a h (inr m) = row_where-none t a (ground arith) m

  pub delete_where-In :
      (t : List A) (a : A) → In a (delete_where test t) → In a t × (test a ≡ false)
  unfolding delete_where
  delete_where-In [] a = λ h. absurd h
  delete_where-In (b ∷ t) a = elim (Bool-cases (test b)) [
    | inl e ↦ rw e (λ h. let (m, p) = delete_where-In t a h in (inr m, p))
    | inr e ↦ rw e (first e (delete_where-In t a))
  ]
    where
      first :
          test b ≡ false
          → (In a (delete_where test t) → In a t × (test a ≡ false))
          → In a (b ∷ delete_where test t)
          → In a (b ∷ t) × (test a ≡ false)
      first e rest (inl same) = (inl same, subst (λ x. test x ≡ false) same e)
      first e rest (inr h) = let (m, p) = rest h in (inr m, p)

  -- No row is reached exactly when none passes the test.
  pub count_where-zero : (t : List A) (a : A) → count_where test t ≡ 0 → In a t → test a ≡ false
  unfolding count_where
  count_where-zero [] a h m = absurd m
  count_where-zero (b ∷ t) a h (inl e) = ground arith
  count_where-zero (b ∷ t) a h (inr m) = count_where-zero t a (ground arith) m

  pub count_where-In : (t : List A) → count_where test t ≢ 0 → (a : A) × In a t × (test a ≡ true)
  unfolding count_where
  count_where-In [] h = absurd (h refl)
  count_where-In (b ∷ t) h = elim (Bool-cases (test b)) [
    | inl e ↦ (b, inl refl, e)
    | inr e ↦ let (a, m, p) = count_where-In t (ground arith) in (a, inr m, p)
  ]

  -- Where no row passes, an update changes nothing.
  pub update_where-none :
      (change : A → A) (t : List A) → count_where test t ≡ 0 → update_where test change t ≡ t
  unfolding count_where update_where
  update_where-none change [] h = refl
  update_where-none change (b ∷ t) h = elim (Bool-cases (test b)) [
    | inl e ↦ ground arith
    | inr e ↦ rw e (ap (λ x. b ∷ x) (update_where-none change t (ground arith)))
  ]

module _ {A : Type 0} where
  pub length-select_where :
      (test : A → Bool) (t : List A) → length (select_where test t) ≡ count_where test t
  unfolding select_where count_where
  length-select_where test [] = refl
  length-select_where test (b ∷ t) = elim (Bool-cases (test b)) [
    | inl e ↦ rw e (ap suc (length-select_where test t))
    | inr e ↦ rw e (length-select_where test t)
  ]

  -- Tests that agree on the rows select the same ones.
  pub select_where-agrees :
      (test test' : A → Bool) (t : List A)
      → ((a : A) → In a t → test a ≡ test' a)
      → select_where test t ≡ select_where test' t
  unfolding select_where
  select_where-agrees test test' [] h = refl
  select_where-agrees test test' (b ∷ t) h =
      let rest = select_where-agrees test test' t (λ a m. h a (inr m)) in
      elim (Bool-cases (test b)) [
        | inl e ↦ rw e (rw (sym (h b (inl refl)) ∙ e) (ap (λ s. b ∷ s) rest))
        | inr e ↦ rw e (rw (sym (h b (inl refl)) ∙ e) rest)
      ]

-- `b` is what an update makes of `a`.
module _ {A : Type 0} (test : A → Bool) (change : A → A) where
  abbrev pub updated : A → A
  updated a = if test a then change a else a

  pub In-update_where : (t : List A) (a : A) → In a t → In (updated a) (update_where test change t)
  unfolding update_where
  In-update_where [] a m = absurd m
  In-update_where (b ∷ t) a (inl e) = inl (ap updated e)
  In-update_where (b ∷ t) a (inr m) = inr (In-update_where t a m)

  pub update_where-In :
      (t : List A) (b : A) → In b (update_where test change t) → (a : A) × In a t × (b ≡ updated a)
  unfolding update_where
  update_where-In [] b h = absurd h
  update_where-In (a ∷ t) b (inl e) = (a, inl refl, sym e)
  update_where-In (a ∷ t) b (inr h) = let (c, m, p) = update_where-In t b h in (c, inr m, p)

  pub updated-yes : (a : A) → test a ≡ true → updated a ≡ change a
  updated-yes a h = rw h refl

  pub updated-no : (a : A) → test a ≡ false → updated a ≡ a
  updated-no a h = rw h refl
