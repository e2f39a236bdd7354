-- ===== src/Sql/Sorting.antt =====
-- The rows of ORDER BY and LIMIT, and the first of them.
use orderedjob.Prelude.{
  ◌≡◌, inl, inr, refl, ◌∙◌, subst, ap, Bool, true, false, List, [], ◌∷◌, In, arith, Bool-cases, ℕ,
  zero, suc, ◌≤◌, length,
}
use orderedjob.Sql.{limit, insert_ordered, order_by}

module _ {A : Type 0} where
  pub limit-In : (n : ℕ) (t : List A) (a : A) → In a (limit n t) → In a t
  unfolding limit
  limit-In zero t a m = absurd m
  limit-In (suc n) [] a m = absurd m
  limit-In (suc n) (b ∷ t) a (inl e) = inl e
  limit-In (suc n) (b ∷ t) a (inr m) = inr (limit-In n t a m)

  pub length-limit : (n : ℕ) (t : List A) → length (limit n t) ≤ n
  unfolding limit
  length-limit zero t = omega arith
  length-limit (suc n) [] = omega arith
  length-limit (suc n) (b ∷ t) = ground (arith, length-limit n t)

  -- A limit that is great enough leaves every row.
  pub limit-all : (n : ℕ) (t : List A) → length t ≤ n → limit n t ≡ t
  unfolding limit
  limit-all zero [] h = refl
  limit-all zero (b ∷ t) h = absurd (ground arith)
  limit-all (suc n) [] h = refl
  limit-all (suc n) (b ∷ t) h = ap (λ s. b ∷ s) (limit-all n t (ground arith))

module _ {A : Type 0} (before : A → A → Bool) where
  insert_ordered-In : (b : A) (t : List A) (a : A) → In a (insert_ordered before b t) → In a (b ∷ t)
  unfolding insert_ordered
  insert_ordered-In b [] a = λ m. m
  insert_ordered-In b (c ∷ t) a = elim (Bool-cases (before c b)) [
    | inl e ↦ rw e (behind (insert_ordered-In b t a))
    | inr e ↦ rw e (λ m. m)
  ]
    where
      behind :
          (In a (insert_ordered before b t) → In a (b ∷ t))
          → In a (c ∷ insert_ordered before b t)
          → In a (b ∷ c ∷ t)
      behind rest (inl e) = inr (inl e)
      behind rest (inr m) = elim (rest m) [ inl e ↦ inl e | inr n ↦ inr (inr n) ]

  In-insert_ordered : (b : A) (t : List A) (a : A) → In a (b ∷ t) → In a (insert_ordered before b t)
  unfolding insert_ordered
  In-insert_ordered b [] a = λ m. m
  In-insert_ordered b (c ∷ t) a = elim (Bool-cases (before c b)) [
    | inl e ↦ rw e (behind (In-insert_ordered b t a))
    | inr e ↦ rw e (λ m. m)
  ]
    where
      behind :
          (In a (b ∷ t) → In a (insert_ordered before b t))
          → In a (b ∷ c ∷ t)
          → In a (c ∷ insert_ordered before b t)
      behind rest (inl e) = inr (rest (inl e))
      behind rest (inr (inl e)) = inl e
      behind rest (inr (inr m)) = inr (rest (inr m))

  pub order_by-In : (t : List A) (a : A) → In a (order_by before t) → In a t
  unfolding order_by
  order_by-In [] a m = m
  order_by-In (b ∷ t) a m = elim (insert_ordered-In b (order_by before t) a m) [
    | inl e ↦ inl e
    | inr n ↦ inr (order_by-In t a n)
  ]

  pub In-order_by : (t : List A) (a : A) → In a t → In a (order_by before t)
  unfolding order_by
  In-order_by [] a m = m
  In-order_by (b ∷ t) a (inl e) = In-insert_ordered b (order_by before t) a (inl e)
  In-order_by (b ∷ t) a (inr m) =
      In-insert_ordered b (order_by before t) a (inr (In-order_by t a m))

  length-insert_ordered : (b : A) (t : List A) → length (insert_ordered before b t) ≡ suc (length t)
  unfolding insert_ordered
  length-insert_ordered b [] = refl
  length-insert_ordered b (c ∷ t) = elim (Bool-cases (before c b)) [
    | inl e ↦ rw e (ap suc (length-insert_ordered b t))
    | inr e ↦ rw e refl
  ]

  pub length-order_by : (t : List A) → length (order_by before t) ≡ length t
  unfolding order_by
  length-order_by [] = refl
  length-order_by (b ∷ t) = length-insert_ordered b (order_by before t) ∙ ap suc (length-order_by t)

module _ {A : Type 0} (before : A → A → Bool)
    (asym : (a b : A) → before a b ≡ true → before b a ≡ false)
    (connects : (a b c : A) → before a b ≡ false → before b c ≡ false → before a c ≡ false) where
  irrefl : (a : A) → before a a ≡ false
  irrefl a = elim (Bool-cases (before a a)) [ inl e ↦ asym a a e | inr e ↦ e ]

  -- No row comes before the first one.
  abbrev pub IsLed : List A → Type 0
  IsLed [] = Unit {0}
  IsLed (c ∷ t) = (a : A) → In a (c ∷ t) → before a c ≡ false

  insert_ordered-IsLed : (b : A) (t : List A) → IsLed t → IsLed (insert_ordered before b t)
  unfolding insert_ordered
  insert_ordered-IsLed b [] led = alone
    where
      alone : (a : A) → In a (b ∷ []) → before a b ≡ false
      alone a (inl e) = subst (λ x. before x b ≡ false) e (irrefl b)
      alone a (inr m) = absurd m
  insert_ordered-IsLed b (c ∷ t) led = elim (Bool-cases (before c b)) [
    | inl e ↦ rw e (behind e)
    | inr e ↦ rw e (ahead e)
  ]
    where
      among : before c b ≡ true → (a : A) → In a (b ∷ t) → before a c ≡ false
      among e a (inl f) = subst (λ x. before x c ≡ false) f (asym c b e)
      among e a (inr m) = led a (inr m)

      behind :
          before c b ≡ true → (a : A) → In a (c ∷ insert_ordered before b t) → before a c ≡ false
      behind e a (inl f) = subst (λ x. before x c ≡ false) f (irrefl c)
      behind e a (inr m) = among e a (insert_ordered-In before b t a m)

      ahead : before c b ≡ false → (a : A) → In a (b ∷ c ∷ t) → before a b ≡ false
      ahead e a (inl f) = subst (λ x. before x b ≡ false) f (irrefl b)
      ahead e a (inr m) = connects a c b (led a m) e

  -- Where the order is strict, and its negation transitive, ORDER BY puts a first row first.
  pub order_by-IsLed : (t : List A) → IsLed (order_by before t)
  unfolding order_by
  order_by-IsLed [] = tt
  order_by-IsLed (b ∷ t) = insert_ordered-IsLed b (order_by before t) (order_by-IsLed t)
