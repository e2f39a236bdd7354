-- ===== src/Sql/Counting.antt =====
-- How an UPDATE changes the number of rows that pass a test.
use orderedjob.Prelude.{◌≡◌, refl, Bool, true, false, List, [], ◌∷◌, In, inl, inr, arith, ◌≤◌, ◌<◌}
use orderedjob.Sql.{update_where, count_where}

module _ {A : Type 0} (p test : A → Bool) (change : A → A) where
  -- A change that keeps the rows out keeps them from the number.
  pub count_where-update :
      (t : List A)
      → ((a : A) → In a t → test a ≡ true → p (change a) ≡ true → p a ≡ true)
      → count_where p (update_where test change t) ≤ count_where p t
  unfolding count_where update_where
  count_where-update [] h = omega arith
  count_where-update (a ∷ t) h =
      ground (arith, h a (inl refl), count_where-update t (λ b m. h b (inr m)))

  -- A change that takes a counted row out makes the number less.
  pub count_where-less :
      ((a : A) → test a ≡ true → p (change a) ≡ false)
      → (t : List A) (a : A) → In a t
      → test a ≡ true
      → p a ≡ true
      → count_where p (update_where test change t) < count_where p t
  unfolding count_where update_where
  count_where-less h [] a m e f = absurd m
  count_where-less h (b ∷ t) a (inl same) e f =
      ground (arith, h b, count_where-update t (λ c _ i j. absurd (ground (arith, h c i))))
  count_where-less h (b ∷ t) a (inr m) e f = ground (arith, h b, count_where-less h t a m e f)
