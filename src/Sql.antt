-- ===== src/Sql.antt =====
-- The statements that repository/postgres/repository.go and repository/sqlserver/repository.go send,
-- read as functions on a table: a list of rows, in any order.
pub mod Counting
pub mod Exclusive
pub mod Keeps
pub mod Moving
pub mod Order
pub mod Sorting
pub mod Rows
pub mod Schema
use orderedjob.Prelude.{
  ℕ, zero, suc, String, Bool, true, false, Option, none, some, List, [], ◌∷◌, ◌++◌, ite,
  text_discrete, if◌then◌else◌,
}
use orderedjob.Int64.{ℤ, lt64, ℤ_discrete}
use orderedjob.Job.{Result, ok, err}

-- `a = b` on texts and integers; a NULL is not equal to anything.
abbrev pub is_text : String → String → Bool
is_text a b = ite (text_discrete a b) true false

abbrev pub is_int : ℤ → ℤ → Bool
is_int a b = ite (ℤ_discrete a b) true false

abbrev pub null_or_text : Option String → String → Bool
null_or_text none b = false
null_or_text (some a) b = is_text a b

-- COALESCE(x, d)
abbrev pub coalesce : {A : Type 0} → Option A → A → A
coalesce none d = d
coalesce (some a) d = a

module _ {A : Type 0} where
  -- SELECT … WHERE test
  unfoldable pub select_where : (A → Bool) → List A → List A
  select_where test [] = []
  select_where test (a ∷ t) = let rest = select_where test t in if test a then a ∷ rest else rest

  -- EXISTS (SELECT 1 … WHERE test)
  unfoldable pub exists_where : (A → Bool) → List A → Bool
  exists_where test [] = false
  exists_where test (a ∷ t) = let rest = exists_where test t in if test a then true else rest

  -- the first row of SELECT … WHERE test
  unfoldable pub row_where : (A → Bool) → List A → Option A
  row_where test [] = none
  row_where test (a ∷ t) = let rest = row_where test t in if test a then some a else rest

  -- UPDATE … SET change WHERE test
  unfoldable pub update_where : (A → Bool) → (A → A) → List A → List A
  update_where test change [] = []
  update_where test change (a ∷ t) = (if test a then change a else a) ∷ update_where test change t

  -- the number of rows that a statement reaches
  unfoldable pub count_where : (A → Bool) → List A → ℕ
  count_where test [] = 0
  count_where test (a ∷ t) = let rest = count_where test t in if test a then suc rest else rest

  -- DELETE … WHERE test
  unfoldable pub delete_where : (A → Bool) → List A → List A
  delete_where test [] = []
  delete_where test (a ∷ t) = let rest = delete_where test t in if test a then rest else a ∷ rest

  -- LIMIT n, or TOP (n)
  unfoldable pub limit : ℕ → List A → List A
  limit zero t = []
  limit (suc n) [] = []
  limit (suc n) (a ∷ t) = a ∷ limit n t

  -- one row more in an ordered list; `before a b` says that `a` has to come first
  unfoldable pub insert_ordered : (A → A → Bool) → A → List A → List A
  insert_ordered before a [] = a ∷ []
  insert_ordered before a (b ∷ t) =
      let rest = insert_ordered before a t in if before b a then b ∷ rest else a ∷ b ∷ t

  -- ORDER BY; the order of equal rows is open, as is that of the table
  unfoldable pub order_by : (A → A → Bool) → List A → List A
  order_by before [] = []
  order_by before (a ∷ t) = insert_ordered before a (order_by before t)

  -- MAX(column), NULL for no row
  unfoldable pub max_of : (A → ℤ) → List A → Option ℤ
  max_of column [] = none
  max_of column (a ∷ t) = max_with (column a) (max_of column t)
    where
      max_with : ℤ → Option ℤ → Option ℤ
      max_with s none = some s
      max_with s (some m) = some (if lt64 m s then s else m)

-- withTx: a function that fails is rolled back.
abbrev pub roll_back : {T A : Type 0} → T → T × Result A → T × Result A
roll_back t (t', ok a) = (t', ok a)
roll_back t (t', err e) = (t, err e)

unfoldable pub with_tx : {T A : Type 0} → (T → T × Result A) → T → T × Result A
with_tx fn t = roll_back t (fn t)
