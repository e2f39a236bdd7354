-- ===== src/GoMap.antt =====
-- Go's `map[K]V`, as an association list. Go leaves the order of `range` open; here it is the order
-- of the list, and the theorems hold of every list.
use mathlib.Core.List.{lookup}
use orderedjob.Prelude.{
  ◌≡◌, refl, ◌∙◌, if_pos, if_neg, length, inl, inr, ite, Option, none, some, List, [], ◌∷◌, map,
  arith, In,
}

abbrev pub GoMap : Type 0 → Type 0 → Type 0
GoMap K V = List (K × V)

module _ {K V : Type 0} (dec : Discrete K) where
  -- v, ok := m[k]
  abbrev pub get : K → GoMap K V → Option V
  get = lookup dec

  -- m[k] = v
  unfoldable pub insert : K → V → GoMap K V → GoMap K V
  insert k v [] = (k, v) ∷ []
  insert k v ((j, w) ∷ m) = ite (dec k j) ((k, v) ∷ m) ((j, w) ∷ insert k v m)

  -- delete(m, k)
  unfoldable pub delete : K → GoMap K V → GoMap K V
  delete k [] = []
  delete k ((j, w) ∷ m) = let rest = delete k m in ite (dec k j) rest ((j, w) ∷ rest)

  pub get-insert :
      (k j : K) (v : V) (m : GoMap K V)
      → lookup dec j (insert k v m) ≡ ite (dec k j) (some v) (lookup dec j m)
  unfolding lookup insert
  get-insert k j v [] = ground arith
  get-insert k j v ((i, w) ∷ m) = ground (arith, get-insert k j v m)

  pub get-delete :
      (k j : K) (m : GoMap K V) → lookup dec j (delete k m) ≡ ite (dec k j) none (lookup dec j m)
  unfolding lookup delete
  get-delete k j [] = ground arith
  get-delete k j ((i, w) ∷ m) = ground (arith, get-delete k j m)

module _ {K V : Type 0} where
  abbrev pub keys : GoMap K V → List K
  keys = map (λ e. e.0)

module _ {K V : Type 0} (dec : Discrete K) where
  pub In-keys : (k : K) (v : V) (m : GoMap K V) → lookup dec k m ≡ some v → In k (keys m)
  unfolding lookup
  In-keys k v [] h = cc
  In-keys k v ((j, w) ∷ m) h = elim (dec k j) [
    | yes p ↦ inl (cc)
    | no p ↦ inr (In-keys k v m (ground arith))
  ]

  -- The entries that `range m` visits.
  range_over : GoMap K V → List K → List (K × V)
  range_over m [] = []
  range_over m (k ∷ ks) = elim (lookup dec k m) [
    | none ↦ range_over m ks
    | some v ↦ (k, v) ∷ range_over m ks
  ]

  unfoldable pub range : GoMap K V → List (K × V)
  unfolding range_over
  range m = range_over m (keys m)

  range_over-get :
      (k : K) (v : V) (m : GoMap K V) (ks : List K)
      → In (k, v) (range_over m ks)
      → lookup dec k m ≡ some v
  unfolding range_over
  range_over-get k v m [] h = absurd h
  range_over-get k v m (j ∷ ks) h = ground (arith, range_over-get k v m ks)

  pub range-get : (k : K) (v : V) (m : GoMap K V) → In (k, v) (range m) → lookup dec k m ≡ some v
  unfolding range
  range-get k v m h = range_over-get k v m (keys m) h

  get-range_over :
      (k : K) (v : V) (m : GoMap K V) (ks : List K)
      → lookup dec k m ≡ some v
      → In k ks
      → In (k, v) (range_over m ks)
  unfolding range_over
  get-range_over k v m [] e h = h
  get-range_over k v m (j ∷ ks) e h = ground (arith, get-range_over k v m ks e)

  pub get-range : (k : K) (v : V) (m : GoMap K V) → lookup dec k m ≡ some v → In (k, v) (range m)
  unfolding range
  get-range k v m e = get-range_over k v m (keys m) e (In-keys k v m e)

  pub keys-get : (k : K) (m : GoMap K V) → In k (keys m) → (v : V) × (lookup dec k m ≡ some v)
  unfolding lookup
  keys-get k [] h = absurd h
  keys-get k ((j, w) ∷ m) h = elim (dec k j) [
    | yes p ↦ (w, rw (if_pos _ p))
    | no p ↦ let (v, e) = keys-get k m (ground arith) in (v, rw (if_neg _ p) e)
  ]

  length-range_over :
      (m : GoMap K V) (ks : List K)
      → ((k : K) → In k ks → (v : V) × (lookup dec k m ≡ some v))
      → length (range_over m ks) ≡ length ks
  unfolding range_over
  length-range_over m [] h = refl
  length-range_over m (k ∷ ks) h =
      let (v, e) = h k (inl refl) in
      ground (arith, e, length-range_over m ks (λ i found. h i (inr found)))

  length-keys : (m : GoMap K V) → length (keys m) ≡ length m
  length-keys [] = refl
  length-keys (e ∷ m) = omega (arith, length-keys m)

  pub length-range : (m : GoMap K V) → length (range m) ≡ length m
  unfolding range
  length-range m = length-range_over m (keys m) (λ k h. keys-get k m h) ∙ length-keys m
