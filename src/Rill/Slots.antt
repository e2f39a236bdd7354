-- ===== src/Rill/Slots.antt =====
-- The slots of BatchEnqueueParallel of rill_helpers.go: what is in them after a write, and the places
-- of the indexed requests.
use orderedjob.Prelude.{
  ℕ, zero, suc, ◌+◌, ◌≡◌, ◌≢◌, refl, sym, ◌∙◌, ap, Option, none, some, List, [], ◌∷◌, inl, inr, map,
  In, arith, ◌⊎◌, ℕ_discrete, Option-cases, subst,
}
use orderedjob.Job.{EnqueueRequest}
use orderedjob.Rill.{IndexedReq, set_at, index_reqs}

abbrev pub get_elem? : List EnqueueRequest → ℕ → Option EnqueueRequest
get_elem? [] i = none
get_elem? (x ∷ xs) zero = some x
get_elem? (x ∷ xs) (suc i) = get_elem? xs i

pub same_slots : (s t : List EnqueueRequest) → ((i : ℕ) → get_elem? s i ≡ get_elem? t i) → s ≡ t
same_slots [] [] h = refl
same_slots [] (y ∷ t) h = cc (h 0)
same_slots (x ∷ s) [] h = cc (h 0)
same_slots (x ∷ s) (y ∷ t) h =
    let e : x ≡ y = cc (h 0) in let f = same_slots s t (λ i. h (suc i)) in cc

pub get-set :
    (i : ℕ) (v w : EnqueueRequest) (s : List EnqueueRequest)
    → get_elem? s i ≡ some w
    → get_elem? (set_at i v s) i ≡ some v
unfolding set_at
get-set i v w [] h = cc
get-set zero v w (x ∷ s) h = refl
get-set (suc i) v w (x ∷ s) h = get-set i v w s h

pub get-set_other :
    (i j : ℕ) (v : EnqueueRequest) (s : List EnqueueRequest)
    → i ≢ j
    → get_elem? (set_at i v s) j ≡ get_elem? s j
unfolding set_at
get-set_other i j v [] n = refl
get-set_other zero zero v (x ∷ s) n = elim (n refl) [ ]
get-set_other zero (suc j) v (x ∷ s) n = refl
get-set_other (suc i) zero v (x ∷ s) n = refl
get-set_other (suc i) (suc j) v (x ∷ s) n = get-set_other i j v s (λ e. n (ap suc e))

pub get-map :
    (f : EnqueueRequest → EnqueueRequest) (s : List EnqueueRequest) (i : ℕ) (x : EnqueueRequest)
    → get_elem? s i ≡ some x
    → get_elem? (map f s) i ≡ some (f x)
get-map f [] i x h = cc
get-map f (y ∷ s) zero x h = let e : y ≡ x = cc in ap (λ z. some (f z)) e
get-map f (y ∷ s) (suc i) x h = get-map f s i x h

pub get-map-none :
    (f : EnqueueRequest → EnqueueRequest) (s : List EnqueueRequest) (i : ℕ)
    → get_elem? s i ≡ none
    → get_elem? (map f s) i ≡ none
get-map-none f [] i h = refl
get-map-none f (y ∷ s) zero h = cc
get-map-none f (y ∷ s) (suc i) h = get-map-none f s i h

-- The request at place `i` has the index `k + i`.
pub index-In :
    (k : ℕ) (s : List EnqueueRequest) (i n : ℕ) (x : EnqueueRequest)
    → get_elem? s i ≡ some x
    → n ≡ k + i
    → In (record { idx = n; req = x }) (index_reqs k s)
unfolding index_reqs
index-In k [] i n x h e = cc
index-In k (y ∷ s) zero n x h e =
    let f : y ≡ x = cc in
    let g : k ≡ n = omega arith in
    inl (ap (λ m. record { idx = m; req = y }) g ∙ ap (λ z. record { idx = n; req = z }) f)
index-In k (y ∷ s) (suc i) n x h e = inr (index-In (suc k) s i n x h (omega arith))

-- An indexed request stands at its place.
pub In-index :
    (k : ℕ) (s : List EnqueueRequest) (a : IndexedReq)
    → In a (index_reqs k s)
    → (i : ℕ) × (a.idx ≡ k + i) × (get_elem? s i ≡ some a.req)
unfolding index_reqs
In-index k [] a m = elim m [ ]
In-index k (y ∷ s) a (inl e) =
    let f : k ≡ a.idx = ap (λ b. b.idx) e in (0, omega arith, ap (λ b. some b.req) e)
In-index k (y ∷ s) a (inr m) = let (i, e, h) = In-index (suc k) s a m in (suc i, omega arith, h)

-- The two lists have slots at the same places.
abbrev pub HasShape : List EnqueueRequest → List EnqueueRequest → Type 0
HasShape w s =
    (i : ℕ)
    → (get_elem? s i ≡ none → get_elem? w i ≡ none) × (get_elem? w i ≡ none → get_elem? s i ≡ none)

set-none :
    (i j : ℕ) (v : EnqueueRequest) (s : List EnqueueRequest)
    → (get_elem? (set_at i v s) j ≡ none → get_elem? s j ≡ none)
      × (get_elem? s j ≡ none → get_elem? (set_at i v s) j ≡ none)
unfolding set_at
set-none i j v [] = (λ h. h, λ h. h)
set-none zero zero v (x ∷ s) = (λ h. cc, λ h. cc)
set-none zero (suc j) v (x ∷ s) = (λ h. h, λ h. h)
set-none (suc i) zero v (x ∷ s) = (λ h. h, λ h. h)
set-none (suc i) (suc j) v (x ∷ s) = set-none i j v s

pub set-HasShape :
    (w : List EnqueueRequest) (i : ℕ) (v : EnqueueRequest) (s : List EnqueueRequest)
    → HasShape w s
    → HasShape w (set_at i v s)
set-HasShape w i v s shape j =
    (λ h. (shape j).0 ((set-none i j v s).0 h), λ h. (set-none i j v s).1 ((shape j).1 h))

-- A write of what `w` has at the place makes that slot right and keeps the others.
pub set-right :
    (w : List EnqueueRequest) (i : ℕ) (v : EnqueueRequest) (s : List EnqueueRequest)
    → HasShape w s
    → get_elem? w i ≡ some v
    → (j : ℕ) → (get_elem? s j ≡ get_elem? w j) ⊎ (i ≡ j)
    → get_elem? (set_at i v s) j ≡ get_elem? w j
set-right w i v s shape h j cases = elim (ℕ_discrete i j) [
  | yes e ↦ elim (Option-cases (get_elem? s i)) [
    | inl n ↦ cc ((shape i).0 n)
    | inr (x, f) ↦
        subst (λ k. get_elem? (set_at i v s) k ≡ get_elem? w k) e (get-set i v x s f ∙ sym h)
  ]
  | no n ↦ elim cases [ inl e ↦ get-set_other i j v s n ∙ e | inr e ↦ elim (n e) [ ] ]
]

pub maps-HasShape :
    (f g : EnqueueRequest → EnqueueRequest) (s : List EnqueueRequest) → HasShape (map f s) (map g s)
maps-HasShape f g [] i = (λ h. h, λ h. h)
maps-HasShape f g (x ∷ s) zero = (λ h. cc, λ h. cc)
maps-HasShape f g (x ∷ s) (suc i) = maps-HasShape f g s i
