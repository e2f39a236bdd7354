-- ===== src/Rill/Validation.antt =====
-- BatchEnqueueParallel of rill_helpers.go does not depend on the order in which its goroutines run.
use orderedjob.Prelude.{
  ℕ, String, ◌≡◌, refl, sym, ◌∙◌, ap, subst, Bool-cases, Option-cases, true, false, Option, none,
  some, List, [], ◌∷◌, ◌⊎◌, inl, inr, In,
}
use orderedjob.Job.{EnqueueRequest, is_empty}
use orderedjob.Rill.{
  IndexedReq, Invalid, no_chain, no_type, bad_payload, Payloads, ForEach, set_at, with_attempts,
  accept, validate_item,
}
use orderedjob.Rill.Slots.{get_elem?, HasShape, set-HasShape, set-right}

-- A request that the validation lets pass.
abbrev pub IsValid : Payloads → EnqueueRequest → Type 0
IsValid p req =
    (is_empty req.chain_id ≡ false)
    × (is_empty req.job_type ≡ false)
    × ((p.is_nil req ≡ true) ⊎ (p.marshal req ≡ none))

-- The error that the validation has for a request.
pub data IsRejected (p : Payloads) (a : IndexedReq) : Invalid → Type 0 where
  lacks_chain : is_empty a.req.chain_id ≡ true → IsRejected p a (no_chain a.idx)
  lacks_type :
      is_empty a.req.chain_id ≡ false
      → is_empty a.req.job_type ≡ true
      → IsRejected p a (no_type a.idx)
  not_marshalled :
      (e : String)
      → is_empty a.req.chain_id ≡ false
      → is_empty a.req.job_type ≡ false
      → p.is_nil a.req ≡ false
      → p.marshal a.req ≡ some e
      → IsRejected p a (bad_payload a.idx e)

-- The function was run on the items, in this order, and returned nil for each.
pub data Ran (f : IndexedReq → List EnqueueRequest → List EnqueueRequest × Option Invalid)
    : List IndexedReq → List EnqueueRequest → List EnqueueRequest → Type 0 where
  ran_all : {s : List EnqueueRequest} → Ran f [] s s
  ran_one :
      {a : IndexedReq} {rest : List IndexedReq} {s t u : List EnqueueRequest}
      → f a s ≡ (t, none)
      → Ran f rest t u
      → Ran f (a ∷ rest) s u

-- How ForEach ends: each item was run, in some order, without an error, and it returns nil; or it
-- returns the error of an item.
pub data Ends (items : List IndexedReq)
    (f : IndexedReq → List EnqueueRequest → List EnqueueRequest × Option Invalid)
    (s : List EnqueueRequest) : List EnqueueRequest × Option Invalid → Type 0 where
  succeeds :
      (order : List IndexedReq) (t : List EnqueueRequest)
      → ((a : IndexedReq) → In a items → In a order)
      → ((a : IndexedReq) → In a order → In a items)
      → Ran f order s t
      → Ends items f s (t, none)
  stops :
      (a : IndexedReq) (t u : List EnqueueRequest) (e : Invalid)
      → In a items
      → (f a t).1 ≡ some e
      → Ends items f s (u, some e)

-- What the documentation of rill.ForEach says.
abbrev pub IsForEach : ForEach → Type 0
IsForEach for_each =
    (n : ℕ) (items : List IndexedReq)
    (f : IndexedReq → List EnqueueRequest → List EnqueueRequest × Option Invalid)
    (s : List EnqueueRequest)
    → Ends items f s (for_each n items f s)

-- One run of the function: it accepts the request and fills its slot, or rejects it.
validate_item-cases :
    (p : Payloads) (a : IndexedReq) (s : List EnqueueRequest)
    → (IsValid p a.req × (validate_item p a s ≡ (set_at a.idx (with_attempts a.req) s, none)))
      ⊎ ((e : Invalid) × IsRejected p a e × (validate_item p a s ≡ (s, some e)))
unfolding validate_item accept
validate_item-cases p a s = elim (Bool-cases (is_empty a.req.chain_id)) [
  | inl c ↦ inr (no_chain a.idx, lacks_chain c, rw c refl)
  | inr c ↦ elim (Bool-cases (is_empty a.req.job_type)) [
    | inl t ↦ inr (no_type a.idx, lacks_type c t, rw (c, t) refl)
    | inr t ↦ elim (Bool-cases (p.is_nil a.req)) [
      | inl n ↦ inl ((c, t, inl n), rw (c, t, n) refl)
      | inr n ↦ elim (Option-cases (p.marshal a.req)) [
        | inl m ↦ inl ((c, t, inr m), rw (c, t, n, m) refl)
        | inr (e, m) ↦ inr (bad_payload a.idx e, not_marshalled e c t n m, rw (c, t, n, m) refl)
      ]
    ]
  ]
]

accepted :
    (p : Payloads) (a : IndexedReq) (s t : List EnqueueRequest)
    → validate_item p a s ≡ (t, none)
    → IsValid p a.req × (t ≡ set_at a.idx (with_attempts a.req) s)
accepted p a s t h = elim (validate_item-cases p a s) [
  | inl (v, e) ↦ (v, ap (λ x. x.0) (sym h ∙ e))
  | inr (x, r, e) ↦ let f : none ≡ some x = ap (λ y. y.1) (sym h ∙ e) in cc
]

pub rejected :
    (p : Payloads) (a : IndexedReq) (s : List EnqueueRequest) (x : Invalid)
    → (validate_item p a s).1 ≡ some x
    → IsRejected p a x
rejected p a s x h = elim (validate_item-cases p a s) [
  | inl (v, e) ↦ cc (ap (λ y. y.1) e)
  | inr (y, r, e) ↦
      let f : some y ≡ some x = sym (ap (λ z. z.1) e) ∙ h in
      let g : y ≡ x = cc in subst (IsRejected p a) g r
]

pub Ran-IsValid :
    (p : Payloads) (order : List IndexedReq) (s t : List EnqueueRequest)
    → Ran (validate_item p) order s t
    → (a : IndexedReq) → In a order
    → IsValid p a.req
Ran-IsValid p [] s t r a m = elim m [ ]
Ran-IsValid p (b ∷ order) s t (ran_one h r) a (inl e) =
    subst (λ c. IsValid p c.req) e (accepted p b s _ h).0
Ran-IsValid p (b ∷ order) s t (ran_one h r) a (inr m) = Ran-IsValid p order _ t r a m

-- After the runs the slots still fit those of `w`, what was right is right, and so is the slot of
-- each item.
pub Ran-fills :
    (p : Payloads) (w : List EnqueueRequest) (order : List IndexedReq) (s t : List EnqueueRequest)
    → Ran (validate_item p) order s t
    → HasShape w s
    → ((a : IndexedReq) → In a order → get_elem? w a.idx ≡ some (with_attempts a.req))
    → HasShape w t
      × ((i : ℕ) → get_elem? s i ≡ get_elem? w i → get_elem? t i ≡ get_elem? w i)
      × ((a : IndexedReq) → In a order → get_elem? t a.idx ≡ get_elem? w a.idx)
Ran-fills p w [] s t ran_all shape fit = (shape, λ i h. h, λ a m. elim m [ ])
Ran-fills p w (b ∷ order) s t (ran_one {t = u} h r) shape fit =
    let step : set_at b.idx (with_attempts b.req) s ≡ u = sym (accepted p b s u h).1 in
    let (shape', keep, each) =
      Ran-fills p w order u t r
        (subst (HasShape w) step (set-HasShape w b.idx (with_attempts b.req) s shape))
        (λ a m. fit a (inr m)) in
    let right =
      subst
        (λ x.
          (i : ℕ) → (get_elem? s i ≡ get_elem? w i) ⊎ (b.idx ≡ i) → get_elem? x i ≡ get_elem? w i)
        step (set-right w b.idx (with_attempts b.req) s shape (fit b (inl refl))) in
    (
      shape',
      λ i e. keep i (right i (inl e)),
      λ a m. elim m [
        | inl e ↦ keep a.idx (right a.idx (inr (ap (λ c. c.idx) e)))
        | inr n ↦ each a n
      ],
    )
