-- ===== src/Memory/Listing/Window.antt =====
-- ListJobs of repository/memory/repository.go: what a page of it shows.
use orderedjob.Prelude.{
  ℕ, suc, zero, ◌≡◌, ◌⊎◌, ◌≤◌, ◌<◌, ◌+◌, ◌^◌, inl, inr, refl, sym, ap, subst, Bool, true, Option,
  none, some, List, [], ◌∷◌, ◌++◌, In, length, arith, Bool-cases, leb, String, ℕ_discrete,
}
use orderedjob.Int64.{ℤ, pos, negsuc}
use orderedjob.GoMap.{range, range-get}
use orderedjob.Job.{Job, JobFilter}
use orderedjob.Memory.State.{Repo, find_job}
use orderedjob.Memory.Bulk.{TextOps}
use orderedjob.Memory.Listing.{take, drop, page, select_jobs, matches_filter, list_jobs}

-- `w` stands in `xs` behind `skipped` items, and has `most` of them, or all that are left.
abbrev pub IsWindow : {A : Type 0} → ℕ → ℕ → List A → List A → Type 0
IsWindow {A} skipped most xs w =
    (before : List A) × (after : List A) × (xs ≡ before ++ (w ++ after))
    × (length before ≡ skipped)
    × (length w ≤ most)
    × ((length w ≡ most) ⊎ (after ≡ []))

module _ {A : Type 0} where
  take-left :
      (n : ℕ) (xs : List A)
      → (after : List A) × (xs ≡ take n xs ++ after)
        × (length (take n xs) ≤ n)
        × ((length (take n xs) ≡ n) ⊎ (after ≡ []))
  unfolding take
  take-left zero xs = (xs, refl, omega arith, inl refl)
  take-left (suc n) [] = ([], refl, omega arith, inr refl)
  take-left (suc n) (x ∷ xs) =
      let (a, e, l, m) = take-left n xs in
      (a, ap (λ ys. x ∷ ys) e, omega arith, elim m [ inl p ↦ inl (ap suc p) | inr q ↦ inr q ])

  drop-IsWindow : (o n : ℕ) (xs : List A) → o ≤ length xs → IsWindow o n xs (take n (drop o xs))
  unfolding drop
  drop-IsWindow zero n xs h = let (a, e, l, m) = take-left n xs in ([], a, e, refl, l, m)
  drop-IsWindow (suc o) n [] h = absurd (omega arith)
  drop-IsWindow (suc o) n (x ∷ xs) h =
      let (b, a, e, p, l, m) = drop-IsWindow o n xs (omega arith) in
      (x ∷ b, a, ap (λ ys. x ∷ ys) e, ap suc p, l, m)

  page_window :
      (o l : ℕ) (xs : List A)
      → o < length xs
      → o + suc l < 2 ^ 63
      → page (pos o) (pos (suc l)) xs ≡ some (take (suc l) (drop o xs))
  unfolding page
  page_window o l xs h k = ground arith

select_jobs-passes :
    (test : Job → Bool) (l : List (ℕ × Job)) (j : Job)
    → In j (select_jobs test l)
    → (test j ≡ true) × (id : ℕ) × In (id, j) l
unfolding select_jobs
select_jobs-passes test [] j h = absurd h
select_jobs-passes test ((id, k) ∷ rest) j h = elim (first_or_later h) [
  | inl (e, t) ↦ (t, id, inl (cc))
  | inr m ↦ let (t, i, n) = select_jobs-passes test rest j m in (t, i, inr n)
]
  where
    at_first :
        test k ≡ true
        → In j (k ∷ select_jobs test rest)
        → ((k ≡ j) × (test j ≡ true)) ⊎ In j (select_jobs test rest)
    at_first b (inl e) = inl (e, subst (λ q. test q ≡ true) e b)
    at_first b (inr m) = inr m

    first_or_later :
        In j (select_jobs test ((id, k) ∷ rest))
        → ((k ≡ j) × (test j ≡ true)) ⊎ In j (select_jobs test rest)
    first_or_later = elim (Bool-cases (test k)) [
      | inl b ↦ rw b (at_first b)
      | inr b ↦ rw b (λ h. inr h)
    ]

module _ {A : Type 0} where
  take-In : (n : ℕ) (xs : List A) (x : A) → In x (take n xs) → In x xs
  unfolding take
  take-In zero xs x h = absurd h
  take-In (suc n) [] x h = absurd h
  take-In (suc n) (y ∷ xs) x (inl e) = inl e
  take-In (suc n) (y ∷ xs) x (inr m) = inr (take-In n xs x m)

  drop-In : (n : ℕ) (xs : List A) (x : A) → In x (drop n xs) → In x xs
  unfolding drop
  drop-In zero xs x h = h
  drop-In (suc n) [] x h = absurd h
  drop-In (suc n) (y ∷ xs) x h = inr (drop-In n xs x h)

  abbrev or_nil : Option (List A) → List A
  or_nil none = []
  or_nil (some xs) = xs

  page-In :
      (offset limit : ℤ) (xs : List A) (x : A) → In x (or_nil (page offset limit xs)) → In x xs
  unfolding page
  page-In (negsuc o) limit xs x = λ h. absurd h
  page-In (pos o) (negsuc l) xs x = elim (Bool-cases (leb (length xs) o)) [
    | inl b ↦ rw b (λ h. absurd h)
    | inr b ↦ rw b (λ h. drop-In o xs x h)
  ]
  page-In (pos o) (pos zero) xs x = elim (Bool-cases (leb (length xs) o)) [
    | inl b ↦ rw b (λ h. absurd h)
    | inr b ↦ rw b (λ h. drop-In o xs x h)
  ]
  page-In (pos o) (pos (suc l)) xs x = elim (Bool-cases (leb (length xs) o)) [
    | inl b ↦ rw b (λ h. absurd h)
    | inr b ↦ elim (Bool-cases (leb (2 ^ 63) (o + suc l))) [
      | inl c ↦ rw (b, c) (λ h. absurd h)
      | inr c ↦ rw (b, c) (λ h. drop-In o xs x (take-In (suc l) (drop o xs) x h))
    ]
  ]

-- Where the offset is not negative, the limit is positive and their sum is below 2^63, a page does not
-- panic: it shows nothing if the offset is not below the number of items, and otherwise the items behind the offset,
-- as many as the limit says or all that are left.
pub page_shows :
    {A : Type 0} (o l : ℕ) (xs : List A)
    → o + suc l < 2 ^ 63
    → (w : List A) × (page (pos o) (pos (suc l)) xs ≡ some w)
      × (((length xs ≤ o) × (w ≡ [])) ⊎ ((o < length xs) × IsWindow o (suc l) xs w))
unfolding page
page_shows o l xs k = elim (Bool-cases (leb (length xs) o)) [
  | inl b ↦ ([], rw b refl, inl (ground arith, refl))
  | inr b ↦
      let below : o < length xs = ground arith in
      (
        take (suc l) (drop o xs),
        page_window o l xs below k,
        inr (below, drop-IsWindow o (suc l) xs (omega arith)),
      )
]

-- Where sorting brings in no job, each job on a page of ListJobs is stored and passes the filter.
pub list_jobs-passes :
    (ops : TextOps) (arrange : (Job → Job → Bool) → List Job → List Job)
    (equal_fold : String → String → Bool) (r : Repo) (f : JobFilter) (now : ℕ) (w : List Job)
    (j : Job)
    → ((less : Job → Job → Bool) (js : List Job) (k : Job) → In k (arrange less js) → In k js)
    → (list_jobs ops arrange equal_fold r f now).0 ≡ some w
    → In j w
    → (matches_filter ops f now j ≡ true) × (id : ℕ) × (find_job r id ≡ some j)
unfolding list_jobs find_job
list_jobs-passes ops arrange equal_fold r f now w j sorted h m =
    let shown = page-In f.offset f.limit _ j (subst (λ x. In j (or_nil x)) (sym h) m) in
    let (t, id, n) =
      select_jobs-passes (matches_filter ops f now) (range ℕ_discrete r.jobs) j
        (sorted _ _ j shown) in
    (t, id, range-get ℕ_discrete id j r.jobs n)
