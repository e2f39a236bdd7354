-- ===== src/Memory/Choice.antt =====
-- Which job Claim of repository/memory/repository.go takes.
use orderedjob.Prelude.{
  ℕ, ◌≡◌, ◌⊎◌, refl, ap, true, false, Option, none, some, arith, ℕ_discrete, Bool-cases, inl, inr,
  List, [], ◌∷◌, In,
}
use orderedjob.GoMap.{get-range, range-get}
use orderedjob.Job.{Job}
use orderedjob.Memory.State.{Repo, find_job}
use orderedjob.Memory.Claim.{
  is_candidate, candidates_in, candidates, before, insert_sorted, sort_jobs, is_busy, next_free,
  choose,
}

-- `k` does not come before `j` in the order of the sort, for each `k` of the list.
abbrev pub NoneBefore : Job → List Job → Type 0
NoneBefore j [] = Unit {0}
NoneBefore j (k ∷ ks) = (before k j ≡ false) × NoneBefore j ks

abbrev pub IsSorted : List Job → Type 0
IsSorted [] = Unit {0}
IsSorted (j ∷ js) = NoneBefore j js × IsSorted js

before_trans : (a b c : Job) → before b a ≡ false → before c b ≡ false → before c a ≡ false
unfolding before
before_trans a b c h k = ground arith

before-asym : (a b : Job) → before a b ≡ true → before b a ≡ false
unfolding before
before-asym a b h = ground arith

NoneBefore-trans :
    (a b : Job) (js : List Job) → before b a ≡ false → NoneBefore b js → NoneBefore a js
NoneBefore-trans a b [] h n = tt
NoneBefore-trans a b (j ∷ js) h n = (before_trans a b j h n.0, NoneBefore-trans a b js h n.1)

insert-NoneBefore :
    (a j : Job) (js : List Job)
    → before j a ≡ false
    → NoneBefore a js
    → NoneBefore a (insert_sorted j js)
unfolding insert_sorted
insert-NoneBefore a j [] h n = (h, tt)
insert-NoneBefore a j (k ∷ ks) h n = ground (arith, insert-NoneBefore a j ks h n.1)

insert-IsSorted : (j : Job) (js : List Job) → IsSorted js → IsSorted (insert_sorted j js)
unfolding insert_sorted
insert-IsSorted j [] s = (tt, tt)
insert-IsSorted j (k ∷ ks) s = elim (Bool-cases (before k j)) [
  | inl b ↦ rw b (insert-NoneBefore k j ks (before-asym k j b) s.0, insert-IsSorted j ks s.1)
  | inr b ↦ rw b ((b, NoneBefore-trans j k ks b s.0), s)
]

pub sort_jobs-IsSorted : (js : List Job) → IsSorted (sort_jobs js)
unfolding sort_jobs
sort_jobs-IsSorted [] = tt
sort_jobs-IsSorted (j ∷ js) = insert-IsSorted j (sort_jobs js) (sort_jobs-IsSorted js)

In-insert : (a j : Job) (js : List Job) → In a (insert_sorted j js) → (j ≡ a) ⊎ In a js
unfolding insert_sorted
In-insert a j [] h = h
In-insert a j (k ∷ ks) h = ground (arith, In-insert a j ks)

insert-In : (a j : Job) (js : List Job) → (j ≡ a) ⊎ In a js → In a (insert_sorted j js)
unfolding insert_sorted
insert-In a j [] h = h
insert-In a j (k ∷ ks) h = ground (arith, insert-In a j ks)

In-sort : (a : Job) (js : List Job) → In a (sort_jobs js) → In a js
unfolding sort_jobs
In-sort a [] h = h
In-sort a (j ∷ js) h = ground (arith, In-insert a j (sort_jobs js) h, In-sort a js)

sort-In : (a : Job) (js : List Job) → In a js → In a (sort_jobs js)
unfolding sort_jobs
sort-In a [] h = h
sort-In a (j ∷ js) h = insert-In a j (sort_jobs js) (ground (arith, sort-In a js))

candidates_in-In :
    (r : Repo) (now : ℕ) (j : Job) (l : List (ℕ × Job))
    → In j (candidates_in r now l)
    → (id : ℕ) × In (id, j) l × (is_candidate r now j ≡ true)
unfolding candidates_in
candidates_in-In r now j [] h = absurd h
candidates_in-In r now j ((i, k) ∷ l) h = elim (head_or_tail h) [
  | inl (e, b) ↦ (i, inl (cc), rw e at b)
  | inr h' ↦ let (id, m, b) = candidates_in-In r now j l h' in (id, inr m, b)
]
  where
    head_or_tail :
        In j (candidates_in r now ((i, k) ∷ l))
        → ((k ≡ j) × (is_candidate r now k ≡ true)) ⊎ In j (candidates_in r now l)
    head_or_tail h = ground arith

In-candidates_in :
    (r : Repo) (now id : ℕ) (j : Job) (l : List (ℕ × Job))
    → In (id, j) l
    → is_candidate r now j ≡ true
    → In j (candidates_in r now l)
unfolding candidates_in
In-candidates_in r now id j [] h b = absurd h
In-candidates_in r now id j ((i, k) ∷ l) (inl e) b = ground arith
In-candidates_in r now id j ((i, k) ∷ l) (inr h) b =
    ground (arith, In-candidates_in r now id j l h b)

-- A candidate is a stored job that passes the test.
pub candidates-In :
    (r : Repo) (now : ℕ) (j : Job)
    → In j (candidates r now)
    → (id : ℕ) × (find_job r id ≡ some j) × (is_candidate r now j ≡ true)
unfolding candidates find_job
candidates-In r now j h =
    let (id, m, b) = candidates_in-In r now j _ (In-sort j _ h) in
    (id, range-get ℕ_discrete id j r.jobs m, b)

pub In-candidates :
    (r : Repo) (now id : ℕ) (j : Job)
    → find_job r id ≡ some j
    → is_candidate r now j ≡ true
    → In j (candidates r now)
unfolding candidates find_job
In-candidates r now id j e b =
    sort-In j _ (In-candidates_in r now id j _ (get-range ℕ_discrete id j r.jobs e) b)

pub candidates-IsSorted : (r : Repo) (now : ℕ) → IsSorted (candidates r now)
unfolding candidates
candidates-IsSorted r now = sort_jobs-IsSorted _

NoneBefore-In : (j k : Job) (js : List Job) → NoneBefore j js → In k js → before k j ≡ false
NoneBefore-In j k [] n h = absurd h
NoneBefore-In j k (l ∷ js) n (inl e) = rw (← e) n.0
NoneBefore-In j k (l ∷ js) n (inr h) = NoneBefore-In j k js n.1 h

-- `j` is the first of the list whose chain is not busy.
abbrev pub IsFirstFree : Repo → List Job → Job → Type 0
IsFirstFree r js j =
    (is_busy r j.chain_id ≡ false)
    × In j js
    × ((k : Job) → In k js → is_busy r k.chain_id ≡ false → before k j ≡ false)

before_irrefl : (j : Job) → before j j ≡ false
unfolding before
before_irrefl j = ground arith

pub next_free-IsFirstFree :
    (r : Repo) (js : List Job) (j : Job)
    → IsSorted js
    → next_free r js ≡ some j
    → IsFirstFree r js j
unfolding next_free
next_free-IsFirstFree r [] j s h = cc
next_free-IsFirstFree r (l ∷ js) j s h = elim (Bool-cases (is_busy r l.chain_id)) [
  | inl b ↦
      let (f, m, best) = next_free-IsFirstFree r js j s.1 (rw b at h) in
      (f, inr m, λ k i e. elim i as (λ _. before k j ≡ false) [ inl p ↦ cc | inr i' ↦ best k i' e ])
  | inr b ↦
      let e : l ≡ j = ap or_head (rw b at h) in
      (
        rw (← e) b,
        inl e,
        λ k i _. rw (← e) (elim i as (λ _. before k l ≡ false) [
          | inl p ↦ rw (← p) (before_irrefl l)
          | inr i' ↦ NoneBefore-In l k js s.0 i'
        ]),
      )
]
  where
    or_head : Option Job → Job
    or_head none = l
    or_head (some k) = k

pub next_free-none :
    (r : Repo) (js : List Job) (k : Job)
    → next_free r js ≡ none
    → In k js
    → is_busy r k.chain_id ≡ true
unfolding next_free
next_free-none r [] k h m = absurd m
next_free-none r (l ∷ js) k h (inl e) = ground arith
next_free-none r (l ∷ js) k h (inr m) = ground (arith, next_free-none r js k)

pub choose-next_free : (r : Repo) (js : List Job) → choose r js ≡ next_free r js
unfolding choose
choose-next_free r [] = refl
choose-next_free r (j ∷ js) = refl
