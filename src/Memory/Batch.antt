-- ===== src/Memory/Batch.antt =====
-- Enqueue and EnqueueBatch of repository/memory/repository.go: repeating a request with the same
-- key, and the batch as all requests or none.
use mathlib.Core.List.{append-nil, append_assoc}
use orderedjob.Prelude.{
  ℕ, ◌≡◌, ◌≢◌, ◌⊎◌, refl, sym, subst, ◌∙◌, ap, false, none, some, arith, ℕ_discrete, if_pos,
  Option-cases, inl, inr, List, [], ◌∷◌, ◌++◌,
}
use orderedjob.Int64.{ℤ, inc64, lt64}
use orderedjob.Job.{Job, EnqueueRequest, Result, ok, err, RepoError, is_empty}
use orderedjob.Memory.State.{Repo, find_job, find_seq}
use orderedjob.Memory.Enqueue.{
  earlier, make_job, add_job, enqueue_single, enqueue, enqueue_all, enqueue_batch, get_max_sequence,
}
use orderedjob.Memory.Index.{find_job-add}
use orderedjob.Memory.Resolve.{HasRoom, resolved_is_free, resolved_bound}
use orderedjob.Memory.Keys.{
  new_job, enqueue_cases, HasUniqueKeys, earlier-none, earlier-some, new_job-HasUniqueKeys,
}

-- A job that was not there: at a free place of the chain, at most one above the greatest.
abbrev pub Adds : Repo → EnqueueRequest → ℕ → Repo → Job → Type 0
Adds r req id r' j =
    (r' ≡ add_job r j)
    × (j.id ≡ id)
    × (j.chain_id ≡ req.chain_id)
    × (find_seq r j.chain_id j.sequence ≡ none)
    × (lt64 (inc64 (get_max_sequence r j.chain_id)) j.sequence ≡ false)

new_job-Adds :
    (r : Repo) (req : EnqueueRequest) (id now : ℕ) (q : ℤ)
    → find_seq r req.chain_id q ≡ none
    → lt64 (inc64 (get_max_sequence r req.chain_id)) q ≡ false
    → Adds r req id (add_job r (new_job r req id now q)) (new_job r req id now q)
unfolding make_job
new_job-Adds r req id now q free bound = (refl, refl, refl, free, bound)

-- What Enqueue answers, on every branch: an error with nothing changed; a stored job that has the
-- key of the request, with nothing changed; or a new job.
abbrev pub Answers : Repo → EnqueueRequest → ℕ → Repo × Result Job → Type 0
Answers r req id (r', err e) = r' ≡ r
Answers r req id (r', ok j) =
    ((r' ≡ r) × ((i : ℕ) × (find_job r i ≡ some j) × (j.idempotency_key ≡ req.idempotency_key)))
    ⊎ Adds r req id r' j

-- Where the chain has a sequence left, Enqueue fails and changes nothing, or answers with a stored
-- job of the same key and changes nothing, or adds one job, whose place in the chain was free and
-- is at most one above the greatest sequence.
pub enqueue-Answers :
    (r : Repo) (req : EnqueueRequest) (id now : ℕ)
    → HasRoom r req.chain_id
    → Answers r req id (enqueue r req id now)
unfolding enqueue
enqueue-Answers r req id now room =
    enqueue_cases (Answers r req id) r req id now (λ e. refl)
      (λ j e. inl (refl, earlier-some r req j e))
      (λ q e v. inr (
        new_job-Adds r req id now q (resolved_is_free r req.chain_id req.sequence q room v)
          (resolved_bound r req.chain_id req.sequence q room v)))

again_known :
    (r : Repo) (req again : EnqueueRequest) (id now : ℕ) (j : Job)
    → again.idempotency_key ≡ req.idempotency_key
    → again.chain_id ≢ ""
    → earlier r req ≡ some j
    → enqueue_single r again id now ≡ (r, ok j)
unfolding enqueue_single is_empty earlier
again_known r req again id now j k c e = ground arith

-- A stored job is the one that is found again by its key.
stored_known :
    (r : Repo) (again : EnqueueRequest) (i : ℕ) (j : Job)
    → HasUniqueKeys r
    → find_job r i ≡ some j
    → j.idempotency_key ≢ ""
    → again.idempotency_key ≡ j.idempotency_key
    → earlier r again ≡ some j
stored_known r again i j u f k e = elim (Option-cases (earlier r again)) [
  | inl n ↦ absurd (earlier-none r again i j n (λ h. k (sym e ∙ h)) f (sym e))
  | inr (l, s) ↦
      let (n, g, p) = earlier-some r again l s in
      let same = u.one i n j l f g k (sym e ∙ sym p) in ground arith
]

-- After an Enqueue that answered with a job and a key, on a repository whose keys are unique, each
-- Enqueue with that key and a chain answers with the same job and changes nothing.
pub enqueue_again :
    (r : Repo) (req again : EnqueueRequest) (id now id' now' : ℕ) (j : Job)
    → HasUniqueKeys r
    → req.idempotency_key ≢ ""
    → again.idempotency_key ≡ req.idempotency_key
    → again.chain_id ≢ ""
    → (enqueue r req id now).1 ≡ ok j
    → enqueue (enqueue r req id now).0 again id' now' ≡ ((enqueue r req id now).0, ok j)
unfolding enqueue make_job
enqueue_again r req again id now id' now' j u k e c =
    enqueue_cases (λ x. x.1 ≡ ok j → enqueue_single x.0 again id' now' ≡ (x.0, ok j)) r req id now
      (λ e'. cc)
      (λ l s h.
        let (i, f, p) = earlier-some r req l s in
        let known = stored_known r again i l u f (λ h'. k (sym p ∙ h')) (e ∙ sym p) in
        again_known r again again id' now' l refl c known ∙ ap (λ x. (r, x)) h)
      (λ q n v h.
        let l = new_job r req id now q in
        let there = find_job-add r l id ∙ if_pos (ℕ_discrete id id) refl _ _ in
        let known =
          stored_known _ again id l (new_job-HasUniqueKeys r req id now q u n) there k e in
        again_known _ again again id' now' l refl c known ∙ ap (λ x. (add_job r l, x)) h)

-- What a batch does when every request is accepted: the requests one after the other.
abbrev pub EnqueuesTo : Repo → List (EnqueueRequest × ℕ × ℕ) → Repo → List Job → Type 0
EnqueuesTo r [] r' js = (r ≡ r') × (js ≡ [])
EnqueuesTo r ((req, id, now) ∷ rest) r' js =
    (j : Job) × (ks : List Job) × ((enqueue r req id now).1 ≡ ok j)
    × EnqueuesTo (enqueue r req id now).0 rest r' ks
    × (js ≡ j ∷ ks)

-- Some request of the batch is refused with `e`, in the state that those before it leave.
abbrev pub IsRefused : Repo → List (EnqueueRequest × ℕ × ℕ) → RepoError → Type 0
IsRefused r [] e = ⊥
IsRefused r ((req, id, now) ∷ rest) e =
    ((enqueue r req id now).1 ≡ err e)
    ⊎ ((j : Job) × ((enqueue r req id now).1 ≡ ok j) × IsRefused (enqueue r req id now).0 rest e)

-- The batch is all or nothing.
abbrev pub IsAtomic : Repo → List (EnqueueRequest × ℕ × ℕ) → Repo × Result (List Job) → Type 0
IsAtomic r reqs (r', ok js) = EnqueuesTo r reqs r' js
IsAtomic r reqs (r', err e) = (r' ≡ r) × IsRefused r reqs e

abbrev EndsAfter :
    Repo → Repo → List Job → List (EnqueueRequest × ℕ × ℕ) → Repo × Result (List Job) → Type 0
EndsAfter backup r out reqs (r', ok js) =
    (ks : List Job) × EnqueuesTo r reqs r' ks × (js ≡ out ++ ks)
EndsAfter backup r out reqs (r', err e) = (r' ≡ backup) × IsRefused r reqs e

EndsAfter-first :
    (backup r : Repo) (out : List Job) (req : EnqueueRequest) (id now : ℕ)
    (rest : List (EnqueueRequest × ℕ × ℕ)) (j : Job)
    → (enqueue r req id now).1 ≡ ok j
    → (x : Repo × Result (List Job))
    → EndsAfter backup (enqueue r req id now).0 (out ++ j ∷ []) rest x
    → EndsAfter backup r out ((req, id, now) ∷ rest) x
EndsAfter-first backup r out req id now rest j a (r', ok js) (ks, to, e) =
    (j ∷ ks, (j, ks, a, to, refl), e ∙ append_assoc out (j ∷ []) ks)
EndsAfter-first backup r out req id now rest j a (r', err e) (b, refused) = (b, inr (j, a, refused))

enqueue_all-EndsAfter :
    (backup r : Repo) (out : List Job) (reqs : List (EnqueueRequest × ℕ × ℕ))
    → EndsAfter backup r out reqs (enqueue_all backup r out reqs)
unfolding enqueue_all enqueue
enqueue_all-EndsAfter backup r out [] = ([], (refl, refl), sym (append-nil out))
enqueue_all-EndsAfter backup r out ((req, id, now) ∷ rest) =
    at (enqueue_single r req id now).1 refl
      (λ j. enqueue_all-EndsAfter backup (enqueue_single r req id now).0 (out ++ j ∷ []) rest)
  where
    at :
        (x : Result Job)
        → (enqueue_single r req id now).1 ≡ x
        → ((j : Job)
            → EndsAfter backup
                (enqueue_single r req id now).0
                (out ++ j ∷ [])
                rest
                (enqueue_all backup (enqueue_single r req id now).0 (out ++ j ∷ []) rest))
        → EndsAfter backup r out
            ((req, id, now) ∷ rest)
            (elim x as (λ _. Repo × Result (List Job)) [
              | err e ↦ (backup, err e)
              | ok j ↦ enqueue_all backup (enqueue_single r req id now).0 (out ++ j ∷ []) rest
            ])
    at (err e) p go = (refl, inl p)
    at (ok j) p go = EndsAfter-first backup r out req id now rest j p _ (go j)

EndsAfter-IsAtomic :
    (r : Repo) (reqs : List (EnqueueRequest × ℕ × ℕ)) (x : Repo × Result (List Job))
    → EndsAfter r r [] reqs x
    → IsAtomic r reqs x
EndsAfter-IsAtomic r reqs (r', ok js) (ks, to, e) = subst (EnqueuesTo r reqs r') (sym e) to
EndsAfter-IsAtomic r reqs (r', err e) h = h

-- EnqueueBatch is all or nothing: it answers with the jobs, and leaves the state, of its requests
-- enqueued one after the other; or one of them is refused, its error is the answer, and the state
-- is the one before the batch.
pub enqueue_batch-IsAtomic :
    (r : Repo) (reqs : List (EnqueueRequest × ℕ × ℕ)) → IsAtomic r reqs (enqueue_batch r reqs)
unfolding enqueue_batch
enqueue_batch-IsAtomic r reqs = EndsAfter-IsAtomic r reqs _ (enqueue_all-EndsAfter r r [] reqs)
