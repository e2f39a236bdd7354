-- ===== src/Ui/Access.antt =====
-- Who reaches the handlers of ui/ui.go, and what the read-only mode keeps.
use orderedjob.Prelude.{
  ◌≡◌, refl, ◌∙◌, ap, ℕ, String, Bool, true, Option, none, some, List, [], ◌∷◌, Bool-cases, inl,
  inr, In, arith, sym, subst,
}
use orderedjob.Job.{is_empty}
use orderedjob.Ui.{Method, get, post, other_method, Request, Response, Handler, Repository, plain}
use orderedjob.Ui.Auth.{
  HeaderOps, Guard, AuthOption, with_guard, with_auth_middleware, middleware_of, Middleware, allows,
  guard_with, chain_middlewares, with_guards, around,
}
use orderedjob.Ui.Passing.{Passes, allows-Passes, Passes-allows}
use orderedjob.Ui.Handlers.{
  Settings, Route, stats_route, jobs_route, job_route, chains_route, enqueue_route, types_route,
  bulk_replay_route, bulk_skip_route, bulk_purge_route, handle_job_types, handle_stats, handle_jobs,
  handle_chains, handle_enqueue, handle_job, job_path, job_with_id, job_parts, handle_bulk_replay,
  handle_bulk_skip, handle_bulk_purge, route, serve, post_only,
}

-- Who answers a request behind the options, the first one outside: the handler, where each guard lets
-- the request pass; a guard that does not, with 401 and the state as it was; or the caller's own
-- middleware, around a handler that answers as the options behind it do.
pub data Served {S : Type 0} (ops : HeaderOps) (verify : String → String → Bool) (h : Handler S)
    : List (AuthOption S) → Request → S → S × Option Response → Type 0 where
  reached : {r : Request} {s : S} → Served ops verify h [] r s (h r s)
  let_pass :
      {g : Guard} {gs : List (AuthOption S)} {r : Request} {s : S} {out : S × Option Response}
      → Passes ops verify g r
      → Served ops verify h gs r s out
      → Served ops verify h (with_guard g ∷ gs) r s out
  refused :
      {g : Guard} {gs : List (AuthOption S)} {r : Request} {s : S}
      → ¬ Passes ops verify g r
      → Served ops verify h (with_guard g ∷ gs) r s (s, some (401, plain "Unauthorized"))
  wrapped :
      {m : Middleware S} {gs : List (AuthOption S)} {r : Request} {s : S} (k : Handler S)
      → ((q : Request) (u : S) → Served ops verify h gs q u (k q u))
      → Served ops verify h (with_auth_middleware (some m) ∷ gs) r s (m k r s)
  without :
      {gs : List (AuthOption S)} {r : Request} {s : S} {out : S × Option Response}
      → Served ops verify h gs r s out
      → Served ops verify h (with_auth_middleware none ∷ gs) r s out

-- A middleware of the caller changes the state only through the handler that it wraps.
abbrev pub KeepsState : {S : Type 0} → Middleware S → Type 0
KeepsState {S} m =
    (h : Handler S)
    → ((q : Request) (u : S) → (h q u).0 ≡ u)
    → (q : Request) (u : S) → (m h q u).0 ≡ u

module _ {S : Type 0} (ops : HeaderOps) (verify : String → String → Bool) (h : Handler S) where
  -- The options around a handler, the first one outside.
  guarded : List (AuthOption S) → Handler S
  guarded [] = h
  guarded (g ∷ gs) = around (middleware_of ops verify g) (guarded gs)

  chained :
      (m n : Option (Middleware S)) (k : Handler S)
      → around (chain_middlewares m n) k ≡ around m (around n k)
  unfolding chain_middlewares
  chained none n k = refl
  chained (some m) none k = refl
  chained (some m) (some n) k = refl

  around-guarded :
      (m : Option (Middleware S)) (gs : List (AuthOption S))
      → around (with_guards ops verify m gs) h ≡ around m (guarded gs)
  unfolding with_guards guarded
  around-guarded m [] = refl
  around-guarded m (g ∷ gs) =
      around-guarded (chain_middlewares m (middleware_of ops verify g)) gs
      ∙ chained m (middleware_of ops verify g) (guarded gs)

  guarded-Served :
      (gs : List (AuthOption S)) (r : Request) (s : S) → Served ops verify h gs r s (guarded gs r s)
  unfolding guarded guard_with middleware_of
  guarded-Served [] r s = reached
  guarded-Served (with_guard g ∷ gs) r s = elim (Bool-cases (allows ops verify g r)) [
    | inl e ↦ rw e (let_pass (allows-Passes ops verify g r e) (guarded-Served gs r s))
    | inr e ↦ rw e (refused (λ p. absurd (ground (arith, Passes-allows ops verify g r p))))
  ]
  guarded-Served (with_auth_middleware none ∷ gs) r s = without (guarded-Served gs r s)
  guarded-Served (with_auth_middleware (some m) ∷ gs) r s =
      wrapped (guarded gs) (λ q u. guarded-Served gs q u)

  guarded-keeps :
      (gs : List (AuthOption S))
      → ((m : Middleware S) → In (with_auth_middleware (some m)) gs → KeepsState m)
      → ((q : Request) (u : S) → (h q u).0 ≡ u)
      → (q : Request) (u : S) → (guarded gs q u).0 ≡ u
  unfolding guarded guard_with middleware_of
  guarded-keeps [] own keeps q u = keeps q u
  guarded-keeps (with_guard g ∷ gs) own keeps q u = elim (Bool-cases (allows ops verify g q)) [
    | inl e ↦ rw e (guarded-keeps gs (λ m i. own m (inr i)) keeps q u)
    | inr e ↦ rw e refl
  ]
  guarded-keeps (with_auth_middleware none ∷ gs) own keeps q u =
      guarded-keeps gs (λ m i. own m (inr i)) keeps q u
  guarded-keeps (with_auth_middleware (some m) ∷ gs) own keeps q u =
      own m (inl refl) (guarded gs) (guarded-keeps gs (λ n i. own n (inr i)) keeps) q u

module _ {S : Type 0} (repo : Repository S) (opts : Settings S) (ops : HeaderOps)
    (verify : String → String → Bool) (parse_id : String → Option ℕ) where
  -- A request reaches its handler exactly if each guard of the options lets it pass, in their order
  -- and inside the caller's own middlewares: the first guard that does not answers 401 and leaves the
  -- state as it is. A guard lets pass the named user and password; the token that it expects; a token
  -- that verifyHS256JWT, or the validator, accepts; or what the function accepts. No token is empty.
  pub serve-Served :
      (path : Route) (r : Request) (s : S)
      → Served ops verify
          (route repo opts parse_id path)
          opts.guards
          r
          s
          (serve repo opts ops verify parse_id path r s)
  unfolding serve
  serve-Served path r s =
      subst (λ f. Served ops verify (route repo opts parse_id path) opts.guards r s (f r s))
        (sym (around-guarded ops verify (route repo opts parse_id path) none opts.guards))
        (guarded-Served ops verify (route repo opts parse_id path) opts.guards r s)

  post_only-keeps :
      (c : S × Option Response) (s : S) (m : Method)
      → opts.read_only ≡ true
      → (post_only repo opts c s m).0 ≡ s
  post_only-keeps c s get e = refl
  post_only-keeps c s post e = rw e refl
  post_only-keeps c s other_method e = refl

  job_parts-keeps :
      (id : ℕ) (parts : List String) (r : Request) (s : S)
      → opts.read_only ≡ true
      → (job_parts repo opts id parts r s).0 ≡ s
  job_parts-keeps id [] r s e = refl
  job_parts-keeps id (action ∷ _) r s e = post_only-keeps _ s r.method e

  job_path-keeps :
      (parts : List String) (r : Request) (s : S)
      → opts.read_only ≡ true
      → (job_path repo opts parse_id parts r s).0 ≡ s
  job_path-keeps [] r s e = refl
  job_path-keeps (part ∷ rest) r s e = elim (Bool-cases (is_empty part)) [
    | inl y ↦ rw y refl
    | inr y ↦ rw y (with_id (parse_id part))
  ]
    where
      with_id : (o : Option ℕ) → (job_with_id repo opts o rest r s).0 ≡ s
      with_id none = refl
      with_id (some id) = job_parts-keeps id rest r s e

  route-keeps :
      (path : Route) (r : Request) (s : S)
      → opts.read_only ≡ true
      → (route repo opts parse_id path r s).0 ≡ s
  unfolding route handle_stats handle_jobs handle_job handle_chains handle_enqueue handle_job_types
      handle_bulk_replay handle_bulk_skip handle_bulk_purge
  route-keeps stats_route r s e = refl
  route-keeps jobs_route r s e = refl
  route-keeps job_route r s e = job_path-keeps r.parts r s e
  route-keeps chains_route r s e = refl
  route-keeps enqueue_route r s e = post_only-keeps _ s r.method e
  route-keeps types_route r s e = refl
  route-keeps bulk_replay_route r s e = post_only-keeps _ s r.method e
  route-keeps bulk_skip_route r s e = post_only-keeps _ s r.method e
  route-keeps bulk_purge_route r s e = post_only-keeps _ s r.method e

  -- In the read-only mode no request changes the state of the repository, where no middleware of the
  -- caller's own changes it but through the handler that it wraps.
  pub serve-read_only :
      (path : Route) (r : Request) (s : S)
      → opts.read_only ≡ true
      → ((m : Middleware S) → In (with_auth_middleware (some m)) opts.guards → KeepsState m)
      → (serve repo opts ops verify parse_id path r s).0 ≡ s
  unfolding serve
  serve-read_only path r s e own =
      ap (λ f. (f r s).0)
        (around-guarded ops verify (route repo opts parse_id path) none opts.guards)
      ∙ guarded-keeps ops verify (route repo opts parse_id path) opts.guards own
          (λ q u. route-keeps path q u e) r s
