-- ===== src/Ui/Auth.antt =====
-- ui/auth.go: the middlewares of the options and their chain. `strings.ToLower`, `strings.HasPrefix`,
-- `strings.TrimSpace` and the slice of a text are parameters.
use orderedjob.Prelude.{
  ℕ, String, Bool, true, false, not, ◌&&◌, Option, none, some, List, [], ◌∷◌, ite, if◌then◌else◌,
  text_discrete,
}
use orderedjob.Job.{is_empty}
use orderedjob.Ui.{Request, Handler, plain}

-- What net/http and strings do with the header.
pub record HeaderOps : Type 0 where
  pub to_lower : String → String
  pub has_prefix : String → String → Bool
  pub trim_space : String → String
  pub from : ℕ → String → String

abbrev pub Middleware : Type 0 → Type 0
Middleware S = Handler S → Handler S

abbrev pub is : String → String → Bool
is a b = ite (text_discrete a b) true false

-- extractToken
unfoldable pub extract_token : HeaderOps → Request → String
extract_token ops r =
    if ops.has_prefix (ops.to_lower r.authorization) "bearer "
    then ops.trim_space (ops.from 7 r.authorization)
    else r.query.token

-- The options that guard the dashboard; the functions are `none` where they are nil.
pub data Guard : Type 0 where
  basic_auth : String → String → Guard
  token_auth : String → Guard
  jwt_auth : String → Guard
  jwt_validator : Option (String → Bool) → Guard
  auth_func : Option (Request → Bool) → Guard

-- The options that set a middleware: a guard, or one of the caller's own, `none` where it is nil.
pub data AuthOption (S : Type 0) : Type 0 where
  with_guard : Guard → AuthOption S
  with_auth_middleware : Option (Middleware S) → AuthOption S

abbrev pub has_basic : Option (String × String) → String → String → Bool
has_basic none username password = false
has_basic (some (u, p)) username password = is u username && is p password

abbrev pub asked : {A : Type 0} → Option (A → Bool) → A → Bool
asked none a = false
asked (some f) a = f a

-- The test of each middleware. `verify` is verifyHS256JWT at the time of the request.
unfoldable pub allows : HeaderOps → (String → String → Bool) → Guard → Request → Bool
allows ops verify (basic_auth username password) r = has_basic r.basic username password
allows ops verify (token_auth expected) r =
    let token = extract_token ops r in not (is_empty token) && is token expected
allows ops verify (jwt_auth secret) r =
    let token = extract_token ops r in not (is_empty token) && verify token secret
allows ops verify (jwt_validator validator) r =
    let token = extract_token ops r in not (is_empty token) && asked validator token
allows ops verify (auth_func f) r = asked f r

module _ {S : Type 0} where
  -- the middleware of a guard
  unfoldable pub guard_with : (Request → Bool) → Middleware S
  guard_with test next r s = if test r then next r s else (s, some (401, plain "Unauthorized"))

  -- ChainMiddlewares; `none` is nil.
  unfoldable pub chain_middlewares :
      Option (Middleware S) → Option (Middleware S) → Option (Middleware S)
  chain_middlewares none m2 = m2
  chain_middlewares (some m1) none = some m1
  chain_middlewares (some m1) (some m2) = some (λ next. m1 (m2 next))

  -- the middleware of an option
  unfoldable pub middleware_of :
      HeaderOps → (String → String → Bool) → AuthOption S → Option (Middleware S)
  middleware_of ops verify (with_guard g) = some (guard_with (allows ops verify g))
  middleware_of ops verify (with_auth_middleware m) = m

  -- the options of New, in their order
  unfoldable pub with_guards :
      HeaderOps
      → (String → String → Bool)
      → Option (Middleware S)
      → List (AuthOption S)
      → Option (Middleware S)
  with_guards ops verify m [] = m
  with_guards ops verify m (g ∷ gs) =
      with_guards ops verify (chain_middlewares m (middleware_of ops verify g)) gs

  abbrev pub around : Option (Middleware S) → Handler S → Handler S
  around none h = h
  around (some m) h = m h
