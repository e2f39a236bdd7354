-- ===== src/Ui/Passing.antt =====
-- When the guards of ui/auth.go let a request pass, in terms that do not run the code.
use orderedjob.Prelude.{
  ◌≡◌, ◌≢◌, ◌⊎◌, refl, sym, subst, String, Bool, true, false, Option, none, some, inl, inr, arith,
  Bool-cases,
}
use orderedjob.Job.{is_empty}
use orderedjob.Ui.{Request}
use orderedjob.Ui.Auth.{
  HeaderOps, Guard, basic_auth, token_auth, jwt_auth, jwt_validator, auth_func, has_basic, is,
  extract_token, allows,
}

-- The token of a request: behind a Bearer prefix of the header Authorization, or else the parameter.
abbrev pub HasToken : HeaderOps → Request → String → Type 0
HasToken ops r t =
    ((ops.has_prefix (ops.to_lower r.authorization) "bearer " ≡ true)
      × (t ≡ ops.trim_space (ops.from 7 r.authorization)))
    ⊎ ((ops.has_prefix (ops.to_lower r.authorization) "bearer " ≡ false) × (t ≡ r.query.token))

-- The request shows what the guard asks for.
abbrev pub Passes : HeaderOps → (String → String → Bool) → Guard → Request → Type 0
Passes ops verify (basic_auth username password) r = r.basic ≡ some (username, password)
Passes ops verify (token_auth expected) r = HasToken ops r expected × (expected ≢ "")
Passes ops verify (jwt_auth secret) r =
    (t : String) × HasToken ops r t × (t ≢ "") × (verify t secret ≡ true)
Passes ops verify (jwt_validator v) r =
    (f : String → Bool) × (t : String) × (v ≡ some f) × HasToken ops r t × (t ≢ "") × (f t ≡ true)
Passes ops verify (auth_func f) r = (g : Request → Bool) × (f ≡ some g) × (g r ≡ true)

own-HasToken : (ops : HeaderOps) (r : Request) → HasToken ops r (extract_token ops r)
unfolding extract_token
own-HasToken ops r = elim (Bool-cases (ops.has_prefix (ops.to_lower r.authorization) "bearer ")) [
  | inl e ↦ inl (e, rw e refl)
  | inr e ↦ inr (e, rw e refl)
]

one_token :
    (ops : HeaderOps) (r : Request) (t : String) → HasToken ops r t → extract_token ops r ≡ t
unfolding extract_token
one_token ops r t (inl (e, f)) = rw e (sym f)
one_token ops r t (inr (e, f)) = rw e (sym f)

is-same : (a b : String) → is a b ≡ true → a ≡ b
is-same a b h = ground arith

not_empty : (t : String) → is_empty t ≡ false → t ≢ ""
unfolding is_empty
not_empty t h = ground arith

empty_not : (t : String) → t ≢ "" → is_empty t ≡ false
unfolding is_empty
empty_not t h = ground arith

has_basic-some :
    (o : Option (String × String)) (u p : String) → has_basic o u p ≡ true → o ≡ some (u, p)
has_basic-some none u p h = absurd (ground arith)
has_basic-some (some (a, b)) u p h =
    let e = is-same u a (ground arith) in let f = is-same p b (ground arith) in cc

is_refl : (a : String) → is a a ≡ true
is_refl a = ground arith

pub allows-Passes :
    (ops : HeaderOps) (verify : String → String → Bool) (g : Guard) (r : Request)
    → allows ops verify g r ≡ true
    → Passes ops verify g r
unfolding allows
allows-Passes ops verify (basic_auth u p) r h = has_basic-some r.basic u p h
allows-Passes ops verify (token_auth expected) r h =
    let e : extract_token ops r ≡ expected =
      is-same (extract_token ops r) expected (ground arith) in
    (
      subst (HasToken ops r) e (own-HasToken ops r),
      subst (λ t. t ≢ "") e (not_empty (extract_token ops r) (ground arith)),
    )
allows-Passes ops verify (jwt_auth secret) r h = (
  extract_token ops r,
  own-HasToken ops r,
  not_empty (extract_token ops r) (ground arith),
  ground arith,
)
allows-Passes ops verify (jwt_validator none) r h = absurd (ground arith)
allows-Passes ops verify (jwt_validator (some f)) r h = (
  f,
  extract_token ops r,
  refl,
  own-HasToken ops r,
  not_empty (extract_token ops r) (ground arith),
  ground arith,
)
allows-Passes ops verify (auth_func none) r h = absurd (ground arith)
allows-Passes ops verify (auth_func (some f)) r h = (f, refl, h)

pub Passes-allows :
    (ops : HeaderOps) (verify : String → String → Bool) (g : Guard) (r : Request)
    → Passes ops verify g r
    → allows ops verify g r ≡ true
unfolding allows
Passes-allows ops verify (basic_auth u p) r h = rw h (ground (arith, is_refl u, is_refl p))
Passes-allows ops verify (token_auth expected) r (h, n) =
    rw (one_token ops r expected h) (ground (arith, empty_not expected n, is_refl expected))
Passes-allows ops verify (jwt_auth secret) r (t, h, n, v) =
    rw (one_token ops r t h) (ground (arith, empty_not t n))
Passes-allows ops verify (jwt_validator o) r (f, t, e, h, n, v) =
    rw (e, one_token ops r t h) (ground (arith, empty_not t n))
Passes-allows ops verify (auth_func o) r (g, e, v) = rw e v
