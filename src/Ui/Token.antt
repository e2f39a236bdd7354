-- ===== src/Ui/Token.antt =====
-- ui/auth.go: verifyHS256JWT and GenerateHS256JWT. The packages hmac, sha256, base64, json and strings
-- are parameters; a text stands for its bytes.
use Prim.Native.String.{◌++◌}
use orderedjob.Prelude.{String, Bool, true, false, not, ◌&&◌, Option, none, some, List, [], ◌∷◌}
use orderedjob.Int64.{ℤ, pos, lt64}
use orderedjob.Ui.Auth.{is}

-- `sign secret text` is HMAC-SHA256; `exp_of` is the claim `exp` that json.Unmarshal reads, `none`
-- where it fails and 0 where there is none; `marshal` is json.Marshal of the claims, and
-- `set_expiry` the assignment of `exp`.
pub record TokenOps (Claims : Type 0) : Type 0 where
  pub split : String → List String
  pub sign : String → String → String
  pub encode : String → String
  pub decode_raw : String → Option String
  pub decode_url : String → Option String
  pub decode_std : String → Option String
  pub exp_of : String → Option ℤ
  pub header : String
  pub marshal : Claims → Option String
  pub set_expiry : Claims → ℤ → Claims

module _ {Claims : Type 0} (ops : TokenOps Claims) where
  abbrev pub or_else : Option String → Option String → Option String
  or_else none later = later
  or_else (some b) later = some b

  -- decodeBase64URL
  unfoldable pub decode_base64_url : String → Option String
  decode_base64_url s = or_else (ops.decode_raw s) (or_else (ops.decode_url s) (ops.decode_std s))

  -- a + "." + b
  abbrev pub dotted : String → String → String
  dotted a b = (a ++ ".") ++ b

  -- the test of the expiry
  abbrev pub is_current : ℤ → Option ℤ → Bool
  is_current now none = true
  is_current now (some exp) = not (lt64 (pos 0) exp && lt64 exp now)

  abbrev pub payload_holds : ℤ → Option String → Bool
  payload_holds now none = false
  payload_holds now (some payload) = is_current now (ops.exp_of payload)

  abbrev pub signature_holds : String → Option String → Bool
  signature_holds expected none = false
  signature_holds expected (some actual) = is expected actual

  unfoldable pub parts_hold : String → ℤ → List String → Bool
  parts_hold secret now (header ∷ payload ∷ signature ∷ []) =
      signature_holds (ops.sign secret (dotted header payload)) (decode_base64_url signature)
      && payload_holds now (decode_base64_url payload)
  parts_hold secret now _ = false

  -- verifyHS256JWT, at the time `now` in seconds
  unfoldable pub verify_jwt : String → String → ℤ → Bool
  verify_jwt token secret now = parts_hold secret now (ops.split token)

  abbrev pub with_expiry : Claims → Option ℤ → Claims
  with_expiry claims none = claims
  with_expiry claims (some exp) = ops.set_expiry claims exp

  abbrev pub signed : String → Option String → Option String
  signed secret none = none
  signed secret (some payload) =
      let unsigned = dotted (ops.encode ops.header) (ops.encode payload) in
      some (dotted unsigned (ops.encode (ops.sign secret unsigned)))

  -- GenerateHS256JWT; `exp` is the time of the expiry, if it has one. `none` is an error.
  unfoldable pub generate_jwt : String → Claims → Option ℤ → Option String
  generate_jwt secret claims exp = signed secret (ops.marshal (with_expiry claims exp))
