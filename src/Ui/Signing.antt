-- ===== src/Ui/Signing.antt =====
-- What verifyHS256JWT of ui/auth.go accepts.
use orderedjob.Prelude.{
  ◌≡◌, ◌↔◌, refl, sym, ◌∙◌, ap, inl, inr, Bool-cases, false, String, true, ◌&&◌, Option, none, some,
  List, [], ◌∷◌, arith,
}
use orderedjob.Int64.{ℤ, pos, lt64}
use orderedjob.Ui.Auth.{is}
use orderedjob.Ui.Token.{
  TokenOps, decode_base64_url, dotted, is_current, payload_holds, signature_holds, parts_hold,
  verify_jwt, with_expiry, signed, generate_jwt,
}

-- A claim `exp` that lets the token pass at the time `now`: none, one that is not positive, or one that
-- is not past.
pub data IsUnexpired (now : ℤ) : Option ℤ → Type 0 where
  no_expiry : IsUnexpired now none
  not_positive : {e : ℤ} → lt64 (pos 0) e ≡ false → IsUnexpired now (some e)
  not_past : {e : ℤ} → lt64 e now ≡ false → IsUnexpired now (some e)

module _ {Claims : Type 0} (ops : TokenOps Claims) where
  -- the signature of a token with the payload
  abbrev pub signature : String → String → String
  signature secret payload =
      ops.sign secret (dotted ops (ops.encode ops.header) (ops.encode payload))

  -- For the token of the payload: RawURLEncoding decodes what it encodes, and, since its alphabet has
  -- no dot, strings.Split finds the three parts again.
  pub record IsLawful (secret payload : String) : Type 0 where
    pub decodes_payload : ops.decode_raw (ops.encode payload) ≡ some payload
    pub decodes_signature :
        ops.decode_raw (ops.encode (signature secret payload)) ≡ some (signature secret payload)
    pub splits :
        ops.split (
          dotted ops
            (dotted ops (ops.encode ops.header) (ops.encode payload))
            (ops.encode (signature secret payload)))
        ≡ ops.encode ops.header ∷ ops.encode payload ∷ ops.encode (signature secret payload) ∷ []

  decoded : (a b : String) → ops.decode_raw a ≡ some b → decode_base64_url ops a ≡ some b
  unfolding decode_base64_url
  decoded a b e = rw e refl

  is_refl : (a : String) → is a a ≡ true
  is_refl a = ground arith

  verify_generated :
      (secret : String) (claims : Claims) (exp : Option ℤ) (payload : String) (now : ℤ)
      → IsLawful secret payload
      → ops.marshal (with_expiry ops claims exp) ≡ some payload
      → (token : String) × (generate_jwt ops secret claims exp ≡ some token)
        × (verify_jwt ops token secret now ≡ is_current ops now (ops.exp_of payload))
  unfolding generate_jwt verify_jwt parts_hold
  verify_generated secret claims exp payload now law m = (
    dotted ops (dotted ops (ops.encode ops.header) (ops.encode payload))
        (ops.encode (signature secret payload)),
    ap (signed ops secret) m,
    ap (parts_hold ops secret now) law.splits
        ∙ ap
            (λ d.
              signature_holds ops (signature secret payload) d
              && payload_holds ops now (decode_base64_url ops (ops.encode payload)))
            (decoded (ops.encode (signature secret payload)) (signature secret payload)
              law.decodes_signature)
        ∙ ap
            (λ d.
              is (signature secret payload) (signature secret payload) && payload_holds ops now d)
            (decoded (ops.encode payload) payload law.decodes_payload)
        ∙ ap (λ b. b && is_current ops now (ops.exp_of payload))
            (is_refl (signature secret payload)),
  )

  current-IsUnexpired : (now : ℤ) (o : Option ℤ) → is_current ops now o ≡ true → IsUnexpired now o
  current-IsUnexpired now none h = no_expiry
  current-IsUnexpired now (some e) h = elim (Bool-cases (lt64 (pos 0) e)) [
    | inl y ↦ not_past (ground arith)
    | inr n ↦ not_positive n
  ]

  IsUnexpired-current : (now : ℤ) (o : Option ℤ) → IsUnexpired now o → is_current ops now o ≡ true
  IsUnexpired-current now none no_expiry = refl
  IsUnexpired-current now (some e) (not_positive h) = ground arith
  IsUnexpired-current now (some e) (not_past h) = ground arith

  -- A token that GenerateHS256JWT makes is accepted with its secret exactly while the claim `exp` of
  -- its payload is missing, not positive, or not past; base64 decodes the payload and the signature
  -- again, and the token splits at its two dots.
  pub verify-generate :
      (secret : String) (claims : Claims) (exp : Option ℤ) (payload : String) (now : ℤ)
      → IsLawful secret payload
      → ops.marshal (with_expiry ops claims exp) ≡ some payload
      → (token : String) × (generate_jwt ops secret claims exp ≡ some token)
        × ((verify_jwt ops token secret now ≡ true) ↔ IsUnexpired now (ops.exp_of payload))
  verify-generate secret claims exp payload now law m =
      let (token, made, e) = verify_generated secret claims exp payload now law m in
      (
        token,
        made,
        (
          λ h. current-IsUnexpired now (ops.exp_of payload) (sym e ∙ h),
          λ u. e ∙ IsUnexpired-current now (ops.exp_of payload) u,
        ),
      )

  -- A token that verifyHS256JWT accepts has three parts, and the third one decodes to the signature,
  -- with the secret, of the first two.
  pub verified-IsSigned :
      (secret token : String) (now : ℤ)
      → verify_jwt ops token secret now ≡ true
      → (header payload signed_by : String) × (ops.split token ≡ header ∷ payload ∷ signed_by ∷ [])
        × (decode_base64_url ops signed_by ≡ some (ops.sign secret (dotted ops header payload)))
  unfolding verify_jwt parts_hold
  verified-IsSigned secret token now h = on (ops.split token) refl h
    where
      same : (a : String) (d : Option String) → signature_holds ops a d ≡ true → d ≡ some a
      same a none k = absurd (ground arith)
      same a (some b) k = ap some (ground arith)

      on :
          (parts : List String)
          → ops.split token ≡ parts
          → parts_hold ops secret now parts ≡ true
          → (header payload signed_by : String) × (ops.split token
              ≡ header ∷ payload ∷ signed_by ∷ [])
            × (decode_base64_url ops signed_by ≡ some (ops.sign secret (dotted ops header payload)))
      on (a ∷ b ∷ c ∷ []) e k = (a, b, c, e, same _ (decode_base64_url ops c) (ground arith))
      on [] e k = absurd (ground arith)
      on (a ∷ []) e k = absurd (ground arith)
      on (a ∷ b ∷ []) e k = absurd (ground arith)
      on (a ∷ b ∷ c ∷ d ∷ _) e k = absurd (ground arith)
