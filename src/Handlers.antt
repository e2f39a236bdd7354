-- ===== src/Handlers.antt =====
-- handler.go: the registry of handlers, and the handler that RegisterTypedWithValidator puts around
-- a typed function. Contexts are left out: a check that reads one is a check of the payload.
pub mod Cases
use Prim.Native.String.{◌++◌}
use mathlib.Core.List.{lookup}
use orderedjob.Prelude.{
  String, ◌≡◌, ◌⊎◌, ◌↔◌, inl, inr, refl, sym, ◌∙◌, ap, Bool, true, false, ◌||◌, Option, none, some,
  List, [], ◌∷◌, In, ite, text_discrete, Bool-cases, Option-cases, arith, if◌then◌else◌,
}
use orderedjob.GoMap.{GoMap, get, insert, keys, get-insert, In-keys, keys-get}
use orderedjob.Job.{Job, Result, ok, err, handler_not_found, is_empty}
use orderedjob.Failure.{
  Failure, text, wrapped, joined, plain, non_retryable, non_retryable_error, is_non_retryable,
  has_non_retryable,
}
use orderedjob.Memory.Listing.{text_ltb}

module _ {H : Type 0} where
  -- NewRegistry
  unfoldable pub new_registry : GoMap String H
  new_registry = []

  -- Register
  unfoldable pub register : GoMap String H → String → H → GoMap String H
  register r job_type h = insert text_discrete job_type h r

  -- Registry.Get
  unfoldable pub get_handler : GoMap String H → String → Option H
  get_handler r job_type = get text_discrete job_type r

  abbrev pub or_missing : Option H → Result H
  or_missing none = err handler_not_found
  or_missing (some h) = ok h

  -- MustGet
  unfoldable pub must_get : GoMap String H → String → Result H
  must_get r job_type = or_missing (get_handler r job_type)

unfoldable pub insert_text : String → List String → List String
insert_text s [] = s ∷ []
insert_text s (t ∷ ts) =
    let rest = insert_text s ts in if text_ltb t s then t ∷ rest else s ∷ t ∷ ts

unfoldable pub sort_texts : List String → List String
sort_texts [] = []
sort_texts (s ∷ ss) = insert_text s (sort_texts ss)

-- JobTypes
unfoldable pub job_types : {H : Type 0} → GoMap String H → List String
job_types r = sort_texts (keys r)

-- What RegisterTypedWithValidator knows of the payload type `P`: how JSON is read into it, its zero
-- value, its validators by value and by pointer, which may change it, and the custom one.
pub record Checks (P : Type 0) : Type 0 where
  pub zero_value : P
  pub unmarshal : String → Failure ⊎ P
  pub validate : Option (P → Option Failure)
  pub validate_pointer : Option (P → Option Failure × P)
  pub validate_ctx : Option (P → Option Failure)
  pub validate_ctx_pointer : Option (P → Option Failure × P)
  pub validator : Option (P → Option Failure)

-- NonRetryable(fmt.Errorf("%w: %w", ErrValidationFailed, err))
unfoldable pub rejected : Failure → Option Failure
rejected f =
    let failed = plain "orderedjob: payload validation failed" in
    non_retryable (some (joined (text failed ++ ": " ++ text f) failed f))

module _ {P : Type 0} where
  -- the payload, if there is one, read as JSON
  unfoldable pub decode : Checks P → Job → Failure ⊎ P
  decode c j =
      if is_empty j.payload || ite (text_discrete j.payload "null") true false
      then inr c.zero_value
      else c.unmarshal j.payload

  -- a validator by value, or else one by pointer
  unfoldable pub self_check :
      Option (P → Option Failure) → Option (P → Option Failure × P) → P → Option Failure × P
  self_check (some check) pointer p = (check p, p)
  self_check none (some check) p = check p
  self_check none none p = (none, p)

  abbrev pub custom_check : Option (P → Option Failure) → P → Option Failure
  custom_check none p = none
  custom_check (some check) p = check p

  abbrev pub after_custom : (Job → P → Option Failure) → Job → Option Failure × P → Option Failure
  after_custom fn j (some f, p) = rejected f
  after_custom fn j (none, p) = fn j p

  abbrev pub after_ctx :
      Checks P → (Job → P → Option Failure) → Job → Option Failure × P → Option Failure
  after_ctx c fn j (some f, p) = rejected f
  after_ctx c fn j (none, p) = after_custom fn j (custom_check c.validator p, p)

  abbrev pub after_self :
      Checks P → (Job → P → Option Failure) → Job → Option Failure × P → Option Failure
  after_self c fn j (some f, p) = rejected f
  after_self c fn j (none, p) =
      after_ctx c fn j (self_check c.validate_ctx c.validate_ctx_pointer p)

  abbrev pub after_decode :
      Checks P → (Job → P → Option Failure) → Job → Failure ⊎ P → Option Failure
  after_decode c fn j (inl f) = non_retryable (some (wrapped ("unmarshal payload: " ++ text f) f))
  after_decode c fn j (inr p) = after_self c fn j (self_check c.validate c.validate_pointer p)

  -- the handler that RegisterTypedWithValidator registers
  unfoldable pub typed_handler : Checks P → (Job → P → Option Failure) → Job → Option Failure
  typed_handler c fn j = after_decode c fn j (decode c j)

  -- The payload of the job is read as `p`, after every check let it pass.
  pub data Accepts (c : Checks P) (j : Job) (p : P) : Type 0 where
    accepted :
        (q s : P)
        → decode c j ≡ inr q
        → self_check c.validate c.validate_pointer q ≡ (none, s)
        → self_check c.validate_ctx c.validate_ctx_pointer s ≡ (none, p)
        → custom_check c.validator p ≡ none
        → Accepts c j p
