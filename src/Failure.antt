-- ===== src/Failure.antt =====
-- errors.go and `errorsIsCancel` of engine.go: the errors that handlers return, and how they are
-- told apart.
use Prim.Native.String.{◌++◌}
use orderedjob.Prelude.{
  String, ◌≡◌, ◌↔◌, ◌⊎◌, inl, inr, Bool, true, false, ◌||◌, Option, none, some, ite, text_discrete,
  arith, if◌then◌else◌,
}

-- `plain` has no `Unwrap` (errors.New, and those of the context package); `wrapped` is
-- `fmt.Errorf` with one %w and `joined` with two, whose texts are given; `panicked` is a
-- `*PanicError` with its text.
pub data Failure : Type 0 where
  plain : String → Failure
  wrapped : String → Failure → Failure
  joined : String → Failure → Failure → Failure
  retryable_error : Failure → Failure
  non_retryable_error : Failure → Failure
  panicked : String → Failure

-- Error()
unfoldable pub text : Failure → String
text (plain t) = t
text (wrapped t f) = t
text (joined t f g) = t
text (retryable_error f) = "retryable: " ++ text f
text (non_retryable_error f) = "non-retryable: " ++ text f
text (panicked t) = t

-- Retryable and NonRetryable, on nil and on an error
unfoldable pub retryable : Option Failure → Option Failure
retryable none = none
retryable (some f) = some (retryable_error f)

unfoldable pub non_retryable : Option Failure → Option Failure
non_retryable none = none
non_retryable (some f) = some (non_retryable_error f)

-- `errors.As` for a RetryableError, through both kinds of Unwrap
unfoldable pub has_retryable : Failure → Bool
has_retryable (retryable_error f) = true
has_retryable (non_retryable_error f) = has_retryable f
has_retryable (wrapped t f) = has_retryable f
has_retryable (joined t f g) = has_retryable f || has_retryable g
has_retryable _ = false

-- `errors.As` for a NonRetryableError
unfoldable pub has_non_retryable : Failure → Bool
has_non_retryable (non_retryable_error f) = true
has_non_retryable (retryable_error f) = has_non_retryable f
has_non_retryable (wrapped t f) = has_non_retryable f
has_non_retryable (joined t f g) = has_non_retryable f || has_non_retryable g
has_non_retryable _ = false

-- IsNonRetryable
unfoldable pub is_non_retryable : Option Failure → Bool
is_non_retryable none = false
is_non_retryable (some f) = has_non_retryable f

-- IsRetryable
unfoldable pub is_retryable : Option Failure → Bool
is_retryable none = true
is_retryable (some f) =
    if has_retryable f then true else if has_non_retryable f then false else true

unfoldable pub says_cancel : Failure → Bool
says_cancel f =
    ite (text_discrete (text f) "context canceled") true false
    || ite (text_discrete (text f) "context deadline exceeded") true false

-- the loop of errorsIsCancel: only `Unwrap() error` is followed
unfoldable pub cancel_in : Failure → Bool
cancel_in (wrapped t f) = says_cancel (wrapped t f) || cancel_in f
cancel_in (retryable_error f) = says_cancel (retryable_error f) || cancel_in f
cancel_in (non_retryable_error f) = says_cancel (non_retryable_error f) || cancel_in f
cancel_in f = says_cancel f

-- errorsIsCancel
unfoldable pub errors_is_cancel : Option Failure → Bool
errors_is_cancel none = false
errors_is_cancel (some f) = cancel_in f

-- `g` is `f`, or is reached from `f` by unwrapping one error at a time.
pub data Unwraps : Failure → Failure → Type 0 where
  here : {f : Failure} → Unwraps f f
  in_wrapped : {f g : Failure} {t : String} → Unwraps f g → Unwraps (wrapped t f) g
  in_retryable : {f g : Failure} → Unwraps f g → Unwraps (retryable_error f) g
  in_non_retryable : {f g : Failure} → Unwraps f g → Unwraps (non_retryable_error f) g

-- The text is the one of a context that was cancelled, or whose deadline passed.
abbrev pub IsContextText : Failure → Type 0
IsContextText f = (text f ≡ "context canceled") ⊎ (text f ≡ "context deadline exceeded")

says_cancel-IsContextText : (f : Failure) → says_cancel f ≡ true → IsContextText f
unfolding says_cancel
says_cancel-IsContextText f h = ground arith

IsContextText-says_cancel : (f : Failure) → IsContextText f → says_cancel f ≡ true
unfolding says_cancel
IsContextText-says_cancel f h = ground arith

or_left : (a b : Bool) → a ≡ true → a || b ≡ true
or_left a b h = ground arith

or_right : (a b : Bool) → b ≡ true → a || b ≡ true
or_right a b h = ground arith

or_cases : (a b : Bool) → a || b ≡ true → (a ≡ true) ⊎ (b ≡ true)
or_cases a b h = ground arith

says_cancel-cancel_in : (f : Failure) → says_cancel f ≡ true → cancel_in f ≡ true
unfolding cancel_in
says_cancel-cancel_in (wrapped t f) h = or_left _ _ h
says_cancel-cancel_in (retryable_error f) h = or_left _ _ h
says_cancel-cancel_in (non_retryable_error f) h = or_left _ _ h
says_cancel-cancel_in (plain t) h = h
says_cancel-cancel_in (joined t f g) h = h
says_cancel-cancel_in (panicked t) h = h

Unwraps-cancel_in : {f g : Failure} → Unwraps f g → says_cancel g ≡ true → cancel_in f ≡ true
unfolding cancel_in
Unwraps-cancel_in {f} here h = says_cancel-cancel_in f h
Unwraps-cancel_in (in_wrapped u) h = or_right _ _ (Unwraps-cancel_in u h)
Unwraps-cancel_in (in_retryable u) h = or_right _ _ (Unwraps-cancel_in u h)
Unwraps-cancel_in (in_non_retryable u) h = or_right _ _ (Unwraps-cancel_in u h)

-- An unwrapped error whose text is a context's.
abbrev pub HasContextText : Failure → Type 0
HasContextText f = (g : Failure) × Unwraps f g × IsContextText g

deeper :
    (f f' : Failure)
    → ((g : Failure) → Unwraps f g → Unwraps f' g)
    → HasContextText f
    → HasContextText f'
deeper f f' down (g, u, c) = (g, down g u, c)

at_top : (f : Failure) → says_cancel f ≡ true → HasContextText f
at_top f h = (f, here, says_cancel-IsContextText f h)

cancel_in-HasContextText : (f : Failure) → cancel_in f ≡ true → HasContextText f
unfolding cancel_in
cancel_in-HasContextText (wrapped t f) h = elim (or_cases _ _ h) [
  | inl a ↦ at_top (wrapped t f) a
  | inr b ↦ deeper f (wrapped t f) (λ g u. in_wrapped u) (cancel_in-HasContextText f b)
]
cancel_in-HasContextText (retryable_error f) h = elim (or_cases _ _ h) [
  | inl a ↦ at_top (retryable_error f) a
  | inr b ↦ deeper f (retryable_error f) (λ g u. in_retryable u) (cancel_in-HasContextText f b)
]
cancel_in-HasContextText (non_retryable_error f) h = elim (or_cases _ _ h) [
  | inl a ↦ at_top (non_retryable_error f) a
  | inr b ↦
      deeper f (non_retryable_error f) (λ g u. in_non_retryable u) (cancel_in-HasContextText f b)
]
cancel_in-HasContextText (plain t) h = at_top (plain t) h
cancel_in-HasContextText (joined t f g) h = at_top (joined t f g) h
cancel_in-HasContextText (panicked t) h = at_top (panicked t) h

-- An error counts as a cancellation exactly when unwrapping it, one error at a time, reaches one
-- whose text is the one of a cancelled or expired context; two errors joined are not looked into.
pub errors_is_cancel_iff : (f : Failure) → (errors_is_cancel (some f) ≡ true) ↔ HasContextText f
unfolding errors_is_cancel
errors_is_cancel_iff f =
    (cancel_in-HasContextText f, λ (g, u, c). Unwraps-cancel_in u (IsContextText-says_cancel g c))
