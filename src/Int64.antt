-- ===== src/Int64.antt =====
-- Go's `int64` and `int`: signed 64-bit integers. `x + 1` and `x - 1` wrap round, as they do in Go.
use orderedjob.Prelude.{
  ℕ, zero, suc, ◌≤◌, ◌≡◌, refl, Bool, true, false, arith, ltb, ◌==◌, if◌then◌else◌, ℕ_discrete, ◌≢◌,
}

-- `negsuc n` is -(n + 1).
pub data ℤ : Type 0 where
  pos : ℕ → ℤ
  negsuc : ℕ → ℤ

unfoldable pub ℤ_discrete : Discrete ℤ
ℤ_discrete = hlevel ℕ_discrete

-- 2^63 - 1, the greatest int64; `negsuc max_mag` is the least.
abbrev pub max_mag : ℕ
max_mag = 9223372036854775807

-- x + 1
unfoldable pub inc64 : ℤ → ℤ
inc64 (pos n) = if n == max_mag then negsuc max_mag else pos (suc n)
inc64 (negsuc zero) = pos 0
inc64 (negsuc (suc n)) = negsuc n

-- x - 1
unfoldable pub dec64 : ℤ → ℤ
dec64 (pos zero) = negsuc 0
dec64 (pos (suc n)) = pos n
dec64 (negsuc n) = if n == max_mag then pos max_mag else negsuc (suc n)

-- a < b
unfoldable pub lt64 : ℤ → ℤ → Bool
lt64 (pos a) (pos b) = ltb a b
lt64 (pos a) (negsuc b) = false
lt64 (negsuc a) (pos b) = true
lt64 (negsuc a) (negsuc b) = ltb b a

-- The values that 64 bits hold.
abbrev pub InRange : ℤ → Type 0
InRange (pos n) = n ≤ max_mag
InRange (negsuc n) = n ≤ max_mag

pub dec64-inc64 : (x : ℤ) → InRange x → dec64 (inc64 x) ≡ x
unfolding inc64 dec64
dec64-inc64 (pos n) h = ground arith
dec64-inc64 (negsuc zero) h = refl
dec64-inc64 (negsuc (suc n)) h = ground arith

pub inc64-dec64 : (x : ℤ) → InRange x → inc64 (dec64 x) ≡ x
unfolding inc64 dec64
inc64-dec64 (pos zero) h = refl
inc64-dec64 (pos (suc n)) h = ground arith
inc64-dec64 (negsuc n) h = ground arith

pub inc64-InRange : (x : ℤ) → InRange x → InRange (inc64 x)
unfolding inc64
inc64-InRange (pos n) h = ground arith
inc64-InRange (negsuc zero) h = omega arith
inc64-InRange (negsuc (suc n)) h = omega arith

pub inc64-ne : (x : ℤ) → inc64 x ≢ x
unfolding inc64
inc64-ne (pos n) = ground arith
inc64-ne (negsuc zero) = ground arith
inc64-ne (negsuc (suc n)) = ground arith

pub lt64_irrefl : (x : ℤ) → lt64 x x ≡ false
unfolding lt64
lt64_irrefl (pos n) = ground arith
lt64_irrefl (negsuc n) = ground arith

-- On both sides of 0 a failed test is `≤` the other way round.
pub lt64_trans : (a b c : ℤ) → lt64 b a ≡ false → lt64 c b ≡ false → lt64 c a ≡ false
unfolding lt64
lt64_trans (pos a) (pos b) (pos c) h k = ground arith
lt64_trans (pos a) (pos b) (negsuc c) h k = cc
lt64_trans (pos a) (negsuc b) (pos c) h k = cc
lt64_trans (pos a) (negsuc b) (negsuc c) h k = cc
lt64_trans (negsuc a) (pos b) (pos c) h k = refl
lt64_trans (negsuc a) (pos b) (negsuc c) h k = cc
lt64_trans (negsuc a) (negsuc b) (pos c) h k = refl
lt64_trans (negsuc a) (negsuc b) (negsuc c) h k = ground arith

pub lt64-asym : (a b : ℤ) → lt64 a b ≡ true → lt64 b a ≡ false
unfolding lt64
lt64-asym (pos a) (pos b) h = ground arith
lt64-asym (pos a) (negsuc b) h = cc
lt64-asym (negsuc a) (pos b) h = refl
lt64-asym (negsuc a) (negsuc b) h = ground arith

-- Below the greatest int64, `x + 1` is greater than `x`.
pub lt64-inc64 : (x : ℤ) → x ≢ pos max_mag → lt64 x (inc64 x) ≡ true
unfolding lt64 inc64
lt64-inc64 (pos n) h = ground arith
lt64-inc64 (negsuc zero) h = refl
lt64-inc64 (negsuc (suc n)) h = ground arith

-- What is above `x` is at least `x + 1`.
pub inc64-le : (x y : ℤ) → lt64 x y ≡ true → x ≢ pos max_mag → lt64 y (inc64 x) ≡ false
unfolding lt64 inc64
inc64-le (pos n) (pos m) h k = ground arith
inc64-le (pos n) (negsuc m) h k = cc
inc64-le (negsuc zero) (pos m) h k = ground arith
inc64-le (negsuc zero) (negsuc m) h k = absurd (ground arith)
inc64-le (negsuc (suc n)) (pos m) h k = refl
inc64-le (negsuc (suc n)) (negsuc m) h k = ground arith

-- If `y - 1` is at most `x`, then `y` is at most `x + 1`, for `y` above 1.
pub dec64-le :
    (x y : ℤ)
    → lt64 (pos 1) y ≡ true
    → x ≢ pos max_mag
    → lt64 x (dec64 y) ≡ false
    → lt64 (inc64 x) y ≡ false
unfolding lt64 inc64 dec64
dec64-le x (negsuc m) g k h = cc
dec64-le x (pos zero) g k h = absurd (ground arith)
dec64-le (pos n) (pos (suc m)) g k h = ground arith
dec64-le (negsuc n) (pos (suc m)) g k h = cc

-- `x + 1` keeps the order, below the greatest int64.
pub inc64_mono : (x y : ℤ) → lt64 y x ≡ false → y ≢ pos max_mag → lt64 (inc64 y) (inc64 x) ≡ false
unfolding lt64 inc64
inc64_mono (pos n) (pos m) h k = ground arith
inc64_mono (pos n) (negsuc m) h k = cc
inc64_mono (negsuc zero) (pos m) h k = ground arith
inc64_mono (negsuc (suc n)) (pos m) h k = ground arith
inc64_mono (negsuc zero) (negsuc zero) h k = refl
inc64_mono (negsuc zero) (negsuc (suc m)) h k = absurd (ground arith)
inc64_mono (negsuc (suc n)) (negsuc zero) h k = ground arith
inc64_mono (negsuc (suc n)) (negsuc (suc m)) h k = ground arith

pub inc64-pos0 : inc64 (pos 0) ≡ pos 1
unfolding inc64
inc64-pos0 = refl
