-- ===== src/RetryPolicy.antt =====
-- retry/policy.go. A delay is a number of nanoseconds below 2^53, where the float64 products with
-- powers of two are exact; what `rand.Float64() * float64(d)` truncates to is a parameter.
use native.Mathlib.Nat.{pow-suc}
use orderedjob.Prelude.{
  ap, ℕ, suc, ◌+◌, ◌*◌, ◌/◌, ◌^◌, ◌≤◌, ◌≡◌, ◌⊎◌, inl, inr, refl, Bool, arith, ltb, if◌then◌else◌,
}
use orderedjob.Int64.{ℤ, pos, lt64}

pub data JitterMode : Type 0 where
  jitter_none jitter_full jitter_equal : JitterMode
  -- any other number
  jitter_other : ℤ → JitterMode

pub record Policy : Type 0 where
  pub max_attempts : ℤ
  pub base_delay : ℕ
  pub max_delay : ℕ
  pub jitter : JitterMode

-- DefaultPolicy
unfoldable pub default_policy : Policy
default_policy = record {
  max_attempts = pos 5;
  base_delay = 1000000000;
  max_delay = 300000000000;
  jitter = jitter_equal;
}

-- `attempt - 1`, where an attempt that is not positive counts as 1
abbrev pub doublings : ℤ → ℕ
doublings (pos (suc n)) = n
doublings _ = 0

unfoldable pub cap : ℕ → ℕ → ℕ
cap most d = if ltb most d then most else d

-- the delay before the jitter
unfoldable pub capped : Policy → ℤ → ℕ
capped p attempt = cap p.max_delay (p.base_delay * 2 ^ doublings attempt)

module _ (draw : ℕ → ℕ) where
  unfoldable pub apply_jitter : ℕ → JitterMode → ℕ
  apply_jitter d jitter_none = d
  apply_jitter d jitter_full = draw d
  apply_jitter d jitter_equal = d / 2 + draw (d / 2)
  apply_jitter d (jitter_other _) = d

  unfoldable pub backoff : Policy → ℤ → ℕ
  backoff p attempt = apply_jitter (capped p attempt) p.jitter

-- ShouldRetry
unfoldable pub should_retry : Policy → ℤ → Bool
should_retry p attempt = lt64 attempt p.max_attempts

cap-le : (most d : ℕ) → cap most d ≤ most
unfolding cap
cap-le most d = ground arith

cap_mono : (most d e : ℕ) → d ≤ e → cap most d ≤ cap most e
unfolding cap
cap_mono most d e h = ground arith

module _ (draw : ℕ → ℕ) (draw_le : (d : ℕ) → draw d ≤ d) where
  apply_jitter-le : (d : ℕ) (m : JitterMode) → apply_jitter draw d m ≤ d
  unfolding apply_jitter
  apply_jitter-le d jitter_none = omega arith
  apply_jitter-le d (jitter_other _) = omega arith
  apply_jitter-le d jitter_full = draw_le d
  apply_jitter-le d jitter_equal = let h = draw_le (d / 2) in omega arith

  half-apply_jitter : (d : ℕ) (m : JitterMode) → (m ≡ jitter_full) ⊎ (d / 2 ≤ apply_jitter draw d m)
  unfolding apply_jitter
  half-apply_jitter d jitter_none = inr (omega arith)
  half-apply_jitter d (jitter_other _) = inr (omega arith)
  half-apply_jitter d jitter_full = inl refl
  half-apply_jitter d jitter_equal = inr (omega arith)

  -- Where a random part of a delay is at most the delay, the backoff is at most the greatest delay
  -- of the policy, and at least half of the delay before the jitter, unless the jitter is full.
  pub backoff_bounds :
      (p : Policy) (attempt : ℤ)
      → (backoff draw p attempt ≤ p.max_delay)
        × ((p.jitter ≡ jitter_full) ⊎ (capped p attempt / 2 ≤ backoff draw p attempt))
  unfolding backoff capped
  backoff_bounds p attempt =
      let d = cap p.max_delay (p.base_delay * 2 ^ doublings attempt) in
      let a = apply_jitter-le d p.jitter in
      let b = cap-le p.max_delay (p.base_delay * 2 ^ doublings attempt) in
      (omega arith, half-apply_jitter d p.jitter)

double : (b n : ℕ) → b * 2 ^ n ≤ b * 2 ^ suc n
double b n = let h = ap (λ (t : ℕ). b * t) (pow-suc 2 n) in omega arith

-- Without jitter, the next attempt of a job does not wait for less than this one.
pub backoff_grows :
    (draw : ℕ → ℕ) (p : Policy) (n : ℕ)
    → p.jitter ≡ jitter_none
    → backoff draw p (pos (suc n)) ≤ backoff draw p (pos (suc (suc n)))
unfolding backoff capped apply_jitter
backoff_grows draw p n e =
    rw e (
      cap_mono p.max_delay (p.base_delay * 2 ^ n) (p.base_delay * 2 ^ suc n)
        (double p.base_delay n))
