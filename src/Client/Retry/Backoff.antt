-- ===== src/Client/Retry/Backoff.antt =====
-- pkg/client/retry.go: bounds and growth of the back-off.
use go_es.Prelude.{ℕ, zero, suc, ◌+◌, ◌*◌, ◌/◌, ◌^◌, ◌≤◌, ◌<◌, ◌≡◌, arith}
use go_es.Prelude.Int.{ℤ, pos}
use native.Mathlib.Numerals.{towards_suc}
use native.Mathlib.Nat.{mul-le-mul_left, mul-le-mul_right, le_refl, le_trans, add-zero}
use go_es.Client.Breaker.Invariant.{positive_or_pos}
use go_es.Client.Retry.{
  RetryConfig, RawRetryConfig, apply_defaults, clamp_attempt, base_duration, jitter_ratio,
  next_backoff,
}

-- The defaults leave at least one attempt, a positive base that is at most the cap, and a jitter
-- factor in (0, 1].
pub apply_defaults_bounds :
    (c : RawRetryConfig)
    → (0 < (apply_defaults c).max_attempts)
      × (0 < (apply_defaults c).base_backoff)
      × ((apply_defaults c).base_backoff ≤ (apply_defaults c).max_backoff)
      × (0 < (apply_defaults c).jitter)
      × ((apply_defaults c).jitter ≤ 1000)
unfolding apply_defaults
apply_defaults_bounds c = ground (
  arith,
  positive_or_pos 3 c.max_attempts,
  positive_or_pos 100_000_000 c.base_backoff,
  positive_or_pos 5_000_000_000 c.max_backoff,
  positive_or_pos 200 c.jitter,
)

double-pow : (a : ℕ) → 2 ^ (a + 1) ≡ 2 * 2 ^ a
double-pow a = simp towards_suc (omega arith)

base_duration-mono_one :
    (cfg : RetryConfig) (a : ℕ) → base_duration cfg a ≤ base_duration cfg (a + 1)
unfolding base_duration
base_duration-mono_one cfg a = grind (arith, double-pow a)

base_duration_mono : (cfg : RetryConfig) (a k : ℕ) → base_duration cfg a ≤ base_duration cfg (a + k)
base_duration_mono cfg a zero = rw add-zero (le_refl _)
base_duration_mono cfg a (suc k) =
    let e : a + suc k ≡ a + k + 1 = omega arith in
    rw e (le_trans (base_duration_mono cfg a k) (base_duration-mono_one cfg (a + k)))

base_duration-le : (cfg : RetryConfig) (a : ℕ) → base_duration cfg a ≤ cfg.max_backoff
unfolding base_duration
base_duration-le cfg a = ground arith

jitter_ratio_bounds :
    (jitter draw : ℕ)
    → jitter ≤ 1000
    → draw < 1000
    → (25_000 ≤ jitter_ratio jitter draw) × (jitter_ratio jitter draw ≤ 1_000_000)
unfolding jitter_ratio
jitter_ratio_bounds jitter draw h k = ground (arith, mul-le-mul_right {m = draw} {n = 1000} jitter)

-- With a jitter factor of at most 1 and a draw below 1000, the back-off is never above the cap,
-- at most twice and at least a twentieth of the duration before the jitter.
pub next_backoff_bounds :
    (cfg : RetryConfig) (attempt : ℤ) (draw : ℕ)
    → cfg.jitter ≤ 1000
    → draw < 1000
    → let dur = base_duration cfg (clamp_attempt attempt) in
      (next_backoff cfg attempt draw ≤ cfg.max_backoff)
      × (next_backoff cfg attempt draw ≤ 2 * dur)
      × (dur / 20 ≤ next_backoff cfg attempt draw)
unfolding next_backoff
next_backoff_bounds cfg attempt draw h k = ground (
  arith,
  base_duration-le cfg (clamp_attempt attempt),
  mul-le-mul_left (base_duration cfg (clamp_attempt attempt))
      (jitter_ratio_bounds cfg.jitter draw h k).0,
  mul-le-mul_left (base_duration cfg (clamp_attempt attempt))
      (jitter_ratio_bounds cfg.jitter draw h k).1,
)

-- With the same random draw a later attempt waits no shorter.
pub next_backoff_mono :
    (cfg : RetryConfig) (attempt k draw : ℕ)
    → next_backoff cfg (pos attempt) draw ≤ next_backoff cfg (pos (attempt + k)) draw
unfolding next_backoff
next_backoff_mono cfg attempt k draw = ground (
  arith,
  base_duration_mono cfg attempt k,
  mul-le-mul_right (jitter_ratio cfg.jitter draw) (base_duration_mono cfg attempt k),
)
