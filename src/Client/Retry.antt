-- ===== src/Client/Retry.antt =====
-- pkg/client/retry.go: the retry rule and the back-off. Durations are in nanoseconds. The jitter
-- factor, a float in (0, 1], is given in thousandths, and the products are exact: the rounding of
-- float64 is not modelled.
pub mod Backoff
pub mod Agreement
use go_es.Prelude.{
  ℕ, ◌+◌, ◌-◌, ◌*◌, ◌/◌, ◌^◌, Bool, true, false, ◌&&◌, ◌||◌, Option, none, some, leb, ltb, nat_eq,
  if◌then◌else◌, min, max,
}
use go_es.Prelude.Int.{ℤ, pos, negsuc}
use go_es.Client.Outcome.{Outcome}
use go_es.Client.Breaker.{positive_or, second}

pub record RawRetryConfig : Type 0 where
  pub enabled : Bool
  pub max_attempts : ℤ
  pub base_backoff : ℤ
  pub max_backoff : ℤ
  pub jitter : ℤ

pub record RetryConfig : Type 0 where
  pub enabled : Bool
  pub max_attempts : ℕ
  pub base_backoff : ℕ
  pub max_backoff : ℕ
  pub jitter : ℕ

unfoldable pub apply_defaults : RawRetryConfig → RetryConfig
apply_defaults c =
    let base : ℕ = positive_or (second / 10) c.base_backoff in
    let cap : ℕ = positive_or (5 * second) c.max_backoff in
    let jitter : ℕ = positive_or 200 c.jitter in
    record {
      enabled = c.enabled;
      max_attempts = positive_or 3 c.max_attempts;
      base_backoff = base;
      max_backoff = if ltb cap base then base else cap;
      jitter = if ltb 1000 jitter then 1000 else jitter;
    }

-- `if attempt < 0 { attempt = 0 }`
abbrev pub clamp_attempt : ℤ → ℕ
clamp_attempt (pos n) = n
clamp_attempt (negsuc n) = 0

abbrev pub cap_at : ℕ → ℕ → ℕ
cap_at cap d = if ltb cap d then cap else d

-- The duration before the jitter.
unfoldable pub base_duration : RetryConfig → ℕ → ℕ
base_duration cfg attempt =
    cap_at cfg.max_backoff
      (if leb 63 attempt then cfg.max_backoff else cfg.base_backoff * 2 ^ attempt)

-- The ratio `1 + (draw / 500 - 1) * jitter` in parts of 500000, at least 0.05.
unfoldable pub jitter_ratio : ℕ → ℕ → ℕ
jitter_ratio jitter draw =
    let ratio : ℕ = 500_000 + draw * jitter - 500 * jitter in
    if ltb ratio 25_000 then 25_000 else ratio

-- `draw` is the random number below 1000.
unfoldable pub next_backoff : RetryConfig → ℤ → ℕ → ℕ
next_backoff cfg attempt draw =
    let dur : ℕ = base_duration cfg (clamp_attempt attempt) in
    cap_at cfg.max_backoff
      (if ltb 0 cfg.jitter then dur * jitter_ratio cfg.jitter draw / 500_000 else dur)

unfoldable pub should_retry : Outcome → Bool
should_retry o = elim o.error [
  | some e ↦ true
  | none ↦ elim o.response [
    | none ↦ true
    | some code ↦
        if nat_eq code 0
        then true
        else if leb 500 code && leb code 599
        then true
        else if nat_eq code 429
        then true
        else false
  ]
]
