-- ===== src/Client/Transport.antt =====
-- pkg/client/transport.go: the retrying transport. The inner round tripper, the clock, the random
-- draws and the request's context are the environment. Logging is left out.
pub mod Attempts
use go_es.Prelude.{
  ℕ, zero, suc, ◌+◌, ◌-◌, Bool, true, false, not, ◌&&◌, ◌||◌, Option, none, some, List, [], ◌∷◌,
  nat_eq, ltb, if◌then◌else◌, text,
}
use go_es.Prelude.Int.{ℤ, pos}
use go_es.Client.Outcome.{Outcome}
use go_es.Client.Breaker.{CircuitBreaker, allow, on_result}
use go_es.Client.Retry.{RetryConfig, should_retry, next_backoff}

-- By the number of the attempt: what the inner `RoundTrip` returns, the time at which its result is
-- reported, the random draw below 1000, whether the context is done after it, and whether the
-- context ends during the sleep of a given length.
pub record Env : Type 0 where
  pub inner : ℕ → Outcome
  pub clock : ℕ → ℕ
  pub draw : ℕ → ℕ
  pub is_done : ℕ → Bool
  pub interrupts : ℕ → ℕ → Bool

-- What a call leaves: its result, the breaker, and the number of requests that were sent.
pub record Reply : Type 0 where
  pub outcome : Outcome
  pub breaker : Option CircuitBreaker
  pub sent : ℕ

pub record RetryingTransport : Type 0 where
  pub retry : RetryConfig
  pub breaker : Option CircuitBreaker

unfoldable pub notify : Option CircuitBreaker → Outcome → ℕ → Option CircuitBreaker
notify none o now = none
notify (some b) o now = some (on_result b o now)

-- `sleepContext`: true when the sleep is full.
unfoldable pub sleep_context : Env → ℕ → ℕ → Bool
sleep_context env attempt d = if nat_eq d 0 then true else not (env.interrupts attempt d)

-- Whether the loop goes on after the failed attempt: the context is not done, and the sleep is full.
unfoldable pub waits : RetryConfig → Env → ℕ → Bool
unfolding sleep_context
waits cfg env attempt =
    not (env.is_done attempt)
    && sleep_context env attempt (next_backoff cfg (pos attempt) (env.draw attempt))

-- The loop, by the attempts that are left behind the present one.
unfoldable pub attempts : RetryConfig → Env → ℕ → ℕ → Option CircuitBreaker → Reply
attempts cfg env zero attempt b =
    let o : Outcome = env.inner attempt in
    record { outcome = o; breaker = notify b o (env.clock attempt); sent = attempt + 1 }
attempts cfg env (suc left) attempt b =
    let o : Outcome = env.inner attempt in
    let b' : Option CircuitBreaker = notify b o (env.clock attempt) in
    let rest : Reply = attempts cfg env left (attempt + 1) b' in
    if should_retry o && waits cfg env attempt
    then rest
    else record { outcome = o; breaker = b'; sent = attempt + 1 }

abbrev pub attempt_limit : RetryConfig → ℕ
attempt_limit cfg = if cfg.enabled then cfg.max_attempts else 1

-- `ErrCircuitOpen`
abbrev pub circuit_open : Outcome
circuit_open = record { response = none; error = some (text "circuit breaker is open") }

-- The breaker's judgement before the first attempt.
unfoldable pub admit : Option CircuitBreaker → ℕ → Option CircuitBreaker × Bool
admit none now = (none, true)
admit (some b) now = let (b', ok) = allow b now in (some b', ok)

-- The limit is at least 1, so the loop makes a first attempt.
unfoldable pub round_trip : RetryingTransport → Env → ℕ → Reply
unfolding admit
round_trip t env now =
    let (b, ok) = admit t.breaker now in
    if ok
    then attempts t.retry env (attempt_limit t.retry - 1) 0 b
    else record { outcome = circuit_open; breaker = b; sent = 0 }
