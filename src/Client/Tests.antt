-- ===== src/Client/Tests.antt =====
-- pkg/client: the theorems on the breaker, the back-off and the transport at concrete inputs.
use go_es.Prelude.{ℕ, ◌≡◌, ◌+◌, ◌<◌, refl, true, false, none, some, [], ◌∷◌, arith}
use go_es.Prelude.Int.{pos}
use go_es.Client.Outcome.{Outcome}
use go_es.Client.Breaker.{
  RawBreakerConfig, BreakerConfig, CircuitBreaker, state_closed, state_open, state_half_open,
  new_circuit_breaker, second, allows, results, reads, allow, on_result_bool,
}
use go_es.Client.Breaker.Invariant.{run-new_circuit_breaker-IsValid}
use go_es.Client.Breaker.Cycle.{admitted, open_admits_none}
use go_es.Client.Retry.{RawRetryConfig, RetryConfig}
use go_es.Client.Transport.{Env, RetryingTransport, admit, round_trip, circuit_open}
use go_es.Client.Transport.Attempts.{round_trip_lem, Tried}

abbrev raw : RawBreakerConfig
raw = record {
  enabled = true;
  failure_threshold = pos 2;
  timeout = pos 10;
  success_threshold = pos 2;
  max_half_open_reqs = pos 1;
}

abbrev cfg : BreakerConfig
cfg = record {
  enabled = true;
  failure_threshold = 2;
  timeout = 10;
  success_threshold = 2;
  max_half_open_reqs = 1;
}

abbrev closed : CircuitBreaker
closed = record {
  cfg = cfg;
  state = state_closed;
  failure = 0;
  success = 0;
  inflight = 0;
  opened_at = 0;
  last_state = 0;
}

abbrev opened : CircuitBreaker
opened = record {
  cfg = cfg;
  state = state_open;
  failure = 2;
  success = 0;
  inflight = 0;
  opened_at = 5;
  last_state = 5;
}

abbrev half_open : CircuitBreaker
half_open = record {
  cfg = cfg;
  state = state_half_open;
  failure = 2;
  success = 0;
  inflight = 1;
  opened_at = 5;
  last_state = 15;
}

abbrev bad_gateway : Outcome
bad_gateway = record { response = some 502; error = none }

half_open-IsValid : go_es.Client.Breaker.Invariant.IsValid half_open
half_open-IsValid = record {
  failures = omega arith;
  window = omega arith;
  successes = omega arith;
  probes = omega arith;
  within = (omega arith, omega arith);
}

run-new_circuit_breaker-IsValid_example : go_es.Client.Breaker.Invariant.IsValid (
    go_es.Client.Breaker.run
      (new_circuit_breaker raw 0)
      ((1, allows) ∷ (2, results bad_gateway) ∷ (3, results bad_gateway) ∷ (14, allows) ∷ []))
run-new_circuit_breaker-IsValid_example =
    run-new_circuit_breaker-IsValid raw 0
      ((1, allows) ∷ (2, results bad_gateway) ∷ (3, results bad_gateway) ∷ (14, allows) ∷ [])

open_admits_none_example :
    admitted opened ((6, allows) ∷ (7, results bad_gateway) ∷ (9, allows) ∷ []) ≡ 0
open_admits_none_example =
    open_admits_none opened ((6, allows) ∷ (7, results bad_gateway) ∷ (9, allows) ∷ []) refl (
      (omega arith, omega arith, tt),
      ((omega arith, omega arith, tt), ((omega arith, omega arith, tt), tt)),
    )

abbrev raw_retry : RawRetryConfig
raw_retry = record {
  enabled = true;
  max_attempts = pos 0;
  base_backoff = pos 9;
  max_backoff = pos 3;
  jitter = pos 2000;
}

abbrev retry : RetryConfig
retry = record {
  enabled = true;
  max_attempts = 3;
  base_backoff = 100;
  max_backoff = 1000;
  jitter = 200;
}

in_range : (code : ℕ) → bad_gateway.response ≡ some code → (0 < code) × (code < 600)
in_range code h = ground arith

-- A server that fails twice.
abbrev env : Env
env = record {
  inner = λ k. record { response = some (502 + k); error = none };
  clock = λ k. k;
  draw = λ k. 0;
  is_done = λ k. false;
  interrupts = λ k d. false;
}

abbrev transport : RetryingTransport
transport = record { retry = retry; breaker = some closed }

round_trip_lem_example :
    ((admit (some closed) 0).1 ≡ false
      → round_trip transport env 0
        ≡ record { outcome = circuit_open; breaker = (admit (some closed) 0).0; sent = 0 })
    × ((admit (some closed) 0).1 ≡ true
        → (n : ℕ) × Tried retry env (admit (some closed) 0).0 (round_trip transport env 0) n)
round_trip_lem_example = round_trip_lem transport env 0 (omega arith)
