-- ===== src/Client/Breaker/Invariant.antt =====
-- pkg/client/breaker.go: the counters stay within the thresholds.
use go_es.Prelude.{ℕ, ◌*◌, ◌≤◌, ◌<◌, Bool, List, [], ◌∷◌, arith}
use go_es.Prelude.Int.{ℤ, pos, negsuc}
use go_es.Client.Breaker.{
  RawBreakerConfig, BreakerState, CircuitBreaker, state_closed, state_open, state_half_open, second,
  positive_or, new_circuit_breaker, tick_state, allow, on_result_bool, on_result, force_open,
  force_reset, state_of, is_success, Call, allows, results, reads, opens, resets, step, run,
}

-- Closed, fewer failures than open it; half open, fewer successes than close it, and no more probes
-- under way than allowed.
abbrev pub WithinState : CircuitBreaker → BreakerState → Type 0
WithinState b state_closed = b.failure < b.cfg.failure_threshold
WithinState b state_open = Unit
WithinState b state_half_open =
    (b.inflight ≤ b.cfg.max_half_open_reqs) × (b.success < b.cfg.success_threshold)

pub record IsValid (b : CircuitBreaker) : Type 0 where
  pub failures : 0 < b.cfg.failure_threshold
  pub window : 0 < b.cfg.timeout
  pub successes : 0 < b.cfg.success_threshold
  pub probes : 0 < b.cfg.max_half_open_reqs
  pub within : WithinState b b.state

pub positive_or_pos : (d : ℕ) (x : ℤ) → 0 < d → 0 < positive_or d x
positive_or_pos d (pos n) h = ground arith
positive_or_pos d (negsuc n) h = h

new_circuit_breaker-IsValid :
    (cfg : RawBreakerConfig) (now : ℕ) → IsValid (new_circuit_breaker cfg now)
unfolding new_circuit_breaker
new_circuit_breaker-IsValid cfg now = record {
  failures = positive_or_pos 5 cfg.failure_threshold (omega arith);
  window = positive_or_pos (30 * second) cfg.timeout (omega arith);
  successes = positive_or_pos 2 cfg.success_threshold (omega arith);
  probes = positive_or_pos 1 cfg.max_half_open_reqs (omega arith);
  within = positive_or_pos 5 cfg.failure_threshold (omega arith);
}

tick_state-IsValid : (b : CircuitBreaker) (now : ℕ) → IsValid b → IsValid (tick_state b now)
unfolding tick_state
tick_state-IsValid b now v = ground arith

allow-IsValid : (b : CircuitBreaker) (now : ℕ) → IsValid b → IsValid (allow b now).0
unfolding allow
allow-IsValid b now v = ground arith

on_result_bool-IsValid :
    (b : CircuitBreaker) (ok : Bool) (now : ℕ) → IsValid b → IsValid (on_result_bool b ok now)
unfolding on_result_bool
on_result_bool-IsValid b ok now v = ground arith

force_open-IsValid : (b : CircuitBreaker) (now : ℕ) → IsValid b → IsValid (force_open b now)
unfolding force_open
force_open-IsValid b now v = ground arith

force_reset-IsValid : (b : CircuitBreaker) (now : ℕ) → IsValid b → IsValid (force_reset b now)
unfolding force_reset
force_reset-IsValid b now v = ground arith

step-IsValid : (b : CircuitBreaker) (now : ℕ) (call : Call) → IsValid b → IsValid (step b now call)
unfolding step state_of on_result
step-IsValid b now allows v = allow-IsValid b now v
step-IsValid b now (results o) v = on_result_bool-IsValid b (is_success o) now v
step-IsValid b now reads v = tick_state-IsValid b now v
step-IsValid b now opens v = force_open-IsValid b now v
step-IsValid b now resets v = force_reset-IsValid b now v

run-IsValid : (b : CircuitBreaker) (calls : List (ℕ × Call)) → IsValid b → IsValid (run b calls)
unfolding run
run-IsValid b [] v = v
run-IsValid b ((now, call) ∷ calls) v =
    run-IsValid (step b now call) calls (step-IsValid b now call v)

-- Whatever configuration is given and whatever calls are made at whatever times, the counters of
-- the breaker stay within its thresholds: closed, it has fewer failures than open it; half open, at
-- most the allowed number of probes are under way and fewer successes than close it.
pub run-new_circuit_breaker-IsValid :
    (cfg : RawBreakerConfig) (now : ℕ) (calls : List (ℕ × Call))
    → IsValid (run (new_circuit_breaker cfg now) calls)
run-new_circuit_breaker-IsValid cfg now calls =
    run-IsValid (new_circuit_breaker cfg now) calls (new_circuit_breaker-IsValid cfg now)
