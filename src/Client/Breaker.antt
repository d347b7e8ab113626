-- ===== src/Client/Breaker.antt =====
-- pkg/client/breaker.go: the circuit breaker. The mutex serialises the methods; each takes the time
-- that it reads from the clock, in nanoseconds. A negative difference of times is below every
-- timeout, so `now.Sub(opened) >= timeout` is written without subtraction.
pub mod Invariant
pub mod Cycle
use go_es.Prelude.{
  ℕ, ◌+◌, ◌-◌, ◌*◌, Bool, true, false, not, ◌&&◌, Option, none, some, List, [], ◌∷◌, leb, ltb,
  nat_eq, if◌then◌else◌,
}
use go_es.Prelude.Int.{ℤ, pos, negsuc}
use go_es.Client.Outcome.{Outcome}

pub data BreakerState : Type 0 where
  state_closed state_open state_half_open : BreakerState

-- The configuration that the caller gives.
pub record RawBreakerConfig : Type 0 where
  pub enabled : Bool
  pub failure_threshold : ℤ
  pub timeout : ℤ
  pub success_threshold : ℤ
  pub max_half_open_reqs : ℤ

-- The configuration once the defaults are in.
pub record BreakerConfig : Type 0 where
  pub enabled : Bool
  pub failure_threshold : ℕ
  pub timeout : ℕ
  pub success_threshold : ℕ
  pub max_half_open_reqs : ℕ

abbrev pub second : ℕ
second = 1_000_000_000

-- `if x <= 0 { x = d }`.
abbrev pub positive_or : ℕ → ℤ → ℕ
positive_or d (pos n) = if nat_eq n 0 then d else n
positive_or d (negsuc n) = d

pub apply_defaults : RawBreakerConfig → BreakerConfig
apply_defaults c = record {
  enabled = c.enabled;
  failure_threshold = positive_or 5 c.failure_threshold;
  timeout = positive_or (30 * second) c.timeout;
  success_threshold = positive_or 2 c.success_threshold;
  max_half_open_reqs = positive_or 1 c.max_half_open_reqs;
}

pub record CircuitBreaker : Type 0 where
  pub cfg : BreakerConfig
  pub state : BreakerState
  pub failure : ℕ
  pub success : ℕ
  pub inflight : ℕ
  pub opened_at : ℕ
  pub last_state : ℕ

pub new_circuit_breaker : RawBreakerConfig → ℕ → CircuitBreaker
unfolding apply_defaults
new_circuit_breaker cfg now = record {
  cfg = apply_defaults cfg;
  state = state_closed;
  failure = 0;
  success = 0;
  inflight = 0;
  opened_at = 0;
  last_state = now;
}

abbrev pub same_state : BreakerState → BreakerState → Bool
same_state state_closed state_closed = true
same_state state_open state_open = true
same_state state_half_open state_half_open = true
same_state _ _ = false

abbrev pub is_open : BreakerState → Bool
is_open s = same_state s state_open

-- `transitionNoLock`
unfoldable pub transition : CircuitBreaker → BreakerState → ℕ → CircuitBreaker
transition b next now = if same_state b.state next then b else record b {
  state = next;
  last_state = now;
  opened_at = if is_open next then now else b.opened_at;
}

-- `tickStateNoLock`
unfoldable pub tick_state : CircuitBreaker → ℕ → CircuitBreaker
unfolding transition
tick_state b now =
    if is_open b.state && leb (b.opened_at + b.cfg.timeout) now
    then record (transition b state_half_open now) { success = 0; inflight = 0 }
    else b

allow_ticked : CircuitBreaker → BreakerState → CircuitBreaker × Bool
allow_ticked b state_closed = (b, true)
allow_ticked b state_open = (b, false)
allow_ticked b state_half_open =
    if leb b.cfg.max_half_open_reqs b.inflight
    then (b, false)
    else (record b { inflight = b.inflight + 1 }, true)

unfoldable pub allow : CircuitBreaker → ℕ → CircuitBreaker × Bool
unfolding allow_ticked tick_state
allow b now = let t = tick_state b now in allow_ticked t t.state

-- The judgement of `OnResult`.
unfoldable pub is_success : Outcome → Bool
is_success o = elim o.error [
  | none ↦ elim o.response [ none ↦ false | some code ↦ ltb code 500 && not (nat_eq code 429) ]
  | some e ↦ false
]

result_closed : CircuitBreaker → Bool → ℕ → CircuitBreaker
unfolding transition
result_closed b true now = record b { failure = 0 }
result_closed b false now =
    let failed : CircuitBreaker = record b { failure = b.failure + 1 } in
    if leb b.cfg.failure_threshold (b.failure + 1) then transition failed state_open now else failed

-- The decrement stops at 0, as the guard of the source makes it.
result_half_open : CircuitBreaker → Bool → ℕ → CircuitBreaker
unfolding transition
result_half_open b false now =
    record (transition (record b { inflight = b.inflight - 1 }) state_open now) { success = 0 }
result_half_open b true now =
    let probed : CircuitBreaker = record b { inflight = b.inflight - 1; success = b.success + 1 } in
    if leb b.cfg.success_threshold (b.success + 1)
    then record (transition probed state_closed now) { failure = 0; success = 0; inflight = 0 }
    else probed

result_ticked : CircuitBreaker → BreakerState → Bool → ℕ → CircuitBreaker
unfolding result_closed result_half_open
result_ticked b state_closed ok now = result_closed b ok now
result_ticked b state_open ok now = if ok then b else record b { opened_at = now }
result_ticked b state_half_open ok now = result_half_open b ok now

-- `onResultBool`
unfoldable pub on_result_bool : CircuitBreaker → Bool → ℕ → CircuitBreaker
unfolding result_ticked tick_state
on_result_bool b ok now = let t = tick_state b now in result_ticked t t.state ok now

unfoldable pub on_result : CircuitBreaker → Outcome → ℕ → CircuitBreaker
unfolding is_success on_result_bool
on_result b o now = on_result_bool b (is_success o) now

unfoldable pub force_open : CircuitBreaker → ℕ → CircuitBreaker
unfolding transition
force_open b now = transition b state_open now

unfoldable pub force_reset : CircuitBreaker → ℕ → CircuitBreaker
unfolding transition
force_reset b now = record (transition b state_closed now) {
  failure = 0;
  success = 0;
  inflight = 0;
}

-- `State` and `Stats` tick before they read.
unfoldable pub state_of : CircuitBreaker → ℕ → CircuitBreaker × BreakerState
unfolding tick_state
state_of b now = let t = tick_state b now in (t, t.state)

pub record BreakerStats : Type 0 where
  pub state : BreakerState
  pub failure : ℕ
  pub success : ℕ
  pub inflight : ℕ
  pub open_for : ℕ

unfoldable pub stats : CircuitBreaker → ℕ → CircuitBreaker × BreakerStats
unfolding tick_state
stats b now =
    let t = tick_state b now in
    (
      t,
      record {
        state = t.state;
        failure = t.failure;
        success = t.success;
        inflight = t.inflight;
        open_for = if is_open t.state then now - t.opened_at else 0;
      },
    )

-- A call on the breaker.
pub data Call : Type 0 where
  allows : Call
  results : Outcome → Call
  reads opens resets : Call

unfoldable pub step : CircuitBreaker → ℕ → Call → CircuitBreaker
unfolding allow on_result state_of force_open force_reset
step b now allows = (allow b now).0
step b now (results o) = on_result b o now
step b now reads = (state_of b now).0
step b now opens = force_open b now
step b now resets = force_reset b now

-- The calls stand with their times.
unfoldable pub run : CircuitBreaker → List (ℕ × Call) → CircuitBreaker
run b [] = b
run b ((now, call) ∷ calls) = run (step b now call) calls
