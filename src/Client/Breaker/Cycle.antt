-- ===== src/Client/Breaker/Cycle.antt =====
-- pkg/client/breaker.go: when the breaker opens, rejects, probes and closes.
use go_es.Prelude.{
  ℕ, ◌+◌, ◌≤◌, ◌<◌, ◌≡◌, refl, ◌↔◌, ◌⊎◌, Bool, true, false, List, [], ◌∷◌, All, length, arith, ◌∙◌,
  if◌then◌else◌,
}
use go_es.Client.Breaker.{
  CircuitBreaker, state_closed, state_open, state_half_open, allow, on_result_bool, on_result, Call,
  allows, results, reads, opens, resets, state_of, step,
}
use go_es.Client.Breaker.Invariant.{IsValid}

-- Results of one kind, reported at the given times.
pub report : Bool → CircuitBreaker → List ℕ → CircuitBreaker
report ok b [] = b
report ok b (t ∷ ts) = report ok (on_result_bool b ok t) ts

fail_closed :
    (b : CircuitBreaker) (t : ℕ)
    → b.state ≡ state_closed
    → b.failure + 1 < b.cfg.failure_threshold
    → ((on_result_bool b false t).state ≡ state_closed)
      × ((on_result_bool b false t).failure ≡ b.failure + 1)
      × ((on_result_bool b false t).cfg ≡ b.cfg)
unfolding on_result_bool
fail_closed b t e h = ground arith

fail_opens :
    (b : CircuitBreaker) (t : ℕ)
    → b.state ≡ state_closed
    → b.failure + 1 ≡ b.cfg.failure_threshold
    → ((on_result_bool b false t).state ≡ state_open) × ((on_result_bool b false t).opened_at ≡ t)
unfolding on_result_bool
fail_opens b t e h = ground arith

-- A closed breaker counts consecutive failures: below the threshold it stays closed.
report-false :
    (b : CircuitBreaker) (ts : List ℕ)
    → b.state ≡ state_closed
    → b.failure + length ts < b.cfg.failure_threshold
    → ((report false b ts).state ≡ state_closed)
      × ((report false b ts).failure ≡ b.failure + length ts)
      × ((report false b ts).cfg ≡ b.cfg)
unfolding report
report-false b [] e h = (e, omega arith, refl)
report-false b (t ∷ ts) e h =
    let (s, f, c) = fail_closed b t e (omega arith) in
    let (s', f', c') = report-false (on_result_bool b false t) ts s (rw (f, c) (omega arith)) in
    (s', f' ∙ rw f (omega arith), c' ∙ c)

-- A closed breaker without failures opens at the failure that reaches the threshold, and not
-- before: it is closed after any smaller number of consecutive failures.
pub opens_at_threshold :
    (b : CircuitBreaker) (ts : List ℕ) (t : ℕ)
    → b.state ≡ state_closed
    → b.failure ≡ 0
    → length ts + 1 ≡ b.cfg.failure_threshold
    → ((report false b ts).state ≡ state_closed)
      × ((on_result_bool (report false b ts) false t).state ≡ state_open)
      × ((on_result_bool (report false b ts) false t).opened_at ≡ t)
opens_at_threshold b ts t e z h =
    let (s, f, c) = report-false b ts e (omega arith) in
    let (o, a) = fail_opens (report false b ts) t s (rw (f, c) (omega arith)) in (s, o, a)

-- `Allow` admits a request exactly when the breaker is closed, or open with its window over, or half
-- open with a probe to spare.
pub allow_iff :
    (b : CircuitBreaker) (now : ℕ)
    → IsValid b
    → ((allow b now).1 ≡ true) ↔ (
        (b.state ≡ state_closed)
        ⊎ ((b.state ≡ state_open) × (b.opened_at + b.cfg.timeout ≤ now)
            ⊎ (b.state ≡ state_half_open) × (b.inflight < b.cfg.max_half_open_reqs)))
unfolding allow
allow_iff b now v = (λ h. ground arith, λ h. ground arith)

-- The number of requests that a sequence of calls admits.
pub admitted : CircuitBreaker → List (ℕ × Call) → ℕ
admitted b [] = 0
admitted b ((now, allows) ∷ calls) =
    (if (allow b now).1 then 1 else 0) + admitted (step b now allows) calls
admitted b ((now, call) ∷ calls) = admitted (step b now call) calls

-- A call that the client makes: not an operator's override, and within the window.
abbrev IsClientCall : Call → Type 0
IsClientCall allows = Unit
IsClientCall (results o) = Unit
IsClientCall reads = Unit
IsClientCall opens = ⊥
IsClientCall resets = ⊥

abbrev InWindow : ℕ → ℕ → ℕ × Call → Type 0
InWindow start finish (now, call) = (start ≤ now) × (now < finish) × IsClientCall call

abbrev IsOpenSince : ℕ → ℕ → CircuitBreaker → Type 0
IsOpenSince start finish b =
    (b.state ≡ state_open) × (start ≤ b.opened_at) × (finish ≤ b.opened_at + b.cfg.timeout)

step-open :
    (b : CircuitBreaker) (now start finish : ℕ) (call : Call)
    → IsOpenSince start finish b
    → InWindow start finish (now, call)
    → start + b.cfg.timeout ≡ finish
    → IsOpenSince start finish (step b now call)
      × ((allow b now).1 ≡ false)
      × ((step b now call).cfg ≡ b.cfg)
unfolding step allow on_result_bool on_result state_of
step-open b now start finish allows h w e = ground arith
step-open b now start finish (results o) h w e = ground arith
step-open b now start finish reads h w e = ground arith
step-open b now start finish opens h w e = absurd w.2
step-open b now start finish resets h w e = absurd w.2

admitted-open :
    (b : CircuitBreaker) (start finish : ℕ) (calls : List (ℕ × Call))
    → IsOpenSince start finish b
    → All (InWindow start finish) calls
    → start + b.cfg.timeout ≡ finish
    → admitted b calls ≡ 0
unfolding admitted
admitted-open b start finish [] h w e = refl
admitted-open b start finish ((now, allows) ∷ calls) h w e =
    let (h', r, c) = step-open b now start finish allows h w.0 e in
    let later : admitted (step b now allows) calls ≡ 0 =
      admitted-open (step b now allows) start finish calls h' w.1 (rw c e) in
    rw r (omega (arith, later))
admitted-open b start finish ((now, results o) ∷ calls) h w e =
    let (h', r, c) = step-open b now start finish (results o) h w.0 e in
    admitted-open (step b now (results o)) start finish calls h' w.1 (rw c e)
admitted-open b start finish ((now, reads) ∷ calls) h w e =
    let (h', r, c) = step-open b now start finish reads h w.0 e in
    admitted-open (step b now reads) start finish calls h' w.1 (rw c e)
admitted-open b start finish ((now, opens) ∷ calls) h w e = absurd w.0.2
admitted-open b start finish ((now, resets) ∷ calls) h w e = absurd w.0.2

-- A breaker that has opened admits no request until its timeout is over, whatever requests are made
-- and whatever results of earlier requests still come in, as long as no operator overrides it.
pub open_admits_none :
    (b : CircuitBreaker) (calls : List (ℕ × Call))
    → b.state ≡ state_open
    → All (InWindow b.opened_at (b.opened_at + b.cfg.timeout)) calls
    → admitted b calls ≡ 0
open_admits_none b calls e w =
    admitted-open b b.opened_at (b.opened_at + b.cfg.timeout) calls (e, omega arith, omega arith) w
      refl

succeed_half_open :
    (b : CircuitBreaker) (t : ℕ)
    → b.state ≡ state_half_open
    → b.success + 1 < b.cfg.success_threshold
    → ((on_result_bool b true t).state ≡ state_half_open)
      × ((on_result_bool b true t).success ≡ b.success + 1)
      × ((on_result_bool b true t).cfg ≡ b.cfg)
unfolding on_result_bool
succeed_half_open b t e h = ground arith

report-true :
    (b : CircuitBreaker) (ts : List ℕ)
    → b.state ≡ state_half_open
    → b.success + length ts < b.cfg.success_threshold
    → ((report true b ts).state ≡ state_half_open)
      × ((report true b ts).success ≡ b.success + length ts)
      × ((report true b ts).cfg ≡ b.cfg)
unfolding report
report-true b [] e h = (e, omega arith, refl)
report-true b (t ∷ ts) e h =
    let (s, f, c) = succeed_half_open b t e (omega arith) in
    let (s', f', c') = report-true (on_result_bool b true t) ts s (rw (f, c) (omega arith)) in
    (s', f' ∙ rw f (omega arith), c' ∙ c)

half_open_closes :
    (b : CircuitBreaker) (t : ℕ)
    → b.state ≡ state_half_open
    → b.success + 1 ≡ b.cfg.success_threshold
    → (on_result_bool b true t).state ≡ state_closed
unfolding on_result_bool
half_open_closes b t e h = ground arith

half_open_reopens :
    (b : CircuitBreaker) (t : ℕ)
    → b.state ≡ state_half_open
    → ((on_result_bool b false t).state ≡ state_open) × ((on_result_bool b false t).opened_at ≡ t)
unfolding on_result_bool
half_open_reopens b t e = ground arith

-- A half-open breaker without successes closes at the success that reaches the threshold; after any
-- smaller number of successes it is still half open, and one failure then opens it with a new
-- window.
pub closes_at_threshold :
    (b : CircuitBreaker) (ts : List ℕ) (t : ℕ)
    → b.state ≡ state_half_open
    → b.success ≡ 0
    → length ts + 1 ≡ b.cfg.success_threshold
    → ((report true b ts).state ≡ state_half_open)
      × ((on_result_bool (report true b ts) true t).state ≡ state_closed)
      × ((on_result_bool (report true b ts) false t).state ≡ state_open)
      × ((on_result_bool (report true b ts) false t).opened_at ≡ t)
closes_at_threshold b ts t e z h =
    let (s, f, c) = report-true b ts e (omega arith) in
    let (o, a) = half_open_reopens (report true b ts) t s in
    (s, half_open_closes (report true b ts) t s (rw (f, c) (omega arith)), o, a)
