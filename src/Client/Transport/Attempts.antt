-- ===== src/Client/Transport/Attempts.antt =====
-- pkg/client/transport.go: how many requests are sent, and which result is returned.
use go_es.Prelude.{
  ℕ, zero, suc, ◌+◌, ◌-◌, ◌≤◌, ◌<◌, ◌≡◌, refl, ◌⊎◌, inl, inr, true, false, Option, arith, ◌&&◌, ap,
  subst, Bool-cases, ◌∙◌,
}
use go_es.Client.Breaker.{CircuitBreaker}
use go_es.Client.Retry.{RetryConfig, should_retry}
use go_es.Client.Transport.{
  Env, Reply, RetryingTransport, notify, waits, attempts, attempt_limit, circuit_open, admit,
  round_trip,
}

-- The breaker after the results of `n` attempts from the given one on.
pub notify_all : Env → ℕ → ℕ → Option CircuitBreaker → Option CircuitBreaker
notify_all env zero attempt b = b
notify_all env (suc n) attempt b =
    notify_all env n (attempt + 1) (notify b (env.inner attempt) (env.clock attempt))

-- The attempt failed in a way that is retried, and the loop waits for the next one.
abbrev pub GoesOn : RetryConfig → Env → ℕ → Type 0
GoesOn cfg env k = (should_retry (env.inner k) ≡ true) × (waits cfg env k ≡ true)

-- What the loop has done when it stops after attempt `k`.
pub record Stopped (cfg : RetryConfig) (env : Env) (left attempt : ℕ) (b : Option CircuitBreaker)
    (r : Reply) (n : ℕ) : Type 0 where
  pub sent : r.sent ≡ attempt + n + 1
  pub outcome : r.outcome ≡ env.inner (attempt + n)
  pub breaker : r.breaker ≡ notify_all env (n + 1) attempt b
  pub within : n ≤ left
  pub earlier : (k : ℕ) → k < n → GoesOn cfg env (attempt + k)
  pub last :
      (n ≡ left) ⊎ ((should_retry (env.inner (attempt + n)) && waits cfg env (attempt + n)) ≡ false)

-- The loop stops at once.
stop_here :
    (cfg : RetryConfig) (env : Env) (left attempt : ℕ) (b : Option CircuitBreaker)
    → (0 ≡ left) ⊎ ((should_retry (env.inner attempt) && waits cfg env attempt) ≡ false)
    → Stopped cfg env left attempt b
        (record {
          outcome = env.inner attempt;
          breaker = notify b (env.inner attempt) (env.clock attempt);
          sent = attempt + 1;
        })
        0
unfolding notify_all
stop_here cfg env left attempt b h = record {
  sent = omega arith;
  outcome = ap env.inner here;
  breaker = refl;
  within = omega arith;
  earlier = λ k lt. absurd (omega arith);
  last =
      subst (λ (k : ℕ). (0 ≡ left) ⊎ ((should_retry (env.inner k) && waits cfg env k) ≡ false)) here
        h;
}
  where
    here : attempt ≡ attempt + 0
    here = omega arith

-- The loop goes on.
go_on :
    (cfg : RetryConfig) (env : Env) (left attempt : ℕ) (b : Option CircuitBreaker) (r : Reply)
    (n : ℕ)
    → GoesOn cfg env attempt
    → Stopped cfg env left (attempt + 1) (notify b (env.inner attempt) (env.clock attempt)) r n
    → Stopped cfg env (suc left) attempt b r (suc n)
unfolding notify_all
go_on cfg env left attempt b r n h s = record {
  sent = omega (arith, s.sent);
  outcome = s.outcome ∙ ap env.inner shift;
  breaker =
      s.breaker
      ∙ ap (λ (k : ℕ). notify_all env k attempt b) {x = suc (n + 1)} {y = suc n + 1} (omega arith);
  within = omega (arith, s.within);
  earlier = λ k lt. earlier k lt;
  last =
      subst
        (λ (k : ℕ). (suc n ≡ suc left) ⊎ ((should_retry (env.inner k) && waits cfg env k) ≡ false))
        shift last;
}
  where
    shift : attempt + 1 + n ≡ attempt + suc n
    shift = omega arith

    earlier : (k : ℕ) → k < suc n → GoesOn cfg env (attempt + k)
    earlier zero lt = subst (GoesOn cfg env) (omega arith) h
    earlier (suc k) lt = subst (GoesOn cfg env) (omega arith) (s.earlier k (omega arith))

    last :
        (suc n ≡ suc left)
        ⊎ ((should_retry (env.inner (attempt + 1 + n)) && waits cfg env (attempt + 1 + n)) ≡ false)
    last = elim s.last [ inl e ↦ inl (omega arith) | inr e ↦ inr e ]

attempts-Stopped :
    (cfg : RetryConfig) (env : Env) (left attempt : ℕ) (b : Option CircuitBreaker)
    → (n : ℕ) × Stopped cfg env left attempt b (attempts cfg env left attempt b) n
unfolding attempts
attempts-Stopped cfg env zero attempt b = (0, stop_here cfg env 0 attempt b (inl refl))
attempts-Stopped cfg env (suc left) attempt b =
    elim (Bool-cases (should_retry (env.inner attempt) && waits cfg env attempt)) [
      | inl more ↦
          let (n, s) =
            attempts-Stopped cfg env left (attempt + 1)
              (notify b (env.inner attempt) (env.clock attempt)) in
          rw more (suc n, go_on cfg env left attempt b _ n (ground arith) s)
      | inr done ↦ rw done (0, stop_here cfg env (suc left) attempt b (inr done))
    ]

-- What a call that was admitted with breaker `b` has done when it returned after attempt `n`.
pub record Tried (cfg : RetryConfig) (env : Env) (b : Option CircuitBreaker) (r : Reply) (n : ℕ)
    : Type 0 where
  pub sent : r.sent ≡ n + 1
  pub within : n + 1 ≤ attempt_limit cfg
  pub outcome : r.outcome ≡ env.inner n
  pub breaker : r.breaker ≡ notify_all env (n + 1) 0 b
  pub earlier : (k : ℕ) → k < n → GoesOn cfg env k
  pub last : (n + 1 ≡ attempt_limit cfg) ⊎ ((should_retry (env.inner n) && waits cfg env n) ≡ false)

attempts-Tried :
    (cfg : RetryConfig) (env : Env) (b : Option CircuitBreaker)
    → 0 < cfg.max_attempts
    → (n : ℕ) × Tried cfg env b (attempts cfg env (attempt_limit cfg - 1) 0 b) n
attempts-Tried cfg env b h =
    let (n, s) = attempts-Stopped cfg env (attempt_limit cfg - 1) 0 b in
    let limit : 0 < attempt_limit cfg = ground arith in
    let e : 0 + n ≡ n = omega arith in
    (
      n,
      record {
        sent = omega (arith, s.sent);
        within = omega (arith, s.within);
        outcome = s.outcome ∙ ap env.inner e;
        breaker = s.breaker;
        earlier = λ k lt. subst (GoesOn cfg env) (omega arith) (s.earlier k lt);
        last =
            subst
              (λ (k : ℕ).
                (n + 1 ≡ attempt_limit cfg)
                ⊎ ((should_retry (env.inner k) && waits cfg env k) ≡ false))
              e (elim s.last [ inl q ↦ inl (omega arith) | inr q ↦ inr q ]);
      },
    )

-- With at least one attempt allowed, a request that the breaker rejects is not sent and the caller
-- gets `ErrCircuitOpen`. Any other is sent at least once and at most as often as the limit allows:
-- every attempt before the last failed in a way that is retried and its wait was full; the loop
-- stopped at the limit, at a result that is not retried or when the context ended; the caller gets
-- the last result; and the breaker has been told of every result, in order.
pub round_trip_lem :
    (t : RetryingTransport) (env : Env) (now : ℕ)
    → 0 < t.retry.max_attempts
    → ((admit t.breaker now).1 ≡ false
        → round_trip t env now
          ≡ record { outcome = circuit_open; breaker = (admit t.breaker now).0; sent = 0 })
      × ((admit t.breaker now).1 ≡ true
          → (n : ℕ) × Tried t.retry env (admit t.breaker now).0 (round_trip t env now) n)
unfolding round_trip
round_trip_lem t env now h = (
  λ r. rw (r, round_trip),
  λ a. rw (a, round_trip) (attempts-Tried t.retry env (admit t.breaker now).0 h),
)
