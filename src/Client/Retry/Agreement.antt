-- ===== src/Client/Retry/Agreement.antt =====
-- pkg/client/retry.go and breaker.go: the retry rule and the breaker's judgement of a result.
use go_es.Prelude.{ℕ, ◌<◌, ◌≡◌, not, none, some, arith, Text, refl}
use go_es.Client.Outcome.{Outcome}
use go_es.Client.Breaker.{is_success}
use go_es.Client.Retry.{should_retry, Option}

-- On every status from 1 to 599, and without a response or with an error, a result is retried
-- exactly when the breaker counts it as a failure.
pub should_retry-is_success :
    (o : Outcome)
    → ((code : ℕ) → o.response ≡ some code → (0 < code) × (code < 600))
    → should_retry o ≡ not (is_success o)
unfolding should_retry is_success
should_retry-is_success o h = go o.error o.response h
  where
    go :
        (e : Option Text) (r : Option ℕ)
        → ((code : ℕ) → r ≡ some code → (0 < code) × (code < 600))
        → should_retry (record { response = r; error = e })
          ≡ not (is_success (record { response = r; error = e }))
    go (some e) r h = refl
    go none none h = refl
    go none (some code) h = ground (arith, h code refl)
