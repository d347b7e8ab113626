-- ===== src/Client/Outcome.antt =====
-- What a `RoundTrip` returns: a response, of which only the status is read, and an error.
use go_es.Prelude.{ℕ, Option, Text}

pub record Outcome : Type 0 where
  pub response : Option ℕ
  pub error : Option Text
