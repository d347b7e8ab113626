-- ===== src/Client.antt =====
-- pkg/client: the circuit breaker, the back-off and the retrying transport.
pub mod Outcome
pub mod Breaker
pub mod Retry
pub mod Transport
mod Tests
