-- ===== src/Server.antt =====
-- internal/server: the document write path, its guards and the router.
pub mod Access
pub mod Alias
pub mod Coordinator
pub mod Guards
pub mod Keys
pub mod Optimistic
pub mod Pattern
pub mod Router
pub mod Segment
mod Tests
