-- ===== src/Sql.antt =====
-- pkg/sqldsl/sqldsl.go: from SQL to the query DSL.
pub mod Token
pub mod Syntax
pub mod Parser
pub mod Translate
pub mod Select
pub mod Lexing
pub mod Meaning
pub mod Printing
pub mod Losses
pub mod Termination
pub mod Statement
pub mod Precedence
pub mod Grammar
mod Tests
