-- ===== src/Queryfilter.antt =====
-- app/components/queryfilter: RSQL filters (`q=`) and sort lists (`s=`), from the text of a request
-- to a database scope and an in-memory pass.
pub mod Syntax
pub mod Unicode
pub mod Sort
pub mod Schema
pub mod Conditions
pub mod Memory
pub mod Semantics
pub mod Lexer
pub mod Parser
pub mod Request
