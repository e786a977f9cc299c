-- ===== src/Query.antt =====
-- core/src/query.rs.
pub mod Fold
pub mod Ast
pub mod Matcher
pub mod Leaf
pub mod Truth
pub mod Keyword
pub mod Lexer
pub mod Parser
