-- ===== src/Search.antt =====
-- The searches, and what they show of the documents that a caller may not see.
pub mod Lexical
pub mod Vector
pub mod Federated
