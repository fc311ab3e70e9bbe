-- ===== src/Acl.antt =====
-- Access control lists (backend/app/acl).
pub mod Filter
pub mod Terms
pub mod Service
pub mod Inheritance
pub mod Compiler
