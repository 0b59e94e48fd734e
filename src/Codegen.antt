-- ===== src/Codegen.antt =====
-- hsmc-macros/src/codegen.rs: the tables that `generate` computes from the IR.
pub mod Walks
pub mod Tables
pub mod Dispatch
pub mod Hash
pub mod Checks
pub mod Durings
pub mod Generate
pub mod Text
