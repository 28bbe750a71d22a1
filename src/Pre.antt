-- ===== src/Pre.antt =====
-- Passes/DynUntrustedAllocPre: the pass that puts a hook behind each call of an allocation function.
pub mod Env
pub mod Hooks
pub mod Run
