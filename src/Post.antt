-- ===== src/Post.antt =====
-- Passes/DynUntrustedAllocPost: the pass that numbers the hooks and reports the faulting
-- allocation sites of a profile.
pub mod Profile
pub mod FaultMap
pub mod Ir
pub mod Number
pub mod Patch
pub mod Removal
pub mod Run
pub mod Report
