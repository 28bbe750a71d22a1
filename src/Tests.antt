-- ===== src/Tests.antt =====
-- The theorems at concrete inputs, and runs of the model.
mod Registers
mod Heap
mod Faults
mod Passes
mod Profiles
mod Hooks
mod Environment
mod Removal
mod Reports
mod Races
mod Rebuilds
mod Sessions
mod Cycles
