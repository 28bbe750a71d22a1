-- ===== src/Containers.antt =====
-- The containers of the C++ library, as far as the runtime and the passes use them.
pub mod Sorted
pub mod Hashed
