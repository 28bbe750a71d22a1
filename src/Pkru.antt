-- ===== src/Pkru.antt =====
-- Runtime/provsan_utils.cpp and provsan_utils.h: the PKRU register, two bits of access rights for
-- each of the sixteen protection keys. The register is a number below 2 ^ 32; the `errno` that a
-- refused call sets is never read by the program.
pub mod Slots
pub mod Rights
pub mod Offset
use ia2_provsan.Base.{ℕ, ◌+◌, ◌-◌, ◌*◌, ◌/◌, ◌%◌, ◌^◌, bit_and, bit_or, Bool, ◌&&◌, ◌||◌, not}
use ia2_provsan.Base.{leb, ltb, if◌then◌else◌}
use ia2_provsan.Base.Int.{ℤ, pos, negsuc, is_nonneg, magnitude}

abbrev pub pkey_enable_access : ℕ
pkey_enable_access = 0

abbrev pub pkey_disable_access : ℕ
pkey_disable_access = 1

abbrev pub pkey_disable_write : ℕ
pkey_disable_write = 2

-- `key < 0 || key > 15`
abbrev pub key_refused : ℤ → Bool
key_refused key = not (is_nonneg key) || ltb 15 (magnitude key)

-- The rights of a key, or -1.
unfoldable pub pkey_get : ℕ → ℤ → ℤ
pkey_get pkru key =
    if key_refused key then negsuc 0 else pos (bit_and (pkru / 2 ^ (2 * magnitude key)) 3)

-- `unsigned int mask = 3 << (2 * key)`
abbrev pub slot_mask : ℕ → ℕ
slot_mask key = 3 * 2 ^ (2 * key) % 2 ^ 32

-- The value stored in `*pkru`: `(*pkru & ~mask) | (rights << (2 * key))`.
unfoldable pub store_rights : ℕ → ℕ → ℕ → ℕ
store_rights pkru key rights =
    bit_or (bit_and pkru (2 ^ 32 - 1 - slot_mask key)) (rights * 2 ^ (2 * key) % 2 ^ 32)

-- The returned status, 0 or -1, and the register.
unfoldable pub pkey_set : ℕ → ℤ → ℕ → ℤ × ℕ
pkey_set pkru key rights =
    if key_refused key || ltb 3 rights
    then (negsuc 0, pkru)
    else (pos 0, store_rights pkru (magnitude key) rights)
