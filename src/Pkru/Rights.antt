-- ===== src/Pkru/Rights.antt =====
-- What the two register operations of provsan_utils.cpp promise their callers.
use ia2_provsan.Base.{ℕ, ◌^◌, ◌<◌, ◌≡◌, refl, ◌≢◌, ◌⊎◌, inl, inr}
use ia2_provsan.Base.{true, ◌||◌, arith, Bool-cases, ltb}
use ia2_provsan.Base.Int.{ℤ, pos, negsuc, to_u32}
use ia2_provsan.Pkru.{pkey_get, pkey_set}
use ia2_provsan.Pkru.Slots.{
  slot, put_slot, slot-shift, slot-lt, store_rights-put_slot, slot-put_slot_self, slot-put_slot_ne,
  put_slot-restore, put_slot-word,
}

-- A key of the register, and rights that fit its two bits.
pub record IsAccess (key rights : ℕ) : Type 0 where
  pub key_small : key < 16
  pub rights_small : rights < 4

pub pkey_get-slot : (pkru key : ℕ) → key < 16 → pkey_get pkru (pos key) ≡ pos (slot pkru key)
unfolding pkey_get
pkey_get-slot pkru key h = ground (arith, slot-shift pkru key)

pub pkey_set-put_slot :
    (pkru key rights : ℕ)
    → pkru < 2 ^ 32
    → IsAccess key rights
    → pkey_set pkru (pos key) rights ≡ (pos 0, put_slot pkru key rights)
unfolding pkey_set
pkey_set-put_slot pkru key rights word access =
    ground (arith, store_rights-put_slot pkru key rights word access.key_small access.rights_small)

-- For a 32-bit register and a key and rights in range, `pkey_set` returns 0 and a 32-bit register
-- in which the key has these rights and every other key the rights that it had.
pub pkey_get-pkey_set :
    (pkru key rights : ℕ)
    → pkru < 2 ^ 32
    → IsAccess key rights
    → let result = pkey_set pkru (pos key) rights in
      (result.0 ≡ pos 0)
      × (result.1 < 2 ^ 32)
      × (pkey_get result.1 (pos key) ≡ pos rights)
      × ((other : ℕ)
          → other < 16
          → other ≢ key
          → pkey_get result.1 (pos other) ≡ pkey_get pkru (pos other))
pkey_get-pkey_set pkru key rights word access = rw (pkey_set-put_slot pkru key rights word access) (
  refl,
  put_slot-word pkru key rights word access.key_small access.rights_small,
  rw (pkey_get-slot _ key access.key_small, slot-put_slot_self pkru key rights access.rights_small),
  λ other small ne. rw (
    pkey_get-slot _ other small,
    pkey_get-slot pkru other small,
    slot-put_slot_ne pkru key other rights access.rights_small ne,
  ),
)

-- For a 32-bit register, storing the rights that `pkey_get` read, after any other rights in range
-- were stored for the same key, gives back the register bit for bit.
pub pkey_set-restore :
    (pkru key rights : ℕ)
    → pkru < 2 ^ 32
    → IsAccess key rights
    → (pkey_set (pkey_set pkru (pos key) rights).1 (pos key) (to_u32 (pkey_get pkru (pos key)))).1
      ≡ pkru
pkey_set-restore pkru key rights word access =
    let read : to_u32 (pkey_get pkru (pos key)) ≡ slot pkru key =
      rw (pkey_get-slot pkru key access.key_small) (omega (arith, slot-lt pkru key)) in
    rw (
      read,
      pkey_set-put_slot pkru key rights word access,
      pkey_set-put_slot (put_slot pkru key rights) key (slot pkru key)
          (put_slot-word pkru key rights word access.key_small access.rights_small)
          (record { key_small = access.key_small; rights_small = slot-lt pkru key }),
      put_slot-restore pkru key rights access.rights_small,
    )

accepted_key :
    (n k rights : ℕ) → pos n ≡ pos k → IsAccess k rights → (ltb 15 n || ltb 3 rights) ≡ true → ⊥
accepted_key n k rights e access refused =
    let same : n ≡ k = cc in
    let key = access.key_small in let r = access.rights_small in ground arith

-- A call of `pkey_set` either returns 0, on a key from 0 to 15 and rights up to 3, or returns -1
-- and leaves the register alone, and then the key lies outside 0 to 15 or the rights exceed 3.
pub pkey_set_cases :
    (pkru : ℕ) (key : ℤ) (rights : ℕ)
    → ((k : ℕ) × (key ≡ pos k) × IsAccess k rights × ((pkey_set pkru key rights).0 ≡ pos 0))
      ⊎ (((k : ℕ) → key ≡ pos k → ¬ IsAccess k rights)
          × (pkey_set pkru key rights ≡ (negsuc 0, pkru)))
unfolding pkey_set
pkey_set_cases pkru (negsuc n) rights = inr (λ k e. cc, refl)
pkey_set_cases pkru (pos n) rights = elim (Bool-cases (ltb 15 n || ltb 3 rights)) [
  | inl refused ↦ inr (λ k e access. absurd (accepted_key n k rights e access refused), rw refused)
  | inr accepted ↦
      inl (n, refl, record { key_small = ground arith; rights_small = ground arith }, rw accepted)
]
