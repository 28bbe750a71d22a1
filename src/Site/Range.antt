-- ===== src/Site/Range.antt =====
-- AllocSite: equality with its hash, and the range of addresses of a site.
use ia2_provsan.Base.{ℕ, ◌+◌, ◌^◌, ◌≤◌, ◌<◌, ◌≡◌, refl, ◌↔◌, String, true, false, arith}
use ia2_provsan.Base.{str_eq_iff}
use ia2_provsan.Base.Int.{ℤ, pos, int_eq_iff}
use ia2_provsan.Site.{AllocSite, contains_ptr, same_site, hash_site, add_pkey}

-- What `operator==` compares.
pub record SameKey (a b : AllocSite) : Type 0 where
  pub func_name : a.func_name ≡ b.func_name
  pub bb_name : a.bb_name ≡ b.bb_name
  pub local_id : a.local_id ≡ b.local_id

pub same_site_iff : (a b : AllocSite) → (same_site a b ≡ true) ↔ SameKey a b
unfolding same_site
same_site_iff a b = ground (
  arith,
  str_eq_iff a.func_name b.func_name,
  str_eq_iff a.bb_name b.bb_name,
  int_eq_iff a.local_id b.local_id,
)

pub same_site_refl : (a : AllocSite) → same_site a a ≡ true
same_site_refl a =
    (same_site_iff a a).1 (record { func_name = refl; bb_name = refl; local_id = refl })

pub same_site_trans :
    (a b c : AllocSite) → same_site a b ≡ true → same_site b c ≡ true → same_site a c ≡ true
same_site_trans a b c p q =
    let f = (same_site_iff a b).0 p in
    let g = (same_site_iff b c).0 q in
    (same_site_iff a c).1 (record { func_name = cc; bb_name = cc; local_id = cc })

pub same_site_symm : (a b : AllocSite) → same_site a b ≡ true → same_site b a ≡ true
same_site_symm a b p =
    let f = (same_site_iff a b).0 p in
    (same_site_iff b a).1 (record { func_name = cc; bb_name = cc; local_id = cc })

-- Sites that `operator==` identifies have one hash, whatever the library's hashes of strings and
-- of integers are, also after `addPkey`.
pub hash_site-same_site :
    (hash_string : String → ℕ) (hash_int : ℤ → ℕ) (a b : AllocSite) (fault_pkey : ℕ)
    → same_site a b ≡ true
    → hash_site hash_string hash_int a ≡ hash_site hash_string hash_int (add_pkey b fault_pkey)
unfolding hash_site
hash_site-same_site hash_string hash_int a b fault_pkey h =
    let key = (same_site_iff a b).0 h in rw (key.func_name, key.bb_name, key.local_id)

-- The site has `bytes` bytes, at least one, and they end below 2 ^ 64.
pub record IsBlock (s : AllocSite) (bytes : ℕ) : Type 0 where
  pub sized : s.size ≡ pos bytes
  pub nonempty : 0 < bytes
  pub below : s.ptr + bytes < 2 ^ 64

pub contains_ptr-range :
    (s : AllocSite) (bytes p : ℕ)
    → IsBlock s bytes
    → (contains_ptr s p ≡ true) ↔ ((s.ptr ≤ p) × (p < s.ptr + bytes))
unfolding contains_ptr
contains_ptr-range s bytes p block = rw block.sized (ground arith)

-- A site whose end passes the largest address, with an address below 2 ^ 64 and a size below
-- 2 ^ 63, contains no address at all.
pub contains_ptr_wraps :
    (s : AllocSite) (bytes p : ℕ)
    → s.size ≡ pos bytes
    → s.ptr < 2 ^ 64
    → bytes < 2 ^ 63
    → 2 ^ 64 ≤ s.ptr + bytes
    → contains_ptr s p ≡ false
unfolding contains_ptr
contains_ptr_wraps s bytes p sized address small wraps = rw sized (ground arith)
