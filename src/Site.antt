-- ===== src/Site.antt =====
-- The class AllocSite of Runtime/alloc_site_handler.h and its std::hash: the metadata of one
-- allocation. A `rust_ptr` is an address below 2 ^ 64, the null pointer is 0; `int64_t` fields
-- are integers. Assertions are on, as the build files never define NDEBUG.
pub mod Range
use ia2_provsan.Base.{ℕ, zero, suc, ◌+◌, ◌*◌, ◌/◌, ◌%◌, ◌^◌, bit_xor, String, Bool, true, false}
use ia2_provsan.Base.{◌&&◌, not, ◌≡◌, ltb, leb, ◌==◌, str_eq}
use ia2_provsan.Base.Int.{ℤ, pos, negsuc, is_nonneg, is_positive, int_eq, to_u64}
use ia2_provsan.Base.Outcome.{Outcome, ok, require, ◌>>=◌, ◌>>◌}

pub record AllocSite : Type 0 where
  pub ptr : ℕ
  pub size : ℤ
  pub local_id : ℤ
  pub bb_name : String
  pub func_name : String
  pub pkey : ℕ
  pub is_realloc : Bool

-- `AllocSite::error()`, the private default constructor.
abbrev pub error : AllocSite
error = record {
  ptr = 0;
  size = negsuc 0;
  local_id = negsuc 0;
  bb_name = "";
  func_name = "";
  pkey = 0;
  is_realloc = false;
}

-- The public constructor, with its three assertions.
unfoldable pub new_site : ℕ → ℤ → ℤ → String → String → ℕ → Bool → Outcome AllocSite
new_site ptr size local_id bb_name func_name pkey is_realloc = do
  require (not (ptr == 0))
  require (is_positive size)
  require (is_nonneg local_id)
  ok (record {
    ptr = ptr;
    size = size;
    local_id = local_id;
    bb_name = bb_name;
    func_name = func_name;
    pkey = pkey;
    is_realloc = is_realloc;
  })

-- `ptr + size`, which wraps.
abbrev pub end_ptr : AllocSite → ℕ
end_ptr s = (s.ptr + to_u64 s.size) % 2 ^ 64

unfoldable pub contains_ptr : AllocSite → ℕ → Bool
contains_ptr s p = leb s.ptr p && ltb p (end_ptr s)

unfoldable pub is_valid : AllocSite → Bool
is_valid s = not (s.ptr == 0) && is_positive s.size && is_nonneg s.local_id

-- `addPkey`
abbrev pub add_pkey : AllocSite → ℕ → AllocSite
add_pkey s fault_pkey = record s { pkey = fault_pkey }

-- `operator==`
unfoldable pub same_site : AllocSite → AllocSite → Bool
same_site a b =
    str_eq a.func_name b.func_name && str_eq a.bb_name b.bb_name && int_eq a.local_id b.local_id

-- `std::hash<AllocSite>`, over the library's hashes of strings and of int64_t.
module _ (hash_string : String → ℕ) (hash_int : ℤ → ℕ) where
  unfoldable pub hash_site : AllocSite → ℕ
  hash_site s =
      bit_xor (bit_xor (hash_string s.func_name) (hash_string s.bb_name * 2 % 2 ^ 64) / 2)
        (hash_int s.local_id * 2 % 2 ^ 64)
