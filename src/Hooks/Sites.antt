-- ===== src/Hooks/Sites.antt =====
-- The constructor's assertions as the hooks meet them, and the runtime's live sites.
use ia2_provsan.Base.{ℕ, ◌+◌, ◌^◌, ◌≤◌, ◌<◌, ◌≡◌, String, Bool, false, arith}
use ia2_provsan.Base.{◌⊎◌, inl, inr, Bool-cases, ltb, [], ◌∷◌}
use ia2_provsan.Base.Int.{pos}
use ia2_provsan.Base.Outcome.{ok}
use ia2_provsan.Containers.Sorted.{Sorted}
use ia2_provsan.Site.{AllocSite, new_site, is_valid, contains_ptr}
use ia2_provsan.Handler.Blocks.{IsLive, Packed, IsFree, bytes, contains_ptr_live, live_positive}
use ia2_provsan.Handler.Search.{owner}
use ia2_provsan.Hooks.{Runtime, get_or_init}

-- The site that the constructor makes of arguments in range.
abbrev pub made : ℕ → ℕ → ℕ → String → String → Bool → AllocSite
made ptr n id bb_name func_name is_realloc = record {
  ptr = ptr;
  size = pos n;
  local_id = pos id;
  bb_name = bb_name;
  func_name = func_name;
  pkey = 0;
  is_realloc = is_realloc;
}

-- A block that ends below 2 ^ 64, not at the null pointer and not empty.
pub record IsRange (ptr n : ℕ) : Type 0 where
  pub nonnull : 0 < ptr
  pub nonempty : 0 < n
  pub below : ptr + n < 2 ^ 64

pub new_site-made :
    (ptr n id : ℕ) (bb_name func_name : String) (is_realloc : Bool)
    → IsRange ptr n
    → new_site ptr (pos n) (pos id) bb_name func_name 0 is_realloc
      ≡ ok (made ptr n id bb_name func_name is_realloc)
unfolding new_site
new_site-made ptr n id bb_name func_name is_realloc range = ground arith

pub made-IsLive :
    (ptr n id : ℕ) (bb_name func_name : String) (is_realloc : Bool)
    → IsRange ptr n
    → IsLive ptr (made ptr n id bb_name func_name is_realloc)
unfolding is_valid
made-IsLive ptr n id bb_name func_name is_realloc range = ground arith

-- The map behind the handler, empty before the first hook.
unfoldable pub sites : Runtime → Sorted AllocSite
unfolding get_or_init
sites rt = (get_or_init rt).0.allocation_map

-- No live site has an address of the range.
abbrev pub IsVacant : (ℕ → AllocSite) → ℕ → ℕ → Type 0
IsVacant view ptr n = (p : ℕ) → ptr ≤ p → p < ptr + n → is_valid (view p) ≡ false

overlap :
    (k n j t : ℕ)
    → 0 < n
    → 0 < t
    → ((k + n ≤ j) ⊎ (j + t ≤ k)) ⊎ ((p : ℕ) × (k ≤ p) × (p < k + n) × (j ≤ p) × (p < j + t))
overlap k n j t hn ht = elim (Bool-cases (ltb k j)) [
  | inl left ↦ elim (Bool-cases (ltb j (k + n))) [
    | inl meet ↦ inr (j, ground arith, ground arith, ground arith, ground arith)
    | inr apart ↦ inl (inl (ground arith))
  ]
  | inr right ↦ elim (Bool-cases (ltb k (j + t))) [
    | inl meet ↦ inr (k, ground arith, ground arith, ground arith, ground arith)
    | inr apart ↦ inl (inr (ground arith))
  ]
]

-- A range of addresses that no site has meets no site of the map.
pub IsVacant-IsFree :
    (lo k n : ℕ) (m : Sorted AllocSite)
    → 0 < n
    → Packed lo m
    → IsVacant (owner m) k n
    → IsFree k n m
unfolding owner
IsVacant-IsFree lo k n [] h packed vacant = tt
IsVacant-IsFree lo k n ((j, s) ∷ m) h (order, live, rest) vacant = (
  elim (overlap k n j (bytes s) h (live_positive j s live)) [
    | inl apart ↦ apart
    | inr (p, low, high, from, upto) ↦ absurd (hit p (vacant p low high) from upto)
  ],
  IsVacant-IsFree (j + bytes s) k n m h rest (λ p low high. later p (vacant p low high)),
)
  where
    hit : (p : ℕ) → is_valid (owner ((j, s) ∷ m) p) ≡ false → j ≤ p → p < j + bytes s → ⊥
    hit p v from upto = ground (arith, contains_ptr_live j s p live)

    later : (p : ℕ) → is_valid (owner ((j, s) ∷ m) p) ≡ false → is_valid (owner m p) ≡ false
    later p v = elim (Bool-cases (contains_ptr s p)) [
      | inl inside ↦ absurd (ground (arith, live.valid))
      | inr outside ↦ ground arith
    ]
