-- ===== src/Handler/Blocks.antt =====
-- The invariant of `allocation_map`: its sites are disjoint ranges of addresses, in order.
use ia2_provsan.Base.{ℕ, ◌+◌, ◌^◌, ◌≤◌, ◌<◌, ◌≡◌, refl, ◌⊎◌, inl, inr, true, false, [], ◌∷◌, arith}
use ia2_provsan.Base.{◌↔◌, Bool-cases, ltb, ◌==◌}
use ia2_provsan.Base.Int.{ℤ, pos, negsuc, magnitude}
use ia2_provsan.Containers.Sorted.{Sorted, emplace, erase, After}
use ia2_provsan.Site.{AllocSite, is_valid, contains_ptr}
use ia2_provsan.Site.Range.{IsBlock, contains_ptr-range}

abbrev pub bytes : AllocSite → ℕ
bytes s = magnitude s.size

-- The site stands under its own address, is valid, and ends below 2 ^ 64.
pub record IsLive (key : ℕ) (s : AllocSite) : Type 0 where
  pub keyed : s.ptr ≡ key
  pub valid : is_valid s ≡ true
  pub below : key + bytes s < 2 ^ 64

-- Live sites, none of which starts below `lo` or overlaps another.
abbrev pub Packed : ℕ → Sorted AllocSite → Type 0
Packed lo [] = Unit {0}
Packed lo ((j, s) ∷ m) = (lo ≤ j) × IsLive j s × Packed (j + bytes s) m

-- The range meets no live site.
abbrev pub IsFree : ℕ → ℕ → Sorted AllocSite → Type 0
IsFree k n [] = Unit {0}
IsFree k n ((j, s) ∷ m) = ((k + n ≤ j) ⊎ (j + bytes s ≤ k)) × IsFree k n m

-- Sites and their keys as they stand in the map.
abbrev pub IsEntry : ℕ → AllocSite → Sorted AllocSite → Type 0
IsEntry k s [] = ⊥
IsEntry k s ((j, t) ∷ m) = ((k ≡ j) × (s ≡ t)) ⊎ IsEntry k s m

pub valid-IsBlock : (key : ℕ) (s : AllocSite) → IsLive key s → IsBlock s (bytes s)
unfolding is_valid
valid-IsBlock key s live = go s.size refl live.valid
  where
    go : (z : ℤ) → s.size ≡ z → is_valid s ≡ true → IsBlock s (bytes s)
    go (pos n) e v = record {
      sized = rw e;
      nonempty = rw e (ground (arith, e));
      below = rw live.keyed live.below;
    }
    go (negsuc n) e v = absurd (ground (arith, e))

pub live_positive : (key : ℕ) (s : AllocSite) → IsLive key s → 0 < bytes s
live_positive key s live = (valid-IsBlock key s live).nonempty

pub contains_ptr_live :
    (key : ℕ) (s : AllocSite) (p : ℕ)
    → IsLive key s
    → (contains_ptr s p ≡ true) ↔ ((key ≤ p) × (p < key + bytes s))
contains_ptr_live key s p live =
    rw (← live.keyed) (contains_ptr-range s (bytes s) p (valid-IsBlock key s live))

pub Packed-mono : (lo hi : ℕ) (m : Sorted AllocSite) → lo ≤ hi → Packed hi m → Packed lo m
Packed-mono lo hi [] h p = tt
Packed-mono lo hi ((j, s) ∷ m) h (above, live, rest) = (omega arith, live, rest)

pub Packed-After : (k lo : ℕ) (m : Sorted AllocSite) → k < lo → Packed lo m → After k m
Packed-After k lo [] h p = tt
Packed-After k lo ((j, s) ∷ m) h (above, live, rest) =
    (omega arith, Packed-After j (j + bytes s) m (omega (arith, live_positive j s live)) rest)

pub erase-Packed : (k lo : ℕ) (m : Sorted AllocSite) → Packed lo m → Packed lo (erase k m)
unfolding erase
erase-Packed k lo [] p = tt
erase-Packed k lo ((j, s) ∷ m) (above, live, rest) = elim (Bool-cases (k == j)) [
  | inl hit ↦ rw hit (Packed-mono lo (j + bytes s) m (omega arith) rest)
  | inr miss ↦ rw miss (above, live, erase-Packed k (j + bytes s) m rest)
]

-- The order of two ranges follows from that of their starts.
lower_first : (k n j t : ℕ) → (k + n ≤ j) ⊎ (j + t ≤ k) → 0 < t → ltb k j ≡ true → k + n ≤ j
lower_first k n j t apart size left = ground arith

upper_second : (k n j t : ℕ) → (k + n ≤ j) ⊎ (j + t ≤ k) → 0 < n → ltb k j ≡ false → j + t ≤ k
upper_second k n j t apart size right = ground arith

pub emplace-Packed :
    (k lo : ℕ) (s : AllocSite) (m : Sorted AllocSite)
    → lo ≤ k
    → IsLive k s
    → IsFree k (bytes s) m
    → Packed lo m
    → Packed lo (emplace k s m)
unfolding emplace
emplace-Packed k lo s [] above live free p = (above, live, tt)
emplace-Packed k lo s ((j, t) ∷ m) above live (apart, free) (first, older, rest) =
    elim (Bool-cases (k == j)) [
      | inl same ↦ rw same (first, older, rest)
      | inr other ↦ rw other (elim (Bool-cases (ltb k j)) [
        | inl left ↦
            let ends = lower_first k (bytes s) j (bytes t) apart (live_positive j t older) left in
            rw left (above, live, (ends, older, rest))
        | inr right ↦
            let starts =
              upper_second k (bytes s) j (bytes t) apart (live_positive k s live) right in
            rw right (first, older, emplace-Packed k (j + bytes t) s m starts live free rest)
      ])
    ]
