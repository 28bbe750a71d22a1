-- ===== src/Handler/Search.antt =====
-- `getAllocSite`: the search by `lower_bound` finds what a scan of all sites finds.
use ia2_provsan.Base.{ℕ, ◌+◌, ◌≤◌, ◌<◌, ◌≡◌, refl, inl, inr, false, [], ◌∷◌, arith, ap, ◌∙◌}
use ia2_provsan.Base.{if◌then◌else◌, ltb, ◌==◌, Bool-cases}
use ia2_provsan.Base.Outcome.{ok}
use ia2_provsan.Containers.Sorted.{Sorted, lower_bound_from}
use ia2_provsan.Site.{AllocSite, error, contains_ptr}
use ia2_provsan.Handler.{search_map, search_at}
use ia2_provsan.Handler.Blocks.{Packed, IsLive, bytes, contains_ptr_live, live_positive}

-- The first site whose range has the address, by a scan of the whole map.
unfoldable pub owner : Sorted AllocSite → ℕ → AllocSite
owner [] p = error
owner ((j, s) ∷ m) p = if contains_ptr s p then s else owner m p

-- The same with a site for an address that none of the map has.
owner_or : AllocSite → Sorted AllocSite → ℕ → AllocSite
owner_or d [] p = d
owner_or d ((j, s) ∷ m) p = if contains_ptr s p then s else owner_or d m p

owner_or-error : (m : Sorted AllocSite) (p : ℕ) → owner_or error m p ≡ owner m p
unfolding owner owner_or
owner_or-error [] p = refl
owner_or-error ((j, s) ∷ m) p = ground (arith, owner_or-error m p)

owner_or_above :
    (d : AllocSite) (lo : ℕ) (m : Sorted AllocSite) (p : ℕ)
    → p < lo
    → Packed lo m
    → owner_or d m p ≡ d
unfolding owner_or
owner_or_above d lo [] p h k = refl
owner_or_above d lo ((j, s) ∷ m) p h (first, live, rest) =
    ground
      (arith, contains_ptr_live j s p live, owner_or_above d (j + bytes s) m p (omega arith) rest)

pub owner_above : (lo : ℕ) (m : Sorted AllocSite) (p : ℕ) → Packed lo m → p < lo → owner m p ≡ error
owner_above lo m p packed h = rw (← owner_or-error m p) (owner_or_above error lo m p h packed)

abbrev fallback : AllocSite → ℕ → AllocSite
fallback d p = if contains_ptr d p then d else error

-- Where the site's own range decides.
owner_or_step :
    (i j lo p : ℕ) (d s : AllocSite) (m : Sorted AllocSite)
    → IsLive i d
    → i + bytes d ≤ j
    → IsLive j s
    → Packed (j + bytes s) m
    → j ≤ p
    → owner_or (fallback s p) m p ≡ owner_or (fallback d p) ((j, s) ∷ m) p
unfolding owner_or
owner_or_step i j lo p d s m older order live rest at =
    let missed : contains_ptr d p ≡ false = ground (arith, contains_ptr_live i d p older) in
    let here = contains_ptr_live j s p live in
    ground (arith, missed, here, owner_or_above s (j + bytes s) m p, missed_all missed)
  where
    missed_all : contains_ptr d p ≡ false → fallback d p ≡ error
    missed_all h = rw h

owner_or_first :
    (j p : ℕ) (s : AllocSite) (m : Sorted AllocSite)
    → IsLive j s
    → Packed (j + bytes s) m
    → owner_or (fallback s p) m p ≡ owner ((j, s) ∷ m) p
unfolding owner
owner_or_first j p s m live rest =
    ground
      (arith, contains_ptr_live j s p live, owner_or_above s (j + bytes s) m p, owner_or-error m p)

search_after :
    (i p : ℕ) (d : AllocSite) (before m : Sorted AllocSite)
    → i < p
    → IsLive i d
    → Packed (i + bytes d) m
    → search_at (lower_bound_from ((i, d) ∷ before) m p) p ≡ ok (owner_or (fallback d p) m p)
unfolding lower_bound_from search_at owner_or
search_after i p d before [] h live packed = refl
search_after i p d before ((j, s) ∷ m) h live (order, next, rest) = elim (Bool-cases (ltb j p)) [
  | inl less ↦ rw less (
      search_after j p s ((i, d) ∷ before) m (ground arith) next rest
      ∙ ap ok (owner_or_step i j i p d s m live order next rest (ground arith)))
  | inr stop ↦ rw stop (elim (Bool-cases (j == p)) [
    | inl hit ↦ ground (arith, contains_ptr_live j s p next, live_positive j s next)
    | inr over ↦
        ground
          (arith, contains_ptr_live j s p next, owner_or_above (fallback d p) (j + bytes s) m p)
  ])
]

-- On a map of disjoint live sites `getAllocSite` never dereferences `end()`, and returns the site
-- whose range has the address, or the error site if there is none.
pub search_map-owner :
    (lo : ℕ) (m : Sorted AllocSite) (p : ℕ) → Packed lo m → search_map m p ≡ ok (owner m p)
unfolding search_map search_at lower_bound_from owner
search_map-owner lo [] p packed = refl
search_map-owner lo ((j, s) ∷ m) p (order, live, rest) = elim (Bool-cases (ltb j p)) [
  | inl less ↦
      rw less (
        search_after j p s [] m (ground arith) live rest ∙ ap ok (owner_or_first j p s m live rest))
  | inr stop ↦ rw stop (
      ground (
        arith,
        contains_ptr_live j s p live,
        live_positive j s live,
        owner_above (j + bytes s) m p rest,
      ))
]
