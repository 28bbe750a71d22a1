-- ===== src/Handler/Entries.antt =====
-- What `getAllocSite` returns, by the entries of the map.
use ia2_provsan.Base.{
  ℕ, ◌+◌, ◌≤◌, ◌<◌, ◌≡◌, refl, ◌≢◌, inl, inr, true, [], ◌∷◌, arith, ap, ◌∙◌, false, subst,
}
use ia2_provsan.Base.{if◌then◌else◌, Bool-cases}
use ia2_provsan.Base.Outcome.{ok}
use ia2_provsan.Containers.Sorted.{Sorted, emplace, erase}
use ia2_provsan.Site.{AllocSite, error, is_valid, contains_ptr}
use ia2_provsan.Handler.{search_map}
use ia2_provsan.Handler.Blocks.{
  Packed, IsLive, IsEntry, IsFree, bytes, contains_ptr_live, live_positive,
}
use ia2_provsan.Handler.Search.{owner, owner_above, search_map-owner}

entry_above :
    (k lo : ℕ) (s : AllocSite) (m : Sorted AllocSite) → Packed lo m → IsEntry k s m → lo ≤ k
entry_above k lo s [] packed e = absurd e
entry_above k lo s ((j, t) ∷ m) (order, live, rest) (inl (same, _)) = omega arith
entry_above k lo s ((j, t) ∷ m) (order, live, rest) (inr e) =
    omega (arith, entry_above k (j + bytes t) s m rest e)

pub owner_entry :
    (lo k p : ℕ) (s : AllocSite) (m : Sorted AllocSite)
    → Packed lo m
    → IsEntry k s m
    → k ≤ p
    → p < k + bytes s
    → owner m p ≡ s
unfolding owner
owner_entry lo k p s [] packed e low high = absurd e
owner_entry lo k p s ((j, t) ∷ m) (order, live, rest) (inl (same, site)) low high =
    ground (arith, contains_ptr_live j t p live)
owner_entry lo k p s ((j, t) ∷ m) (order, live, rest) (inr e) low high = ground (
  arith,
  contains_ptr_live j t p live,
  entry_above k (j + bytes t) s m rest e,
  owner_entry (j + bytes t) k p s m rest e low high,
)

-- The site of an address, with its key.
pub record IsOwner (m : Sorted AllocSite) (p : ℕ) (s : AllocSite) : Type 0 where
  pub key : ℕ
  pub entry : IsEntry key s m
  pub low : key ≤ p
  pub high : p < key + bytes s

error_invalid : is_valid error ≢ true
unfolding is_valid
error_invalid h = cc

IsOwner-later :
    {j p : ℕ} {t s : AllocSite} {m : Sorted AllocSite} → IsOwner m p s → IsOwner ((j, t) ∷ m) p s
IsOwner-later o = record { key = o.key; entry = inr o.entry; low = o.low; high = o.high }

pub owner_valid :
    (lo p : ℕ) (m : Sorted AllocSite)
    → Packed lo m
    → is_valid (owner m p) ≡ true
    → IsOwner m p (owner m p)
unfolding owner
owner_valid lo p [] packed v = absurd (error_invalid v)
owner_valid lo p ((j, t) ∷ m) (order, live, rest) v = elim (Bool-cases (contains_ptr t p)) [
  | inl hit ↦
      let range = (contains_ptr_live j t p live).0 hit in
      rw hit (record { key = j; entry = inl (refl, refl); low = range.0; high = range.1 })
  | inr miss ↦ rw miss (IsOwner-later (owner_valid (j + bytes t) p m rest (rw miss at v)))
]

-- On a map of disjoint live sites, `getAllocSite` returns a live site exactly for the addresses
-- of its range, its first and its last byte included, and for all others a site that is not valid.
pub search_map_exact :
    (lo p : ℕ) (m : Sorted AllocSite)
    → Packed lo m
    → ((k : ℕ) (s : AllocSite) → IsEntry k s m → k ≤ p → p < k + bytes s → search_map m p ≡ ok s)
      × ((s : AllocSite) → search_map m p ≡ ok s → is_valid s ≡ true → IsOwner m p s)
search_map_exact lo p m packed = (
  λ k s e low high.
      search_map-owner lo m p packed ∙ ap ok (owner_entry lo k p s m packed e low high),
  λ s found v. sound s found v,
)
  where
    sound : (s : AllocSite) → search_map m p ≡ ok s → is_valid s ≡ true → IsOwner m p s
    sound s found v =
        let same : owner m p ≡ s = cc (search_map-owner lo m p packed, found) in
        rw same at (owner_valid lo p m packed (rw same v))

-- A new live site takes over its range and nothing else.
pub owner-emplace :
    (lo k p : ℕ) (s : AllocSite) (m : Sorted AllocSite)
    → Packed lo m
    → IsLive k s
    → IsFree k (bytes s) m
    → owner (emplace k s m) p ≡ (if contains_ptr s p then s else owner m p)
unfolding owner emplace
owner-emplace lo k p s [] packed live free = refl
owner-emplace lo k p s ((j, t) ∷ m) (order, older, rest) live (apart, free) = ground (
  arith,
  owner-emplace (j + bytes t) k p s m rest live free,
  contains_ptr_live j t p older,
  contains_ptr_live k s p live,
  live_positive k s live,
  live_positive j t older,
)

contains_entry :
    (lo k p : ℕ) (s : AllocSite) (m : Sorted AllocSite)
    → Packed lo m
    → IsEntry k s m
    → contains_ptr s p ≡ true
    → (lo ≤ p) × IsLive k s
contains_entry lo k p s [] packed e h = absurd e
contains_entry lo k p s ((j, t) ∷ m) (order, live, rest) (inl (same, site)) h =
    let own : IsLive k s = rw (same, site) live in
    let range = (contains_ptr_live k s p own).0 h in (omega arith, own)
contains_entry lo k p s ((j, t) ∷ m) (order, live, rest) (inr e) h =
    let (low, own) = contains_entry (j + bytes t) k p s m rest e h in (omega arith, own)

-- Erasing a live site gives up its range and nothing else.
pub owner-erase :
    (lo k p : ℕ) (s : AllocSite) (m : Sorted AllocSite)
    → Packed lo m
    → IsEntry k s m
    → owner (erase k m) p ≡ (if contains_ptr s p then error else owner m p)
unfolding owner erase
owner-erase lo k p s [] packed e = absurd e
owner-erase lo k p s ((j, t) ∷ m) (order, live, rest) (inl (same, site)) =
    ground (arith, contains_ptr_live j t p live, owner_above (j + bytes t) m p rest)
owner-erase lo k p s ((j, t) ∷ m) (order, live, rest) (inr e) = ground (
  arith,
  contains_ptr_live j t p live,
  contains_entry (j + bytes t) k p s m rest e,
  owner-erase (j + bytes t) k p s m rest e,
  live_positive j t live,
  entry_above k (j + bytes t) s m rest e,
)

pub entry-IsLive :
    (lo k : ℕ) (s : AllocSite) (m : Sorted AllocSite) → Packed lo m → IsEntry k s m → IsLive k s
entry-IsLive lo k s [] packed e = absurd e
entry-IsLive lo k s ((j, t) ∷ m) (order, live, rest) (inl (same, site)) = rw (same, site) live
entry-IsLive lo k s ((j, t) ∷ m) (order, live, rest) (inr e) =
    entry-IsLive (j + bytes t) k s m rest e

-- The owner of its own start stands under that key.
pub owner_at_start :
    (lo p : ℕ) (m : Sorted AllocSite)
    → Packed lo m
    → is_valid (owner m p) ≡ true
    → (owner m p).ptr ≡ p
    → IsEntry p (owner m p) m
owner_at_start lo p m packed valid start =
    let o = owner_valid lo p m packed valid in
    let live = entry-IsLive lo o.key (owner m p) m packed o.entry in
    let key : o.key ≡ p = cc (live.keyed) in subst (λ k. IsEntry k (owner m p) m) key o.entry

-- Erasing an address that no site has changes nothing.
pub erase_absent :
    (lo p : ℕ) (m : Sorted AllocSite) → Packed lo m → is_valid (owner m p) ≡ false → erase p m ≡ m
unfolding owner erase
erase_absent lo p [] packed invalid = refl
erase_absent lo p ((j, t) ∷ m) (order, live, rest) invalid = ground (
  arith,
  contains_ptr_live j t p live,
  live_positive j t live,
  erase_absent (j + bytes t) p m rest,
  live.valid,
)

-- `emplace` under the key of a live site changes nothing.
pub emplace_entry :
    (lo k : ℕ) (s t : AllocSite) (m : Sorted AllocSite)
    → Packed lo m
    → IsEntry k t m
    → emplace k s m ≡ m
unfolding emplace
emplace_entry lo k s t [] packed e = absurd e
emplace_entry lo k s t ((j, u) ∷ m) (order, live, rest) (inl (same, site)) = ground arith
emplace_entry lo k s t ((j, u) ∷ m) (order, live, rest) (inr e) = ground (
  arith,
  entry_above k (j + bytes u) t m rest e,
  live_positive j u live,
  emplace_entry (j + bytes u) k s t m rest e,
)
