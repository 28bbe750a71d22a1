-- ===== src/Hooks/Heap.antt =====
-- The hooks against the heap that they follow: which allocation site owns each address.
use ia2_provsan.Base.{ℕ, ◌≡◌, refl, ap, ◌∙◌, String, Bool, true, false}
use ia2_provsan.Base.{if◌then◌else◌, List, [], ◌∷◌, none}
use ia2_provsan.Base.Int.{ℤ, pos}
use ia2_provsan.Base.Outcome.{Outcome, ok, ◌>>=◌}
use ia2_provsan.Containers.Sorted.{Sorted, emplace, erase}
use ia2_provsan.Site.{AllocSite, error, is_valid, contains_ptr}
use ia2_provsan.Handler.{get_alloc_site, insert_alloc_site, remove_alloc_site, update_realloc_chain}
use ia2_provsan.Handler.Blocks.{Packed, emplace-Packed, erase-Packed}
use ia2_provsan.Handler.Search.{owner, search_map-owner}
use ia2_provsan.Handler.Entries.{owner-emplace, owner-erase, owner_at_start, erase_absent}
use ia2_provsan.Hooks.{
  Runtime, get_or_init, alloc_hook, realloc_hook, dealloc_hook, track_alloc, track_realloc,
  track_untracked,
}
use ia2_provsan.Hooks.Sites.{
  made, IsRange, new_site-made, made-IsLive, sites, IsVacant, IsVacant-IsFree,
}

-- The owner of each address, the error site where there is none.
abbrev pub View : Type 0
View = ℕ → AllocSite

abbrev pub place : View → AllocSite → View
place v s p = if contains_ptr s p then s else v p

abbrev pub drop : View → AllocSite → View
drop v s p = if contains_ptr s p then error else v p

-- A call that instrumented code makes, with the hook's arguments.
pub data Call : Type 0 where
  allocs : ℕ → ℤ → ℤ → String → String → Call
  reallocs : ℕ → ℤ → ℕ → ℤ → ℤ → String → String → Call
  deallocs : ℕ → ℤ → ℤ → Call

unfoldable pub hook : Runtime → Call → Outcome Runtime
hook rt (allocs ptr size local_id bb_name func_name) =
    alloc_hook rt ptr size local_id bb_name func_name
hook rt (reallocs new_ptr new_size old_ptr old_size local_id bb_name func_name) =
    realloc_hook rt new_ptr new_size old_ptr old_size local_id bb_name func_name
hook rt (deallocs ptr size local_id) = ok (dealloc_hook rt ptr size local_id)

-- What a correct allocator and program do between two hooks. A block that the allocator hands
-- out lies in addresses that no live block has, after the old block of a `realloc` is gone; what
-- is freed is the start of a live block, or a block that was never tracked.
pub data Step (v : View) : Call → View → Type 0 where
  alloc :
      {ptr n id : ℕ} {bb_name func_name : String}
      → IsRange ptr n
      → IsVacant v ptr n
      → Step v
          (allocs ptr (pos n) (pos id) bb_name func_name)
          (place v (made ptr n id bb_name func_name false))
  realloc :
      {new_ptr n old_ptr id : ℕ} {old_size : ℤ} {bb_name func_name : String}
      → is_valid (v old_ptr) ≡ true
      → (v old_ptr).ptr ≡ old_ptr
      → IsRange new_ptr n
      → IsVacant (drop v (v old_ptr)) new_ptr n
      → Step v
          (reallocs new_ptr (pos n) old_ptr old_size (pos id) bb_name func_name)
          (place (drop v (v old_ptr)) (made new_ptr n id bb_name func_name true))
  realloc_foreign :
      {new_ptr n old_ptr id : ℕ} {old_size : ℤ} {bb_name func_name : String}
      → is_valid (v old_ptr) ≡ false
      → IsRange new_ptr n
      → IsVacant v new_ptr n
      → Step v
          (reallocs new_ptr (pos n) old_ptr old_size (pos id) bb_name func_name)
          (place v (made new_ptr n id bb_name func_name false))
  dealloc :
      {ptr : ℕ} {size local_id : ℤ}
      → is_valid (v ptr) ≡ true
      → (v ptr).ptr ≡ ptr
      → Step v (deallocs ptr size local_id) (drop v (v ptr))
  dealloc_foreign :
      {ptr : ℕ} {size local_id : ℤ}
      → is_valid (v ptr) ≡ false
      → Step v (deallocs ptr size local_id) v

-- The map is in order, and its owners are those of the view.
pub record Owns (m : Sorted AllocSite) (v : View) : Type 0 where
  pub packed : Packed 1 m
  pub owners : (p : ℕ) → owner m p ≡ v p

Owns-emplace :
    (m : Sorted AllocSite) (v : View) (ptr n id : ℕ) (bb_name func_name : String)
    (is_realloc : Bool)
    → Owns m v
    → IsRange ptr n
    → IsVacant v ptr n
    → let s = made ptr n id bb_name func_name is_realloc in Owns (emplace ptr s m) (place v s)
Owns-emplace m v ptr n id bb_name func_name is_realloc o range vacant =
    let s = made ptr n id bb_name func_name is_realloc in
    let live = made-IsLive ptr n id bb_name func_name is_realloc range in
    let free =
      IsVacant-IsFree 1 ptr n m range.nonempty o.packed
        (λ p low high. rw (o.owners p) (vacant p low high)) in
    record {
      packed = emplace-Packed ptr 1 s m range.nonnull live free o.packed;
      owners = λ p. rw (owner-emplace 1 ptr p s m o.packed live free, o.owners p);
    }

pub Owns-erase :
    (m : Sorted AllocSite) (v : View) (p : ℕ)
    → Owns m v
    → is_valid (v p) ≡ true
    → (v p).ptr ≡ p
    → Owns (erase p m) (drop v (v p))
Owns-erase m v p o valid start =
    let own = o.owners p in
    let entry = owner_at_start 1 p m o.packed (rw own valid) (rw own start) in
    record {
      packed = erase-Packed p 1 m o.packed;
      owners = λ q. rw (owner-erase 1 p q (owner m p) m o.packed entry, own, o.owners q);
    }

Owns-erase_absent :
    (m : Sorted AllocSite) (v : View) (p : ℕ)
    → Owns m v
    → is_valid (v p) ≡ false
    → Owns (erase p m) v
Owns-erase_absent m v p o invalid = rw (erase_absent 1 p m o.packed (rw (o.owners p) invalid)) o

-- The runtime tracks the heap.
abbrev pub Refines : Runtime → View → Type 0
Refines rt v = Owns (sites rt) v

pub sites-track_alloc :
    (rt : Runtime) (ptr : ℕ) (s : AllocSite)
    → sites (track_alloc rt ptr s) ≡ emplace ptr s (sites rt)
unfolding sites track_alloc insert_alloc_site
sites-track_alloc rt ptr s = refl

sites-track_untracked :
    (rt : Runtime) (ptr : ℕ) (s : AllocSite)
    → sites (track_untracked rt ptr s) ≡ emplace ptr s (sites rt)
unfolding sites track_untracked insert_alloc_site
sites-track_untracked rt ptr s = refl

sites-track_realloc :
    (rt : Runtime) (old_site : AllocSite) (old_ptr ptr : ℕ) (s : AllocSite)
    → sites (track_realloc rt old_site old_ptr ptr s) ≡ emplace ptr s (erase old_ptr (sites rt))
unfolding sites track_realloc insert_alloc_site remove_alloc_site update_realloc_chain
sites-track_realloc rt old_site old_ptr ptr s = refl

pub sites-dealloc_hook :
    (rt : Runtime) (ptr : ℕ) (size local_id : ℤ)
    → sites (dealloc_hook rt ptr size local_id) ≡ erase ptr (sites rt)
unfolding sites dealloc_hook remove_alloc_site
sites-dealloc_hook rt ptr size local_id = refl

pub search_sites :
    (rt : Runtime) (v : View) (p : ℕ)
    → Refines rt v
    → get_alloc_site (get_or_init rt).0 p ≡ ok (v p)
unfolding sites
search_sites rt v p r = search_map-owner 1 (sites rt) p r.packed ∙ ap ok (r.owners p)

pub realloc_hook_live :
    (rt : Runtime) (v : View) (new_ptr n old_ptr id : ℕ) (old_size : ℤ) (bb_name func_name : String)
    → Refines rt v
    → is_valid (v old_ptr) ≡ true
    → IsRange new_ptr n
    → realloc_hook rt new_ptr (pos n) old_ptr old_size (pos id) bb_name func_name
      ≡ ok (track_realloc rt (v old_ptr) old_ptr new_ptr (made new_ptr n id bb_name func_name true))
unfolding realloc_hook
realloc_hook_live rt v new_ptr n old_ptr id old_size bb_name func_name r valid range =
    rw (search_sites rt v old_ptr r, valid, new_site-made new_ptr n id bb_name func_name true range)

pub track_realloc-Refines :
    (rt : Runtime) (v : View) (new_ptr n old_ptr id : ℕ) (bb_name func_name : String)
    → Refines rt v
    → is_valid (v old_ptr) ≡ true
    → (v old_ptr).ptr ≡ old_ptr
    → IsRange new_ptr n
    → IsVacant (drop v (v old_ptr)) new_ptr n
    → let s = made new_ptr n id bb_name func_name true in
      Refines (track_realloc rt (v old_ptr) old_ptr new_ptr s) (place (drop v (v old_ptr)) s)
track_realloc-Refines rt v new_ptr n old_ptr id bb_name func_name r valid start range vacant =
    let s = made new_ptr n id bb_name func_name true in
    rw (sites-track_realloc rt (v old_ptr) old_ptr new_ptr s) (
      Owns-emplace _ _ new_ptr n id bb_name func_name true
        (Owns-erase (sites rt) v old_ptr r valid start) range vacant)

-- Every call that a correct allocator and program make returns from its hook, and the runtime
-- then tracks the heap after the call.
pub hook-Refines :
    (rt : Runtime) (v v' : View) (c : Call)
    → Refines rt v
    → Step v c v'
    → (rt' : Runtime) × (hook rt c ≡ ok rt') × Refines rt' v'
unfolding hook alloc_hook realloc_hook
hook-Refines rt v v' c r (alloc {ptr} {n} {id} {bb_name} {func_name} range vacant) = (
  track_alloc rt ptr (made ptr n id bb_name func_name false),
  rw (new_site-made ptr n id bb_name func_name false range),
  rw (sites-track_alloc rt ptr (made ptr n id bb_name func_name false))
      (Owns-emplace (sites rt) v ptr n id bb_name func_name false r range vacant),
)
hook-Refines rt v v' c r
      (realloc {new_ptr} {n} {old_ptr} {id} {old_size} {bb_name} {func_name} valid start range
        vacant) =
    (
      track_realloc rt (v old_ptr) old_ptr new_ptr (made new_ptr n id bb_name func_name true),
      realloc_hook_live rt v new_ptr n old_ptr id old_size bb_name func_name r valid range,
      track_realloc-Refines rt v new_ptr n old_ptr id bb_name func_name r valid start range vacant,
    )
hook-Refines rt v v' c r
      (realloc_foreign {new_ptr} {n} {old_ptr} {id} {old_size} {bb_name} {func_name} invalid range
        vacant) =
    let s = made new_ptr n id bb_name func_name false in
    (
      track_untracked rt new_ptr s,
      rw (
        search_sites rt v old_ptr r,
        invalid,
        new_site-made new_ptr n id bb_name func_name false range,
      ),
      rw (sites-track_untracked rt new_ptr s)
          (Owns-emplace (sites rt) v new_ptr n id bb_name func_name false r range vacant),
    )
hook-Refines rt v v' c r (dealloc {ptr} {size} {local_id} valid start) = (
  dealloc_hook rt ptr size local_id,
  refl,
  rw (sites-dealloc_hook rt ptr size local_id) (Owns-erase (sites rt) v ptr r valid start),
)
hook-Refines rt v v' c r (dealloc_foreign {ptr} {size} {local_id} invalid) = (
  dealloc_hook rt ptr size local_id,
  refl,
  rw (sites-dealloc_hook rt ptr size local_id) (Owns-erase_absent (sites rt) v ptr r invalid),
)

-- A history of calls, and the hooks that run for it.
pub data Steps : View → List Call → View → Type 0 where
  done : {v : View} → Steps v [] v
  after :
      {c : Call} {cs : List Call} {v u w : View} → Step v c u → Steps u cs w → Steps v (c ∷ cs) w

unfoldable pub run : Runtime → List Call → Outcome Runtime
run rt [] = ok rt
run rt (c ∷ cs) = hook rt c >>= λ rt'. run rt' cs

pub run-Refines :
    (rt : Runtime) (v w : View) (cs : List Call)
    → Refines rt v
    → Steps v cs w
    → (rt' : Runtime) × (run rt cs ≡ ok rt') × Refines rt' w
unfolding run
run-Refines rt v w cs r done = (rt, refl, r)
run-Refines rt v w cs r (after {c} {cs = rest} {u} step steps) =
    let (rt₁, first, r₁) = hook-Refines rt v u c r step in
    let (rt', others, r') = run-Refines rt₁ u w rest r₁ steps in (rt', rw first others, r')

-- No address is owned before the first allocation.
abbrev pub no_heap : View
no_heap p = error

start-Refines : (rt : Runtime) → rt.handle ≡ none → Refines rt no_heap
unfolding sites get_or_init owner
start-Refines rt fresh = rw fresh (record { packed = tt; owners = λ p. refl })

-- From the first hook on, over any history of one thread in which the allocator hands out blocks
-- that are neither null nor empty, that end within the address space and overlap no live block, and
-- the program frees and reallocates blocks by their starts, or foreign addresses, with numbers that
-- are not negative, every hook returns, and getAllocSite then returns the site of the live block
-- that has the address, and the error site for every other address.
pub run-tracks :
    (rt : Runtime) (w : View) (cs : List Call)
    → rt.handle ≡ none
    → Steps no_heap cs w
    → (rt' : Runtime) × (run rt cs ≡ ok rt')
      × ((p : ℕ) → get_alloc_site (get_or_init rt').0 p ≡ ok (w p))
run-tracks rt w cs fresh steps =
    let (rt', returned, r) = run-Refines rt no_heap w cs (start-Refines rt fresh) steps in
    (rt', returned, λ p. search_sites rt' w p r)
