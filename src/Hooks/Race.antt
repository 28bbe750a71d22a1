-- ===== src/Hooks/Race.antt =====
-- Two threads: the allocator hands the addresses of a block out again between the call that frees
-- it and the hook behind that call, and the hook of the new block runs first.
use ia2_provsan.Base.{
  ℕ, ◌+◌, ◌≤◌, ◌<◌, ◌≡◌, refl, ◌∙◌, ap, String, true, false, [], ◌∷◌, arith, subst,
}
use ia2_provsan.Base.Int.{ℤ, pos}
use ia2_provsan.Base.Outcome.{ok}
use ia2_provsan.Containers.Sorted.{erase}
use ia2_provsan.Site.{AllocSite, error, is_valid, contains_ptr}
use ia2_provsan.Handler.{get_alloc_site}
use ia2_provsan.Handler.Blocks.{IsEntry, bytes, contains_ptr_live, erase-Packed}
use ia2_provsan.Handler.Search.{search_map-owner}
use ia2_provsan.Handler.Entries.{owner-erase, owner_at_start, entry-IsLive, emplace_entry}
use ia2_provsan.Hooks.{Runtime, get_or_init, alloc_hook, dealloc_hook, track_alloc}
use ia2_provsan.Hooks.Sites.{made, IsRange, new_site-made, made-IsLive, sites, IsVacant}
use ia2_provsan.Hooks.Heap.{
  View, place, drop, Call, allocs, deallocs, hook, alloc, dealloc, Steps, done, after, run, Refines,
  run-Refines, search_sites, sites-track_alloc, sites-dealloc_hook,
}

-- A live block at `ptr`, and a new one of `n` bytes that lies in it.
pub record IsReuse (rt : Runtime) (v : View) (ptr n : ℕ) : Type 0 where
  pub tracked : Refines rt v
  pub live : is_valid (v ptr) ≡ true
  pub start : (v ptr).ptr ≡ ptr
  pub range : IsRange ptr n
  pub inside : n ≤ bytes (v ptr)

module _ (rt : Runtime) (v : View) (ptr n : ℕ) (r : IsReuse rt v ptr n) where
  old-IsEntry : IsEntry ptr (v ptr) (sites rt)
  old-IsEntry =
      let own = r.tracked.owners ptr in
      subst (λ s. IsEntry ptr s (sites rt)) own
        (owner_at_start 1 ptr (sites rt) r.tracked.packed (rw own r.live) (rw own r.start))

  -- An address of the new block is one of the old block.
  in_old : (p : ℕ) → ptr ≤ p → p < ptr + n → contains_ptr (v ptr) p ≡ true
  in_old p low high =
      let live = entry-IsLive 1 ptr (v ptr) (sites rt) r.tracked.packed old-IsEntry in
      let inside = r.inside in (contains_ptr_live ptr (v ptr) p live).1 (low, omega arith)

  old_dropped : (p : ℕ) → ptr ≤ p → p < ptr + n → drop v (v ptr) p ≡ error
  old_dropped p low high = rw (in_old p low high)

  module _ (id : ℕ) (bb_name func_name : String) (size local_id : ℤ) where
    abbrev new_block : AllocSite
    new_block = made ptr n id bb_name func_name false

    abbrev free_call : Call
    free_call = deallocs ptr size local_id

    abbrev reuse_call : Call
    reuse_call = allocs ptr (pos n) (pos id) bb_name func_name

    new_owned : (p : ℕ) → ptr ≤ p → p < ptr + n → place (drop v (v ptr)) new_block p ≡ new_block
    new_owned p low high =
        let live = made-IsLive ptr n id bb_name func_name false r.range in
        let own : contains_ptr new_block p ≡ true =
          (contains_ptr_live ptr new_block p live).1 (low, high) in
        rw own

    in_order :
        (rt' : Runtime) × (run rt (free_call ∷ reuse_call ∷ []) ≡ ok rt')
        × ((p : ℕ) → ptr ≤ p → p < ptr + n → get_alloc_site (get_or_init rt').0 p ≡ ok new_block)
    in_order =
        let w = place (drop v (v ptr)) new_block in
        let vacant : IsVacant (drop v (v ptr)) ptr n =
          λ p low high. ap is_valid (old_dropped p low high) ∙ (unfold is_valid in refl) in
        let steps : Steps v (free_call ∷ reuse_call ∷ []) w =
          after (dealloc r.live r.start) (after (alloc r.range vacant) done) in
        let (rt', returned, tracks) =
          run-Refines rt v w (free_call ∷ reuse_call ∷ []) r.tracked steps in
        (rt', returned, λ p low high. search_sites rt' w p tracks ∙ ap ok (new_owned p low high))

    -- The hook of the new block finds the entry of the old one, and leaves it; then it goes.
    sites_overtaken :
        sites (dealloc_hook (track_alloc rt ptr new_block) ptr size local_id) ≡ erase ptr (sites rt)
    sites_overtaken =
        sites-dealloc_hook (track_alloc rt ptr new_block) ptr size local_id
        ∙ ap (erase ptr) (
            sites-track_alloc rt ptr new_block
            ∙ emplace_entry 1 ptr new_block (v ptr) (sites rt) r.tracked.packed old-IsEntry)

    search_overtaken :
        (rt' : Runtime) (p : ℕ)
        → sites rt' ≡ erase ptr (sites rt)
        → ptr ≤ p
        → p < ptr + n
        → get_alloc_site (get_or_init rt').0 p ≡ ok error
    unfolding sites
    search_overtaken rt' p same low high =
        let packed = erase-Packed ptr 1 (sites rt) r.tracked.packed in
        let gone = owner-erase 1 ptr p (v ptr) (sites rt) r.tracked.packed old-IsEntry in
        rw same (
          search_map-owner 1 (erase ptr (sites rt)) p packed
          ∙ ap ok (gone ∙ (rw (in_old p low high))))

    overtaken :
        (rt' : Runtime) × (run rt (reuse_call ∷ free_call ∷ []) ≡ ok rt')
        × ((p : ℕ) → ptr ≤ p → p < ptr + n → get_alloc_site (get_or_init rt').0 p ≡ ok error)
    unfolding run hook alloc_hook
    overtaken =
        let rt' = dealloc_hook (track_alloc rt ptr new_block) ptr size local_id in
        (
          rt',
          rw (new_site-made ptr n id bb_name func_name false r.range),
          λ p low high. search_overtaken rt' p sites_overtaken low high,
        )

    -- When a runtime tracks a live block, and a new block that the allocator places in it at the
    -- same start, not null and not empty, is tracked by its hook: if the hook of the free runs
    -- first, then the new block's site is returned for every address of it. If it runs second, as
    -- the allocator lets another thread have the addresses before it, both hooks return as well,
    -- but the error site is returned for every address of the new block, which is live: its faults
    -- are lost.
    pub hook_order :
        (p : ℕ)
        → ptr ≤ p
        → p < ptr + n
        → ((rt' : Runtime) × (run rt (free_call ∷ reuse_call ∷ []) ≡ ok rt')
            × (get_alloc_site (get_or_init rt').0 p ≡ ok new_block))
          × ((rt' : Runtime) × (run rt (reuse_call ∷ free_call ∷ []) ≡ ok rt')
              × (get_alloc_site (get_or_init rt').0 p ≡ ok error))
    hook_order p low high =
        let (rt₁, first, found) = in_order in
        let (rt₂, second, lost) = overtaken in
        ((rt₁, first, found p low high), (rt₂, second, lost p low high))
