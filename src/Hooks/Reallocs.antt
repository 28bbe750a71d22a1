-- ===== src/Hooks/Reallocs.antt =====
-- The realloc chains of `FM`, and what they make of a later fault.
use ia2_provsan.Base.{ℕ, ◌+◌, ◌≤◌, ◌<◌, ◌≡◌, refl, ap, ◌∙◌, String, Bool, true, ◌||◌, arith}
use ia2_provsan.Base.{if◌then◌else◌, List, [], ◌∷◌, inl, inr, Bool-cases, Option, none, some}
use ia2_provsan.Base.Int.{ℤ, pos}
use ia2_provsan.Base.Outcome.{ok}
use ia2_provsan.Containers.Hashed.{contains, find, find-emplace, contains-insert}
use ia2_provsan.Signals.{Stats}
use ia2_provsan.Site.{AllocSite, is_valid, contains_ptr, same_site}
use ia2_provsan.Site.Range.{same_site_refl}
use ia2_provsan.Handler.{
  Handler, add_fault_alloc, update_realloc_chain, insert_alloc_site, remove_alloc_site, extended,
}
use ia2_provsan.Handler.Blocks.{contains_ptr_live}
use ia2_provsan.Handler.Search.{owner}
use ia2_provsan.Handler.Faults.{
  same_site-IsEquivalence, associated, in_chain, AllCounted, add_fault_alloc_marks,
}
use ia2_provsan.Hooks.{Runtime, get_or_init, realloc_hook, track_realloc}
use ia2_provsan.Hooks.Sites.{made, IsRange, IsVacant, made-IsLive, sites}
use ia2_provsan.Hooks.Heap.{View, drop, place, Refines, realloc_hook_live, track_realloc-Refines}

-- The chain that a new site gets, from the site that it replaces.
abbrev pub inherits : Handler → AllocSite → AllocSite → Bool
inherits h old_site x = in_chain h old_site x || same_site old_site x

-- An old chain, or else the given one.
abbrev pub or_first : Option (List AllocSite) → Bool → AllocSite → Bool
or_first none first x = first
or_first (some chain) first x = contains same_site chain x

-- What `FM` has for a site after a realloc from `old_site`: its first chain for good.
abbrev pub first_chain : Handler → AllocSite → AllocSite → AllocSite → Bool
first_chain h site old_site x = or_first (find same_site h.fm site) (inherits h old_site x) x

extended-contains :
    (o : Option (List AllocSite)) (old_site x : AllocSite)
    → contains same_site (extended o old_site) x ≡ (associated o x || same_site old_site x)
unfolding contains
extended-contains none old_site x = ground arith
extended-contains (some chain) old_site x =
    contains-insert same_site same_site-IsEquivalence chain old_site x

kept_chain :
    (o : Option (List AllocSite)) (chain : List AllocSite) (x : AllocSite)
    → contains same_site (elim o [ none ↦ chain | some older ↦ older ]) x
      ≡ or_first o (contains same_site chain x) x
kept_chain none chain x = refl
kept_chain (some older) chain x = refl

-- A site that had no chain gets the chain of the old site and the old site itself; a site that
-- had one keeps it unchanged. No other site's chain changes.
pub in_chain-update_realloc_chain :
    (h : Handler) (old_site site key x : AllocSite)
    → in_chain (update_realloc_chain h old_site site) key x
      ≡ (if same_site site key then first_chain h site old_site x else in_chain h key x)
unfolding update_realloc_chain
in_chain-update_realloc_chain h old_site site key x =
    let chain = extended (find same_site h.fm old_site) old_site in
    rw (find-emplace same_site same_site-IsEquivalence h.fm site key chain)
      (elim (Bool-cases (same_site site key)) [
        | inl same ↦
            rw (same, kept_chain (find same_site h.fm site) chain x)
              (ap (λ b. or_first (find same_site h.fm site) b x)
                (extended-contains (find same_site h.fm old_site) old_site x))
        | inr other ↦ rw other
      ])

uncounted_chain : (chain : List AllocSite) (count : ℕ) → count ≡ 0 → AllCounted count chain
uncounted_chain [] count e = tt
uncounted_chain (s ∷ chain) count e = (inl e, uncounted_chain chain count e)

module _ (rt : Runtime) (h : Handler) (v : View) (new_ptr n old_ptr id p : ℕ)
    (bb_name func_name : String) where
  abbrev pub grown_site : AllocSite
  grown_site = made new_ptr n id bb_name func_name true

  -- The realloc of a live block by a correct allocator, in a started runtime without counters,
  -- and an address of the new block.
  pub record IsRealloc : Type 0 where
    pub started : rt.handle ≡ some h
    pub uncounted : rt.stats.alloc_site_count ≡ 0
    pub tracked : Refines rt v
    pub live : is_valid (v old_ptr) ≡ true
    pub start : (v old_ptr).ptr ≡ old_ptr
    pub range : IsRange new_ptr n
    pub vacant : IsVacant (drop v (v old_ptr)) new_ptr n
    pub low : new_ptr ≤ p
    pub high : p < new_ptr + n

  abbrev after : Runtime
  after = track_realloc rt (v old_ptr) old_ptr new_ptr grown_site

  -- The handler that the hook leaves behind.
  handler_after :
      rt.handle ≡ some h
      → (get_or_init after).0
        ≡ insert_alloc_site
            (remove_alloc_site (update_realloc_chain h (v old_ptr) grown_site) old_ptr)
            new_ptr
            grown_site
  unfolding track_realloc get_or_init
  handler_after e = rw e

  stats_after : rt.handle ≡ some h → after.stats.alloc_site_count ≡ rt.stats.alloc_site_count
  unfolding track_realloc get_or_init
  stats_after e = rw e

  fault_set_after : rt.handle ≡ some h → (get_or_init after).0.fault_set ≡ h.fault_set
  unfolding insert_alloc_site remove_alloc_site update_realloc_chain
  fault_set_after e = rw (handler_after e)

  fm_after :
      rt.handle ≡ some h
      → (x : AllocSite)
      → in_chain (get_or_init after).0 grown_site x ≡ first_chain h grown_site (v old_ptr) x
  unfolding insert_alloc_site remove_alloc_site
  fm_after e x = rw (
    handler_after e,
    in_chain-update_realloc_chain h (v old_ptr) grown_site grown_site x,
    same_site_refl grown_site,
  )

  own_range : IsRealloc → place (drop v (v old_ptr)) grown_site p ≡ grown_site
  own_range c =
      let live = made-IsLive new_ptr n id bb_name func_name true c.range in
      let inside : contains_ptr grown_site p ≡ true =
        (contains_ptr_live new_ptr grown_site p live).1 (c.low, c.high) in
      rw inside

  -- In a started runtime without counters, where a live block is reallocated by its start to a
  -- block that is neither null nor empty, ends within the address space and overlaps no other live
  -- block, with a number that is not negative, both the hook and the marking of a fault in the new
  -- block return. The fault adds to the fault set the new block's site and, if it is the site's
  -- first realloc, the old block's site with its chain; at any later realloc it adds the chain of
  -- the first one instead. Nothing else is added.
  pub realloc_then_fault :
      (old_size : ℤ) (pkey : ℕ)
      → IsRealloc
      → (rt' : Runtime) × (realloc_hook rt new_ptr
            (pos n)
            old_ptr
            old_size
            (pos id)
            bb_name
            func_name
          ≡ ok rt')
        × (r : Handler × Stats) × (add_fault_alloc (get_or_init rt').0 rt'.stats p pkey ≡ ok r)
        × ((x : AllocSite)
            → contains same_site r.0.fault_set x ≡ (
                contains same_site h.fault_set x
                || (same_site grown_site x || first_chain h grown_site (v old_ptr) x)))
  unfolding sites
  realloc_then_fault old_size pkey c =
      let after_view = place (drop v (v old_ptr)) grown_site in
      let h' = (get_or_init after).0 in
      let refined =
        track_realloc-Refines rt v new_ptr n old_ptr id bb_name func_name c.tracked c.live c.start
          c.range c.vacant in
      let owned : owner h'.allocation_map p ≡ grown_site = refined.owners p ∙ own_range c in
      let none_counted : after.stats.alloc_site_count ≡ 0 = stats_after c.started ∙ c.uncounted in
      let (r, marked, marks) =
        add_fault_alloc_marks 1 h' after.stats p pkey refined.packed (λ valid. inl none_counted)
          (λ valid chain found. uncounted_chain chain after.stats.alloc_site_count none_counted) in
      (
        after,
        realloc_hook_live rt v new_ptr n old_ptr id old_size bb_name func_name c.tracked c.live
            c.range,
        r,
        marked,
        λ x.
            let m = marks.marked x in
            ground (
              arith,
              rw owned at m,
              fault_set_after c.started,
              fm_after c.started x,
              (made-IsLive new_ptr n id bb_name func_name true c.range).valid,
            ),
      )
