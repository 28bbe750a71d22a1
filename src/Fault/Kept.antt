-- ===== src/Fault/Kept.antt =====
-- What a hook of Runtime/alloc_site_handler.cpp leaves alone: the pending keys, the fault set, the
-- number of counters, and but for one entry the realloc chains.
use ia2_provsan.Base.{ℕ, ◌<◌, ◌≡◌, refl, sym, ◌∙◌, subst, true, false, ◌⊎◌}
use ia2_provsan.Base.Int.{ℤ, is_nonneg, to_u64}
use ia2_provsan.Base.Outcome.{ok}
use ia2_provsan.Site.{AllocSite}
use ia2_provsan.Handler.{Handler, insert_alloc_site, remove_alloc_site, update_realloc_chain}
use ia2_provsan.Hooks.{
  Runtime, get_or_init, alloc_hook, realloc_hook, dealloc_hook, track_alloc, track_realloc,
  track_untracked,
}
use ia2_provsan.Hooks.Sites.{made, new_site-made}
use ia2_provsan.Hooks.Heap.{
  View, Call, allocs, reallocs, deallocs, hook, Step, alloc, realloc, realloc_foreign, dealloc,
  dealloc_foreign, Refines, search_sites, realloc_hook_live,
}
use ia2_provsan.Fault.Step.{handler, stats}

-- The number that a call brings has a counter, or there are none.
abbrev pub IsId : ℕ → ℤ → Type 0
IsId n id = (n ≡ 0) ⊎ ((is_nonneg id ≡ true) × (to_u64 id < n))

abbrev pub CallCounted : ℕ → Call → Type 0
CallCounted n (allocs ptr size id bb_name func_name) = IsId n id
CallCounted n (reallocs new_ptr new_size old_ptr old_size id bb_name func_name) = IsId n id
CallCounted n (deallocs ptr size id) = Unit {0}

-- The handler with the entry that a hook adds to `FM`: only the realloc of a live block does.
unfoldable pub with_chain : {v u : View} {c : Call} → Step v c u → Handler → Handler
with_chain (alloc range vacant) h = h
with_chain {v} (realloc {new_ptr} {n} {old_ptr} {id} {bb_name} {func_name} valid start range vacant)
      h =
    update_realloc_chain h (v old_ptr) (made new_ptr n id bb_name func_name true)
with_chain (realloc_foreign invalid range vacant) h = h
with_chain (dealloc valid start) h = h
with_chain (dealloc_foreign invalid) h = h

-- What a hook leaves alone, where `h` has the realloc chains that it leaves behind.
pub record Keeps (h : Handler) (rt rt' : Runtime) : Type 0 where
  pub keys : (handler rt').pkey_by_tid_map ≡ (handler rt).pkey_by_tid_map
  pub fault_set : (handler rt').fault_set ≡ (handler rt).fault_set
  pub count : (stats rt').alloc_site_count ≡ (stats rt).alloc_site_count
  pub chains : (handler rt').fm ≡ h.fm

track_alloc-Keeps :
    (rt : Runtime) (ptr : ℕ) (s : AllocSite) → Keeps (handler rt) rt (track_alloc rt ptr s)
unfolding track_alloc get_or_init insert_alloc_site
track_alloc-Keeps rt ptr s = record { keys = refl; fault_set = refl; count = refl; chains = refl }

track_untracked-Keeps :
    (rt : Runtime) (ptr : ℕ) (s : AllocSite) → Keeps (handler rt) rt (track_untracked rt ptr s)
unfolding track_untracked get_or_init insert_alloc_site
track_untracked-Keeps rt ptr s = record {
  keys = refl;
  fault_set = refl;
  count = refl;
  chains = refl;
}

dealloc_hook-Keeps :
    (rt : Runtime) (ptr : ℕ) (size id : ℤ) → Keeps (handler rt) rt (dealloc_hook rt ptr size id)
unfolding dealloc_hook get_or_init remove_alloc_site
dealloc_hook-Keeps rt ptr size id = record {
  keys = refl;
  fault_set = refl;
  count = refl;
  chains = refl;
}

track_realloc-Keeps :
    (rt : Runtime) (old_site : AllocSite) (old_ptr ptr : ℕ) (s : AllocSite)
    → Keeps
        (update_realloc_chain (handler rt) old_site s)
        rt
        (track_realloc rt old_site old_ptr ptr s)
unfolding track_realloc get_or_init insert_alloc_site remove_alloc_site update_realloc_chain
track_realloc-Keeps rt old_site old_ptr ptr s = record {
  keys = refl;
  fault_set = refl;
  count = refl;
  chains = refl;
}

returned_same : {a b : Runtime} → ok a ≡ ok b → a ≡ b
returned_same e = cc

pub hook-Keeps :
    (rt rt' : Runtime) (v v' : View) (c : Call)
    → Refines rt v
    → (step : Step v c v') → hook rt c ≡ ok rt'
    → Keeps (with_chain step (handler rt)) rt rt'
unfolding hook alloc_hook realloc_hook with_chain
hook-Keeps rt rt' v v' c r (alloc {ptr} {n} {id} {bb_name} {func_name} range vacant) e =
    let s = made ptr n id bb_name func_name false in
    let same : track_alloc rt ptr s ≡ rt' =
      returned_same (rw (new_site-made ptr n id bb_name func_name false range) at e) in
    subst (λ t. Keeps (handler rt) rt t) same (track_alloc-Keeps rt ptr s)
hook-Keeps rt rt' v v' c r
      (realloc {new_ptr} {n} {old_ptr} {id} {old_size} {bb_name} {func_name} valid start range
        vacant)
      e =
    let s = made new_ptr n id bb_name func_name true in
    let hooked =
      realloc_hook_live rt v new_ptr n old_ptr id old_size bb_name func_name r valid range in
    subst (λ t. Keeps (update_realloc_chain (handler rt) (v old_ptr) s) rt t)
      (returned_same (sym hooked ∙ e)) (track_realloc-Keeps rt (v old_ptr) old_ptr new_ptr s)
hook-Keeps rt rt' v v' c r
      (realloc_foreign {new_ptr} {n} {old_ptr} {id} {old_size} {bb_name} {func_name} invalid range
        vacant)
      e =
    let s = made new_ptr n id bb_name func_name false in
    let same : track_untracked rt new_ptr s ≡ rt' = returned_same (
      rw
        (
          search_sites rt v old_ptr r,
          invalid,
          new_site-made new_ptr n id bb_name func_name false range,
        )
        at e) in
    subst (λ t. Keeps (handler rt) rt t) same (track_untracked-Keeps rt new_ptr s)
hook-Keeps rt rt' v v' c r (dealloc {ptr} {size} {local_id} valid start) e =
    subst (λ t. Keeps (handler rt) rt t) (returned_same e) (dealloc_hook-Keeps rt ptr size local_id)
hook-Keeps rt rt' v v' c r (dealloc_foreign {ptr} {size} {local_id} invalid) e =
    subst (λ t. Keeps (handler rt) rt t) (returned_same e) (dealloc_hook-Keeps rt ptr size local_id)
