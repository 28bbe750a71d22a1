-- ===== src/Hooks.antt =====
-- Runtime/alloc_site_handler.cpp: the global handler with its first use, and the three hooks that
-- instrumented code calls. The strings that a hook takes are those of the Post pass, so they are
-- no null pointers.
pub mod Sites
pub mod Heap
pub mod Reallocs
pub mod Race
use ia2_provsan.Base.{ℕ, String, Bool, true, false, Option, none, some, ◌==◌, if◌then◌else◌}
use ia2_provsan.Base.Int.{ℤ}
use ia2_provsan.Base.Outcome.{Outcome, ok, ◌>>=◌}
use ia2_provsan.Signals.{Signals, Stats, install, count_sites, increment}
use ia2_provsan.Site.{AllocSite, new_site, is_valid}
use ia2_provsan.Handler.{
  Handler, new_handler, insert_alloc_site, remove_alloc_site, get_alloc_site, update_realloc_chain,
}

-- The globals of the runtime. `handle` is `none` until `AllocHandlerInitFlag` is set.
pub record Runtime : Type 0 where
  pub handle : Option Handler
  pub stats : Stats
  pub signals : Signals
  -- The constant that the linker gives to `AllocSiteTotal`.
  pub alloc_site_total : ℕ

-- `AllocSiteHandler::init`, which runs the constructor too.
unfoldable pub init : Runtime → Runtime
init rt = record rt {
  handle = some new_handler;
  stats = count_sites rt.alloc_site_total rt.stats;
  signals = install rt.signals;
}

abbrev started : Option Handler → Runtime → Handler × Runtime
started none rt = (new_handler, init rt)
started (some h) rt = (h, rt)

-- `AllocSiteHandler::getOrInit`, with the handler that the pointer leads to.
unfoldable pub get_or_init : Runtime → Handler × Runtime
get_or_init rt = started rt.handle rt

-- The handler after a change made through the pointer.
abbrev pub with_handler : Runtime → Handler → Runtime
with_handler rt h = record rt { handle = some h }

-- `if (AllocSiteCount != 0) counter++`
abbrev counted : Stats → ℕ → ℕ
counted st n = if st.alloc_site_count == 0 then n else increment n

abbrev count_alloc_hook : Runtime → Runtime
count_alloc_hook rt = record rt {
  stats = record (rt.stats) { alloc_hook_calls = counted rt.stats rt.stats.alloc_hook_calls };
}

abbrev count_realloc_hook : Runtime → Runtime
count_realloc_hook rt = record rt {
  stats = record (rt.stats) { realloc_hook_calls = counted rt.stats rt.stats.realloc_hook_calls };
}

abbrev count_dealloc_hook : Runtime → Runtime
count_dealloc_hook rt = record rt {
  stats = record (rt.stats) { dealloc_hook_calls = counted rt.stats rt.stats.dealloc_hook_calls };
}

-- `allocHook` after its site is made.
unfoldable pub track_alloc : Runtime → ℕ → AllocSite → Runtime
unfolding get_or_init
track_alloc rt ptr site =
    let (h, rt') = get_or_init rt in
    count_alloc_hook (with_handler rt' (insert_alloc_site h ptr site))

unfoldable pub alloc_hook : Runtime → ℕ → ℤ → ℤ → String → String → Outcome Runtime
alloc_hook rt ptr size local_id bb_name func_name = do
  site ← new_site ptr size local_id bb_name func_name 0 false
  ok (track_alloc rt ptr site)

-- The branch of `reallocHook` for an old address that no live site has: it returns before the
-- call is counted.
unfoldable pub track_untracked : Runtime → ℕ → AllocSite → Runtime
unfolding get_or_init
track_untracked rt new_ptr site =
    let (h, rt') = get_or_init rt in with_handler rt' (insert_alloc_site h new_ptr site)

-- The other branch, with the old site.
unfoldable pub track_realloc : Runtime → AllocSite → ℕ → ℕ → AllocSite → Runtime
unfolding get_or_init
track_realloc rt old_site old_ptr new_ptr site =
    let (h, rt') = get_or_init rt in
    let chained = update_realloc_chain h old_site site in
    let removed = remove_alloc_site chained old_ptr in
    count_realloc_hook (with_handler rt' (insert_alloc_site removed new_ptr site))

abbrev realloc_found :
    Bool → AllocSite → Runtime → ℕ → ℤ → ℕ → ℤ → String → String → Outcome Runtime
realloc_found true old_site rt new_ptr new_size old_ptr local_id bb_name func_name = do
  site ← new_site new_ptr new_size local_id bb_name func_name 0 true
  ok (track_realloc rt old_site old_ptr new_ptr site)
realloc_found false old_site rt new_ptr new_size old_ptr local_id bb_name func_name = do
  site ← new_site new_ptr new_size local_id bb_name func_name 0 false
  ok (track_untracked rt new_ptr site)

-- The hook's `oldSize` is not read.
unfoldable pub realloc_hook : Runtime → ℕ → ℤ → ℕ → ℤ → ℤ → String → String → Outcome Runtime
unfolding get_or_init
realloc_hook rt new_ptr new_size old_ptr old_size local_id bb_name func_name = do
  old_site ← get_alloc_site (get_or_init rt).0 old_ptr
  realloc_found (is_valid old_site) old_site rt new_ptr new_size old_ptr local_id bb_name func_name

-- The hook's `size` and `localID` are not read.
unfoldable pub dealloc_hook : Runtime → ℕ → ℤ → ℤ → Runtime
unfolding get_or_init
dealloc_hook rt ptr size local_id =
    let (h, rt') = get_or_init rt in count_dealloc_hook (with_handler rt' (remove_alloc_site h ptr))
