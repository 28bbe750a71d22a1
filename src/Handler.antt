-- ===== src/Handler.antt =====
-- The class AllocSiteHandler of Runtime/alloc_site_handler.h. Each method holds the mutex of the
-- member that it uses, so it is one step on the state; addFaultAlloc takes three in turn. The map of
-- the pending keys is keyed by thread identifiers, the realloc map `FM` and the fault set by sites
-- under `operator==`. The statistics of MPK_STATS are on: the build file defines the macro for both
-- values of its option, and the code tests it by `#ifdef`.
pub mod Blocks
pub mod Search
pub mod Entries
pub mod Faults
pub mod Counts
pub mod Pending
pub mod Threads
use ia2_provsan.Base.{ℕ, ◌&&◌, Option, none, some, List, [], ◌∷◌}
use ia2_provsan.Base.{◌==◌, ltb, if◌then◌else◌}
use ia2_provsan.Base.Int.{ℤ, int_eq, is_nonneg, to_u64}
use ia2_provsan.Base.Lists.{get_elem?, set}
use ia2_provsan.Base.Outcome.{Outcome, ok, fails, end_dereferenced, require, ◌>>=◌, ◌>>◌}
use ia2_provsan.Containers.Sorted
use ia2_provsan.Containers.Sorted.{Sorted, Iter}
use ia2_provsan.Containers.Hashed
use ia2_provsan.Signals.{Stats, increment}
use ia2_provsan.Site.{AllocSite, error, contains_ptr, is_valid, same_site, add_pkey}

pub record PendingPKeyInfo : Type 0 where
  pub pkey : ℕ
  pub access_rights : ℕ

pub record Handler : Type 0 where
  pub allocation_map : Sorted AllocSite
  pub fault_set : List AllocSite
  pub pkey_by_tid_map : List (ℤ × PendingPKeyInfo)
  pub fm : List (AllocSite × List AllocSite)

-- `faultingAllocs`
abbrev pub faulting_allocs : Handler → List AllocSite
faulting_allocs h = h.fault_set

abbrev pub new_handler : Handler
new_handler = record { allocation_map = []; fault_set = []; pkey_by_tid_map = []; fm = [] }

unfoldable pub insert_alloc_site : Handler → ℕ → AllocSite → Handler
insert_alloc_site h ptr site = record h {
  allocation_map = Sorted.emplace ptr site h.allocation_map;
}

unfoldable pub remove_alloc_site : Handler → ℕ → Handler
remove_alloc_site h ptr = record h { allocation_map = Sorted.erase ptr h.allocation_map }

-- The exact match of `getAllocSite`.
abbrev exact : Option (ℕ × AllocSite) → ℕ → Option AllocSite
exact none ptr = none
exact (some (key, site)) ptr = if key == ptr then some site else none

-- The range check on the position before.
abbrev enclosing : Option (ℕ × AllocSite) → ℕ → Outcome AllocSite
enclosing none ptr = fails end_dereferenced
enclosing (some (key, site)) ptr = ok (if contains_ptr site ptr then site else error)

unfoldable pub search_at : Iter AllocSite → ℕ → Outcome AllocSite
search_at it ptr = elim (exact (Sorted.deref it) ptr) [
  | some site ↦ ok site
  | none ↦ enclosing (Sorted.deref (if Sorted.is_begin it then it else Sorted.prev it)) ptr
]

-- `getAllocSite` on the map.
unfoldable pub search_map : Sorted AllocSite → ℕ → Outcome AllocSite
search_map [] ptr = ok error
search_map (e ∷ m) ptr = search_at (Sorted.lower_bound (e ∷ m) ptr) ptr

abbrev pub get_alloc_site : Handler → ℕ → Outcome AllocSite
get_alloc_site h ptr = search_map h.allocation_map ptr

-- `AllocSiteUseCounter[id]++`
abbrev bump : List ℕ → Option ℕ → ℕ → List ℕ
bump counters none i = counters
bump counters (some n) i = set counters i (increment n)

abbrev pub bumped : Stats → ℕ → Stats
bumped st i = record st {
  alloc_site_use_counter = bump st.alloc_site_use_counter (get_elem? st.alloc_site_use_counter i) i;
}

-- The statistics of one faulting site, with their assertion.
unfoldable pub count_fault : Stats → AllocSite → Outcome Stats
count_fault st site = if st.alloc_site_count == 0 then ok st else do
  require (ltb (to_u64 site.local_id) st.alloc_site_count && is_nonneg site.local_id)
  ok (bumped st (to_u64 site.local_id))

-- The loop over the sites associated with a faulting one.
unfoldable pub mark_chain :
    List AllocSite → ℕ → List AllocSite → Stats → Outcome (List AllocSite × Stats)
mark_chain [] pkey fault_set st = ok (fault_set, st)
mark_chain (assoc ∷ rest) pkey fault_set st = do
  st' ← count_fault st assoc
  mark_chain rest pkey (Hashed.insert same_site fault_set (add_pkey assoc pkey)) st'

-- The end of `addFaultAlloc`, from the lookup in `FM` on.
unfoldable pub mark_associated :
    Option (List AllocSite) → ℕ → Handler → Stats → Outcome (Handler × Stats)
mark_associated none pkey h st = ok (h, st)
mark_associated (some chain) pkey h st = do
  (fault_set, st') ← mark_chain chain pkey h.fault_set st
  ok (record h { fault_set = fault_set }, st')

-- `addFaultAlloc` for a site that was found.
unfoldable pub mark_fault : AllocSite → ℕ → Handler → Stats → Outcome (Handler × Stats)
mark_fault alloc pkey h st = do
  st' ← count_fault st alloc
  let marked = add_pkey alloc pkey
  mark_associated (Hashed.find same_site h.fm marked) pkey
      (record h { fault_set = Hashed.insert same_site h.fault_set marked }) st'

unfoldable pub add_fault_alloc : Handler → Stats → ℕ → ℕ → Outcome (Handler × Stats)
add_fault_alloc h st ptr pkey = do
  alloc ← get_alloc_site h ptr
  if is_valid alloc then mark_fault alloc pkey h st else ok (h, st)

unfoldable pub store_pending_pkey_info : Handler → ℤ → PendingPKeyInfo → Handler
store_pending_pkey_info h tid info = record h {
  pkey_by_tid_map = Hashed.emplace int_eq h.pkey_by_tid_map tid info;
}

unfoldable pub get_and_remove : Handler → ℤ → Option PendingPKeyInfo × Handler
get_and_remove h tid = elim (Hashed.find int_eq h.pkey_by_tid_map tid) [
  | none ↦ (none, h)
  | some info ↦
      (some info, record h { pkey_by_tid_map = Hashed.erase int_eq h.pkey_by_tid_map tid })
]

-- The chain of `oldAS`, if it has one, with `oldAS` itself.
abbrev pub extended : Option (List AllocSite) → AllocSite → List AllocSite
extended none old_site = old_site ∷ []
extended (some chain) old_site = Hashed.insert same_site chain old_site

unfoldable pub update_realloc_chain : Handler → AllocSite → AllocSite → Handler
update_realloc_chain h old_site new_site = record h {
  fm =
      Hashed.emplace same_site h.fm new_site
        (extended (Hashed.find same_site h.fm old_site) old_site);
}
