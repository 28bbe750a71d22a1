-- ===== src/Tests/Races.antt =====
-- The second thread gets half of the block that the first one frees, and a block that goes between
-- the lookup of its fault and the marking.
use ia2_provsan.Base.{◌≡◌, refl, true, false, [], ◌∷◌, arith}
use ia2_provsan.Base.Int.{pos}
use ia2_provsan.Base.Outcome.{ok}
use ia2_provsan.Site.{error, contains_ptr, is_valid, add_pkey, same_site}
use ia2_provsan.Handler.{
  Handler, new_handler, get_alloc_site, remove_alloc_site, mark_fault, count_fault, mark_associated,
}
use ia2_provsan.Hooks.{Runtime, get_or_init}
use ia2_provsan.Hooks.Sites.{made, IsRange}
use ia2_provsan.Hooks.Heap.{allocs, deallocs, run}
use ia2_provsan.Hooks.Race.{IsReuse, hook_order}
use ia2_provsan.Handler.Threads.{
  State, looked_up, Step, removes, marks, Steps, done, after, interleaved_fault,
}
use ia2_provsan.Handler.Search.{owner}
use ia2_provsan.Signals.{no_stats}
use ia2_provsan.Containers.Sorted.{erase}
use ia2_provsan.Containers.Hashed.{insert, find, contains}
use ia2_provsan.Tests.Heap.{
  one_handler, one_site, one_packed, first_site, one_runtime, first_heap, one_tracked, first_valid,
  first_start,
}

half-IsRange : IsRange 4096 32
half-IsRange = record { nonnull = omega arith; nonempty = omega arith; below = omega arith }

half-IsReuse : IsReuse one_runtime first_heap 4096 32
unfolding contains_ptr
half-IsReuse = record {
  tracked = one_tracked;
  live = first_valid;
  start = first_start;
  range = half-IsRange;
  inside = omega arith;
}

hook_order_example :
    ((rt' : Runtime) × (run one_runtime
          (deallocs 4096 (pos 64) (pos 0) ∷ allocs 4096 (pos 32) (pos 5) "block7" "worker" ∷ [])
        ≡ ok rt')
      × (get_alloc_site (get_or_init rt').0 4100 ≡ ok (made 4096 32 5 "block7" "worker" false)))
    × ((rt' : Runtime) × (run one_runtime
            (allocs 4096 (pos 32) (pos 5) "block7" "worker" ∷ deallocs 4096 (pos 64) (pos 0) ∷ [])
          ≡ ok rt')
        × (get_alloc_site (get_or_init rt').0 4100 ≡ ok error))
hook_order_example =
    hook_order one_runtime first_heap 4096 32 half-IsReuse 5 "block7" "worker" (pos 64) (pos 0) 4100
      (omega arith) (omega arith)

abbrev idle : State
idle = record { handler = one_handler; stats = no_stats; in_flight = [] }

abbrev marked_handler : Handler
marked_handler = record new_handler { fault_set = add_pkey first_site 1 ∷ [] }

one_valid : is_valid (owner one_site 4100) ≡ true
unfolding owner contains_ptr is_valid
one_valid = refl

freed_then_marked :
    Steps
      (looked_up idle (owner one_site 4100) 1)
      (record { handler = marked_handler; stats = no_stats; in_flight = [] })
unfolding owner contains_ptr remove_alloc_site erase mark_fault count_fault mark_associated insert
    find contains
freed_then_marked =
    after (removes 4096) (after (marks [] [] first_site 1 marked_handler no_stats refl refl) done)

interleaved_fault_example :
    Step idle (looked_up idle (owner one_site 4100) 1)
    × (contains same_site marked_handler.fault_set (owner one_site 4100) ≡ true)
interleaved_fault_example =
    interleaved_fault 1 idle (record { handler = marked_handler; stats = no_stats; in_flight = [] })
      4100 1 one_packed one_valid freed_then_marked refl
