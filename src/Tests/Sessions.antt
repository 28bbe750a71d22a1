-- ===== src/Tests/Sessions.antt =====
-- A history with two hooks and a violation after each, in a runtime with two counters.
use ia2_provsan.Base.{◌≡◌, refl, true, ◌&&◌, inr, none, List, [], ◌∷◌, arith, str_eq}
use ia2_provsan.Base.Int.{int_eq}
use ia2_provsan.Site.{same_site, is_valid, contains_ptr}
use ia2_provsan.Hooks.{Runtime}
use ia2_provsan.Hooks.Heap.{alloc, realloc, no_heap}
use ia2_provsan.Fault.History.{
  Event, runs_hook, violates, Events, ends, called, violated, no_marks, after, after_call,
}
use ia2_provsan.Tests.Registers.{runtime}
use ia2_provsan.Tests.Heap.{
  first_site, second_site, second_heap, first_call, second_call, first-IsRange, second-IsRange,
  second-IsVacant, first_valid, first_start,
}

abbrev pub two_counters : Runtime
two_counters = record runtime { handle = none; alloc_site_total = 2 }

abbrev pub events : List Event
events =
    runs_hook first_call
    ∷ violates 4100 1 0x346
    ∷ runs_hook second_call
    ∷ violates 8200 1 0x346
    ∷ []

unfoldable pub happened : Events 2 no_heap events second_heap
unfolding is_valid
happened = called (alloc first-IsRange (λ p low high. refl)) (inr (refl, omega arith)) (
    violated (omega arith) (
      called (realloc first_valid first_start second-IsRange second-IsVacant)
        (inr (refl, omega arith)) (violated (omega arith) ends)))

-- Both sites are marked, and the chain of the second one has the first one.
both_marked :
    let m = after happened no_marks in
    ((m.faulty first_site && m.faulty second_site) && m.chain second_site first_site) ≡ true
unfolding after after_call happened is_valid contains_ptr same_site int_eq str_eq
both_marked = refl
