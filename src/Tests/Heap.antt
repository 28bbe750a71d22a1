-- ===== src/Tests/Heap.antt =====
-- A block that is allocated, grown by `realloc`, and freed.
use ia2_provsan.Base.{ℕ, ◌≡◌, refl, true, false, some, List, [], ◌∷◌, arith, inl}
use ia2_provsan.Base.{if◌then◌else◌, str_eq}
use ia2_provsan.Base.Int.{pos}
use ia2_provsan.Base.Outcome.{ok}
use ia2_provsan.Containers.Sorted.{Sorted}
use ia2_provsan.Containers.Hashed
use ia2_provsan.Containers.Hashed.{contains, find}
use ia2_provsan.Base.Int.{int_eq}
use ia2_provsan.Site.{AllocSite, is_valid, contains_ptr, same_site}
use ia2_provsan.Handler.{Handler, new_handler, search_map, add_fault_alloc, update_realloc_chain}
use ia2_provsan.Handler.Blocks.{Packed}
use ia2_provsan.Handler.Search.{owner}
use ia2_provsan.Handler.Entries.{search_map_exact}
use ia2_provsan.Handler.Faults.{add_fault_alloc_marks, in_chain}
use ia2_provsan.Signals.{no_stats}
use ia2_provsan.Hooks.{Runtime, get_or_init, realloc_hook}
use ia2_provsan.Hooks.Sites.{made, IsRange, IsVacant, sites}
use ia2_provsan.Hooks.Heap.{
  View, place, drop, Call, allocs, reallocs, Step, alloc, realloc, Refines, Steps, done, after, run,
  no_heap, run-tracks,
}
use ia2_provsan.Hooks.Reallocs.{
  IsRealloc, realloc_then_fault, in_chain-update_realloc_chain, first_chain,
}
use ia2_provsan.Tests.Registers.{runtime}

abbrev pub first_site : AllocSite
first_site = made 4096 64 0 "block1" "main" false

abbrev pub second_site : AllocSite
second_site = made 8192 128 1 "block2" "main" true

abbrev pub first_heap : View
first_heap = place no_heap first_site

abbrev pub second_heap : View
second_heap = place (drop first_heap (first_heap 4096)) second_site

abbrev pub first_call : Call
first_call = allocs 4096 (pos 64) (pos 0) "block1" "main"

abbrev pub second_call : Call
second_call = reallocs 8192 (pos 128) 4096 (pos 64) (pos 1) "block2" "main"

pub first-IsRange : IsRange 4096 64
first-IsRange = record { nonnull = omega arith; nonempty = omega arith; below = omega arith }

pub second-IsRange : IsRange 8192 128
second-IsRange = record { nonnull = omega arith; nonempty = omega arith; below = omega arith }

pub second-IsVacant : IsVacant (drop first_heap (first_heap 4096)) 8192 128
unfolding is_valid contains_ptr
second-IsVacant p low high = ground arith

pub first_valid : is_valid (first_heap 4096) ≡ true
unfolding is_valid contains_ptr
first_valid = refl

pub first_start : (first_heap 4096).ptr ≡ 4096
unfolding contains_ptr
first_start = refl

first-Step : Step no_heap first_call first_heap
unfolding is_valid
first-Step = alloc first-IsRange (λ p low high. refl)

second-Step : Step first_heap second_call second_heap
second-Step = realloc first_valid first_start second-IsRange second-IsVacant

history : Steps no_heap (first_call ∷ second_call ∷ []) second_heap
history = after first-Step (after second-Step done)

run-tracks_example :
    run runtime (first_call ∷ second_call ∷ [])
    ≡ ok (run-tracks runtime second_heap (first_call ∷ second_call ∷ []) refl history).0
run-tracks_example = (run-tracks runtime second_heap (first_call ∷ second_call ∷ []) refl history).1

abbrev pub one_site : Sorted AllocSite
one_site = (4096, first_site) ∷ []

pub one_packed : Packed 1 one_site
unfolding is_valid
one_packed = (omega arith, record { keyed = refl; valid = refl; below = omega arith }, tt)

search_map_exact_example : search_map one_site 4159 ≡ ok first_site
search_map_exact_example =
    (search_map_exact 1 4159 one_site one_packed).0 4096 first_site (inl (refl, refl)) (omega arith)
      (omega arith)

-- The runtime once the first block is tracked.
abbrev pub one_handler : Handler
one_handler = record new_handler { allocation_map = one_site }

abbrev pub one_runtime : Runtime
one_runtime = record runtime { handle = some one_handler }

one_owner : (p : ℕ) → owner one_site p ≡ first_heap p
unfolding owner
one_owner p = refl

pub one_tracked : Refines one_runtime first_heap
unfolding sites get_or_init
one_tracked = record { packed = one_packed; owners = one_owner }

growth : IsRealloc one_runtime one_handler first_heap 8192 128 4096 1 8200 "block2" "main"
growth = record {
  started = refl;
  uncounted = refl;
  tracked = one_tracked;
  live = first_valid;
  start = first_start;
  range = second-IsRange;
  vacant = second-IsVacant;
  low = omega arith;
  high = omega arith;
}

realloc_then_fault_example :
    realloc_hook one_runtime 8192 (pos 128) 4096 (pos 64) (pos 1) "block2" "main"
    ≡ ok
        (realloc_then_fault one_runtime one_handler first_heap 8192 128 4096 1 8200 "block2" "main"
          (pos 64)
          1
          growth).0
realloc_then_fault_example =
    (realloc_then_fault one_runtime one_handler first_heap 8192 128 4096 1 8200 "block2" "main"
      (pos 64) 1 growth).1

-- The second realloc of a site, from another origin, adds nothing to its chain.
abbrev other_origin : AllocSite
other_origin = made 12288 16 2 "block3" "main" false

abbrev chained_handler : Handler
chained_handler = record new_handler { fm = (second_site, first_site ∷ []) ∷ [] }

in_chain-update_realloc_chain_example :
    in_chain
      (update_realloc_chain chained_handler other_origin second_site)
      second_site
      other_origin
    ≡ (if same_site second_site second_site
        then first_chain chained_handler second_site other_origin other_origin
        else in_chain chained_handler second_site other_origin)
in_chain-update_realloc_chain_example =
    in_chain-update_realloc_chain chained_handler other_origin second_site second_site other_origin

origin_lost :
    in_chain
      (update_realloc_chain chained_handler other_origin second_site)
      second_site
      other_origin
    ≡ false
unfolding update_realloc_chain Hashed.emplace find contains same_site int_eq str_eq
origin_lost = refl

pub no_chain :
    (chain : List AllocSite) → find same_site one_handler.fm (owner one_site 4100) ≡ some chain → ⊥
unfolding find
no_chain chain e = cc

add_fault_alloc_marks_example :
    add_fault_alloc one_handler no_stats 4100 1
    ≡ ok
        (add_fault_alloc_marks 1 one_handler no_stats 4100 1 one_packed
          (λ v. inl refl)
          (λ v chain e. absurd (no_chain chain e))).0
add_fault_alloc_marks_example =
    (add_fault_alloc_marks 1 one_handler no_stats 4100 1 one_packed (λ v. inl refl)
      (λ v chain e. absurd (no_chain chain e))).1
