-- ===== src/Tests/Cycles.antt =====
-- A build for profiling, a run of its program with a violation in the block that it allocates, and
-- the call that is then faulty.
use ia2_provsan.Base.{none}
use ia2_provsan.Base.{ℕ, ◌≡◌, ◌↔◌, refl, true, some, List, [], ◌∷◌, arith, str_eq}
use ia2_provsan.Base.Int.{pos, negsuc, int_eq}
use ia2_provsan.Base.Outcome.{ok}
use ia2_provsan.Base.Render.{to_string}
use ia2_provsan.Site.{same_site, is_valid, contains_ptr}
use ia2_provsan.Hooks.{Runtime}
use ia2_provsan.Fault.{Frame}
use ia2_provsan.Fault.Step.{handler}
use ia2_provsan.Fault.History.{no_marks, after, after_call}
use ia2_provsan.Fault.Session.{session}
use ia2_provsan.Post.Ir.{
  CallBase, call_inst, result, other, number, text, call, plain, Function, block_name,
}
use ia2_provsan.Post.Number.{
  Tally, hook_index, sort_functions, insert_sorted, definitions, assign_local_ids, number_functions,
  number_function, number_blocks, number_insts, number_hook, count_hook, written_args,
}
use ia2_provsan.Post.Profile.{get_faulting_alloc_map, find_function}
use ia2_provsan.Post.Patch.{any_call, any_block, any_inst}
use ia2_provsan.Post.Run.Ended.{FunctionHasSpace}
use ia2_provsan.Post.Run.{with_test_flags, put_back, find_named, run}
use ia2_provsan.Post.Run.Names.{All}
use ia2_provsan.RoundTrip.Reports.{is_faulty}
use ia2_provsan.RoundTrip.Cycle.{IsReached, session-is_faulty}
use ia2_provsan.Pre.Hooks.{Counters}
use ia2_provsan.Pre.Run
use ia2_provsan.Pre.Run.Quiet.{options_from}
use ia2_provsan.Pre.Run.{find_targets}
use ia2_provsan.Site.{AllocSite}
use ia2_provsan.RoundTrip.Profiling.{passes_fault}
use ia2_provsan.RoundTrip.Profiling.Both.{run-run-passes}
use ia2_provsan.Tests.Hooks.{graph, graph-IsLawful, no_counts}
use ia2_provsan.Tests.Environment
use ia2_provsan.Tests.Environment.{getenv, no_options}
use ia2_provsan.Tests.Registers.{frame}
use ia2_provsan.Tests.Heap.{first_site, second_heap}
use ia2_provsan.Tests.Sessions.{two_counters, events, happened}
use ia2_provsan.Tests.Passes.{json, no_tally, allocation, main_function, untrusted_malloc}
use ia2_provsan.Tests.Rebuilds.{no_files, no_profile}
use ia2_provsan.Tests.Removal.{hook_declaration, program, no_flags, program-AreNamed}

-- The hook with what the pass writes.
abbrev numbered_hook : CallBase
numbered_hook = record {
  identity = 11;
  kind = call_inst;
  called = some "allocHook";
  args = result 10 ∷ other 64 ∷ number 0 ∷ text "block1" ∷ text "main" ∷ [];
}

abbrev numbered_main : Function
numbered_main = record main_function {
  blocks =
      record {
        name = "";
        slot = 1;
        label = 1;
        lead = [];
        insts = call allocation ∷ call numbered_hook ∷ plain 12 ∷ [];
      }
      ∷ [];
}

abbrev profiled : List Function
profiled = hook_declaration ∷ numbered_main ∷ untrusted_malloc ∷ []

abbrev tally : Tally
tally = record no_tally { alloc_hooks = 1; total_hooks = 1 }

built :
    run json (negsuc 0) (pos 5) no_files (λ k. none) no_profile no_flags 7 program no_tally 0
    ≡ ok (profiled, no_flags, tally, 0, 7)
unfolding run with_test_flags str_eq assign_local_ids sort_functions insert_sorted definitions
    number_functions number_function number_blocks number_insts number_hook count_hook hook_index
    written_args find_function get_faulting_alloc_map put_back find_named block_name to_string
built = refl

program-HaveSpace : All FunctionHasSpace program
unfolding hook_index str_eq
program-HaveSpace = (tt, (((tt, (omega arith, tt)), tt), (tt, tt)))

-- The hook passes the site of the first block, which the history marks.
reached : IsReached (after happened no_marks) profiled 10
unfolding after after_call happened is_valid contains_ptr same_site int_eq str_eq any_call any_block
    any_inst hook_index
reached = (first_site, refl, refl)

session-is_faulty_example :
    (n : List Function) × (t : Tally) × (run json
        (negsuc 0)
        (pos 5)
        no_files
        (λ k. none)
        no_profile
        no_flags
        7
        program
        no_tally
        0
      ≡ ok (n, with_test_flags no_profile no_flags, t, 0, 7))
    × (rt : Runtime) × (frame' : Frame) × (session (pos 9) (two_counters, frame) events
        ≡ ok (rt, frame'))
    × ((k : ℕ)
        → (is_faulty (handler rt).fault_set program k ≡ true)
          ↔ IsReached (after happened no_marks) n k)
session-is_faulty_example =
    session-is_faulty json (negsuc 0) (pos 5) no_files no_profile no_flags 7 program no_tally 0
      two_counters frame (pos 9) events second_heap (λ k. none)
      (unfold with_test_flags str_eq in refl) (unfold with_test_flags in refl) refl program-AreNamed
      ((λ d. refl), ((λ d. cc), ((λ d. refl), tt))) program-HaveSpace refl (omega arith) happened

run-run-passes_example :
    (m : List Function) × (k : Counters) × (n : List Function) × (t : Tally) × (Run.run graph getenv
        no_options Environment.program no_counts
      ≡ ok (m, options_from getenv no_options, k))
    × (run json (negsuc 0) (pos 5) no_files (λ k. none) no_profile no_flags 7 m no_tally 0
        ≡ ok (n, with_test_flags no_profile no_flags, t, 0, 7))
    × ((faults : List AllocSite) (i : ℕ)
        → any_call (passes_fault faults i) n ≡ is_faulty faults m i)
run-run-passes_example =
    run-run-passes graph getenv no_options Environment.program no_counts json (negsuc 0) (pos 5)
      no_files no_profile no_flags 7 no_tally 0 (λ k. none)
      (graph-IsLawful (find_targets Environment.program (options_from getenv no_options)))
      Environment.program-LacksHooks Environment.program-AllSound
      (unfold str_eq in ((refl, tt), (tt, tt))) ((λ d. absurd cc), ((λ d. refl), tt))
      (unfold with_test_flags str_eq in refl) (unfold with_test_flags in refl) refl
