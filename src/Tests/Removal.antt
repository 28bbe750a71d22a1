-- ===== src/Tests/Removal.antt =====
-- The removal of a function's hooks, and of a hook in an unreachable block.
use ia2_provsan.Base.{none}
use ia2_provsan.Base.Outcome.{fails, null_dereferenced}
use ia2_provsan.Post.Report.{print_faulting_location}
use ia2_provsan.Base.{arith}
use ia2_provsan.Base.{Option, some}
use ia2_provsan.Post.Profile.{FaultMap}
use ia2_provsan.Post.Report.{DebugLoc, own}
use ia2_provsan.Base.{ℕ, ◌≡◌, refl, true, false, some, List, [], ◌∷◌, str_eq}
use ia2_provsan.Base.Outcome.{ok, fails, erased_used}
use ia2_provsan.Containers.Sorted.{lookup, emplace}
use ia2_provsan.Post.Ir.{BasicBlock, Function, call}
use ia2_provsan.Post.Number.{
  Tally, number_functions, hook_index, sort_functions, insert_sorted, definitions, number_function,
  number_blocks, number_insts, number_hook, count_hook, written_args,
}
use ia2_provsan.Post.Patch.{
  patch_and_count, patch_instruction, count_modified, change_calls, change_blocks, change_insts,
  alloc_replacement, has_function, any_call, any_block, any_inst,
}
use ia2_provsan.Post.Patch.Replaced.{listed, AllDirect, patch_listed}
use ia2_provsan.Post.Removal.{remove_hooks, any_lost}
use ia2_provsan.Post.Removal.Keys.{inst_keys, block_keys, keys, identities, hook_ids, IsDistinct}
use ia2_provsan.Post.Removal.Complete.{without_hooks, IsClear}
use ia2_provsan.Post.Removal.Left.{remove_hooks_lost}
use ia2_provsan.Base.Int.{pos}
use ia2_provsan.Post.Number.{assign_local_ids}
use ia2_provsan.Post.Profile.{
  Files, find_function, add_site, from_json, get_fault_paths, add_values, add_files,
  get_faulting_alloc_map, parse_json_array_file,
}
use ia2_provsan.Post.Run.{
  Flags, TestFlags, with_test_flags, config, put_back, find_named, fault_map, run,
}
use ia2_provsan.Post.Run.Names.{AreNamed}
use ia2_provsan.Post.Run.Clear.{patched, run-IsClear}
use ia2_provsan.Tests.Passes.{main_function, alloc_hook_call, no_tally, untrusted_malloc, json}

abbrev pub hook_declaration : Function
hook_declaration = record {
  name = "allocHook";
  is_declaration = true;
  blocks = [];
  unreachable = [];
}

-- A profile with the first hook of `main`, in its block.
abbrev first_hook : Files
first_hook = record {
  is_directory = λ path. false;
  entries = λ path. [];
  get_file = λ path. some "[0]";
}

abbrev pub removing : TestFlags
removing = record { mpk_test_profile_path = "profile.json"; mpk_test_remove_hooks = true }

abbrev pub no_flags : Flags
no_flags = record { mpk_profile_path = ""; remove_hooks = false }

abbrev pub program : List Function
program = hook_declaration ∷ main_function ∷ untrusted_malloc ∷ []

abbrev flags_used : Flags
flags_used = with_test_flags removing no_flags

abbrev locations : ℕ → Option DebugLoc
locations k = some (own "main.c" k 1)

-- What the profile comes to.
abbrev first_faults : FaultMap
first_faults =
    ("main", (0, record { local_id = 0; pkey = 1; bb_name = "block1"; func_name = "main" }) ∷ [])
    ∷ []

loaded : fault_map json (pos 0) (pos 5) first_hook flags_used ≡ ok first_faults
unfolding with_test_flags str_eq find_function add_site from_json get_fault_paths add_values
    add_files get_faulting_alloc_map parse_json_array_file lookup emplace
loaded = refl

abbrev numbered : List Function × Tally
numbered = assign_local_ids (config locations flags_used) first_faults program no_tally

-- The allocation is reported.
patches_found : numbered.1.patch_list ≡ 10 ∷ []
unfolding with_test_flags str_eq assign_local_ids sort_functions insert_sorted definitions
    number_functions number_function number_blocks number_insts number_hook count_hook hook_index
    written_args find_function add_site from_json get_fault_paths add_values add_files
    get_faulting_alloc_map parse_json_array_file lookup emplace
patches_found = refl

-- Without debug information the pass crashes when it prints the location of the allocation.
crashes :
    run json (pos 0) (pos 5) first_hook (λ k. none) removing no_flags 7 program no_tally 0
    ≡ fails null_dereferenced
unfolding run with_test_flags str_eq assign_local_ids sort_functions insert_sorted definitions
    number_functions number_function number_blocks number_insts number_hook count_hook hook_index
    written_args find_function add_site from_json get_fault_paths add_values add_files
    get_faulting_alloc_map parse_json_array_file lookup emplace print_faulting_location
crashes = refl

numbered-AllDirect : AllDirect numbered.1.patch_list (put_back numbered.0 program)
unfolding with_test_flags str_eq assign_local_ids sort_functions insert_sorted definitions
    number_functions number_function number_blocks number_insts number_hook count_hook hook_index
    written_args find_function add_site from_json get_fault_paths add_values add_files
    get_faulting_alloc_map parse_json_array_file put_back find_named any_call any_block any_inst
    lookup emplace
numbered-AllDirect = (refl, tt)

pub program-AreNamed : AreNamed program
unfolding str_eq
program-AreNamed = ((refl, (refl, tt)), ((refl, tt), (tt, tt)))

program-IsDistinct : IsDistinct (identities (keys program))
unfolding identities keys block_keys inst_keys listed
program-IsDistinct = (refl, (refl, tt))

run-IsClear_example :
    let m₁ =
      patched
        (str_eq flags_used.mpk_profile_path "")
        (put_back numbered.0 program)
        numbered.1.patch_list in
    (modified : ℕ) × (run json
        (pos 0)
        (pos 5)
        first_hook
        locations
        removing
        no_flags
        7
        program
        no_tally
        0
      ≡ ok (without_hooks m₁, flags_used, numbered.1, modified, 7))
    × IsClear (without_hooks m₁)
run-IsClear_example =
    run-IsClear json (pos 0) (pos 5) first_hook removing no_flags 7 program no_tally 0 locations
      first_faults (unfold with_test_flags in refl) loaded refl refl program-AreNamed
      program-IsDistinct ((λ d. refl), ((λ d. cc), ((λ d. refl), tt)))
      (unfold str_eq in (tt, (((tt, (omega arith, tt)), tt), (tt, tt))))
      (unfold any_lost any_block any_inst in refl)
      (rw patches_found ((own "main.c" 10 1, refl), tt)) numbered-AllDirect

-- The reported allocation is counted, and once only, though it is listed twice.
counted_once :
    patch_and_count program (10 ∷ 10 ∷ []) 0
    ≡ ok (change_calls (patch_listed program (10 ∷ 10 ∷ [])) program, 1)
unfolding patch_and_count patch_instruction count_modified change_calls change_blocks change_insts
    listed has_function alloc_replacement str_eq any_call any_block any_inst
counted_once = refl

abbrev lost_block : BasicBlock
lost_block = record { name = ""; slot = 2; label = 9; lead = []; insts = call alloc_hook_call ∷ [] }

abbrev lost_program : List Function
lost_program = record main_function { unreachable = lost_block ∷ [] } ∷ hook_declaration ∷ []

lost-IsDistinct : IsDistinct (identities (keys lost_program))
unfolding identities keys block_keys inst_keys listed
lost-IsDistinct = (refl, (refl, tt))

remove_hooks_lost_example :
    remove_hooks lost_program (hook_ids (keys lost_program)) ≡ fails erased_used
remove_hooks_lost_example =
    remove_hooks_lost lost_program lost-IsDistinct (unfold has_function str_eq in refl)
      (unfold any_lost any_block any_inst str_eq in refl)
