-- ===== src/Tests/Passes.antt =====
-- A function with two hooks, a profile, and the pass over both.
use ia2_provsan.Base.Outcome.{ok, fails, null_dereferenced}
use ia2_provsan.Base.{◌⊎◌}
use ia2_provsan.Containers.Sorted.{lookup}
use ia2_provsan.Post.FaultMap.{all_objects}
use ia2_provsan.Post.Profile.{FaultMap}
use ia2_provsan.Post.Report.{own, print_faulting_location}
use ia2_provsan.Post.Number.Patches.{hooks}
use ia2_provsan.Post.Number.{number_blocks, number_insts, number_hook, written_args, count_hook}
use ia2_provsan.Post.Run.Ended.{number_function_survives}
use ia2_provsan.Base.{
  ℕ, ◌^◌, ◌≡◌, ◌≢◌, refl, String, true, false, Option, none, some, ◌==◌, List, [], ◌∷◌, arith,
  str_eq, ◌<◌,
}
use ia2_provsan.Base.Int.{ℤ, pos, negsuc}
use ia2_provsan.Post.Profile.{
  Json, Files, from_json, get_faulting_alloc_map, get_fault_paths, find_function,
}
use ia2_provsan.Post.FaultMap.{
  site_at-get_faulting_alloc_map, from_json-read_site, site_at, first_site, read_sites, read_site,
  all_values,
}
use ia2_provsan.Post.Ir.{
  result, number, null_text, other, CallBase, call_inst, call, plain, Function,
}
use ia2_provsan.Post.Number.{Config, Tally, number_function, hook_index}
use ia2_provsan.Post.Number.Ids.{
  number_function-consecutive, BlocksHaveSpace, block_ids, consecutive, block_count, hook_count,
}
use ia2_provsan.Post.Number.Patches.{reported, block_hooks}
use ia2_provsan.Base.Outcome.{ok}
use ia2_provsan.Post.Patch.{
  alloc_replacement, has_function, change_insts, change_blocks, change_calls, any_inst, any_block,
  any_call, patch_instructions,
}
use ia2_provsan.Post.Patch.Replaced.{listed, patch_listed, patch_instructions_listed}

-- A value is the number of its `id` field; the other fields are fixed.
abbrev pub int_field : ℕ → String → Option ℤ
int_field v key = elim (str_eq key "id") [ true ↦ some (pos v) | false ↦ some (pos 1) ]

abbrev pub text_field : ℕ → String → Option String
text_field v key = elim (str_eq key "bbName") [ true ↦ some "block1" | false ↦ some "main" ]

-- Two texts parse, to arrays.
abbrev pub read_value : String → Option ℕ
read_value text = elim (str_eq text "[1, 3]") [
  | true ↦ some 13
  | false ↦ elim (str_eq text "[0]") [ true ↦ some 10 | false ↦ none ]
]

abbrev pub elements : ℕ → Option (List ℕ)
elements v = elim (v == 13) [
  | true ↦ some (1 ∷ 3 ∷ [])
  | false ↦ elim (v == 10) [ true ↦ some (0 ∷ []) | false ↦ none ]
]

abbrev pub json : Json
json = record {
  Value = ℕ;
  parse = read_value;
  get_as_array = elements;
  is_object = λ v. true;
  map_int = int_field;
  map_string = text_field;
}

abbrev files : Files
files = record {
  is_directory = λ path. true;
  entries = λ path. ("TestResults/a.json", ".json") ∷ ("TestResults/b.stat", ".stat") ∷ [];
  get_file = λ path. some "[1, 3]";
}

from_json-read_site_example :
    from_json json (negsuc 0) (negsuc 0) 3
    ≡ ok (read_site json 3 (some (pos 3)) (some (pos 1)) (some "block1") (some "main"))
unfolding str_eq
from_json-read_site_example = from_json-read_site json (negsuc 0) (negsuc 0) 3

results_path : ◌≢◌ {A = String} "TestResults" ""
unfolding str_eq
results_path e = cc

site_at-get_faulting_alloc_map_example :
    let values = all_values json files (get_fault_paths files "TestResults") in
    ((all_objects json values ≡ true)
      × (m : FaultMap) × (get_faulting_alloc_map json (negsuc 0) (pos 5) files "TestResults" ≡ ok m)
      × ((f : String) (i : ℕ) → site_at m f i ≡ first_site (read_sites json values) f i))
    ⊎ ((all_objects json values ≡ false)
        × (get_faulting_alloc_map json (negsuc 0) (pos 5) files "TestResults"
            ≡ fails null_dereferenced))
site_at-get_faulting_alloc_map_example =
    site_at-get_faulting_alloc_map json files (negsuc 0) (pos 5) "TestResults" results_path

abbrev pub allocation : CallBase
allocation = record {
  identity = 10;
  kind = call_inst;
  called = some "trusted_malloc";
  args = other 64 ∷ [];
}

abbrev pub alloc_hook_call : CallBase
alloc_hook_call = record {
  identity = 11;
  kind = call_inst;
  called = some "allocHook";
  args = result 10 ∷ other 64 ∷ number 0 ∷ null_text ∷ null_text ∷ [];
}

abbrev pub main_function : Function
main_function = record {
  name = "main";
  is_declaration = false;
  blocks =
      record {
        name = "";
        slot = 1;
        label = 1;
        lead = [];
        insts = call allocation ∷ call alloc_hook_call ∷ plain 12 ∷ [];
      }
      ∷ [];
  unreachable = [];
}

abbrev pub profiling : Config
profiling = record {
  remove_hooks = false;
  profile_path_empty = false;
  debug_loc = λ k. some (own "main.c" k 1);
}

abbrev pub no_tally : Tally
no_tally = record {
  hook_list = [];
  patch_list = [];
  alloc_hooks = 0;
  realloc_hooks = 0;
  dealloc_hooks = 0;
  total_hooks = 0;
  ended = none;
}

room : BlocksHaveSpace main_function.blocks
unfolding hook_index str_eq
room = ((tt, (omega arith, tt)), tt)

few : block_count main_function.blocks < 2 ^ 64
unfolding block_count hook_count hook_index str_eq
few = omega arith

number_function-consecutive_example :
    block_ids (number_function profiling [] main_function no_tally).0.blocks
    ≡ consecutive 0 (block_count main_function.blocks)
number_function-consecutive_example =
    number_function-consecutive profiling [] main_function no_tally room few

-- The profile has the hook of `main`.
abbrev main_faults : FaultMap
main_faults =
    ("main", (0, record { local_id = 0; pkey = 1; bb_name = "block1"; func_name = "main" }) ∷ [])
    ∷ []

main_reported :
    reported (find_function main_faults "main") 0 (block_hooks main_function.blocks) ≡ 10 ∷ []
unfolding find_function block_hooks hooks hook_index str_eq reported lookup
main_reported = refl

number_function_survives_example :
    ((number_function profiling main_faults main_function no_tally).1.ended ≡ none)
    × ((number_function profiling main_faults main_function no_tally).1.patch_list
        ≡ reported (find_function main_faults "main") 0 (block_hooks main_function.blocks))
number_function_survives_example =
    number_function_survives profiling main_faults main_function no_tally refl refl room
      (rw main_reported ((own "main.c" 10 1, refl), tt))

-- Without debug information the pass ends where it prints the location.
unlocated :
    let cfg : Config = record profiling { debug_loc = λ k. none } in
    (number_function cfg main_faults main_function no_tally).1.ended ≡ some null_dereferenced
unfolding number_function number_blocks number_insts number_hook hook_index find_function
    written_args print_faulting_location count_hook str_eq lookup
unlocated = refl

abbrev pub untrusted_malloc : Function
untrusted_malloc = record {
  name = "untrusted_malloc";
  is_declaration = true;
  blocks = [];
  unreachable = [];
}

abbrev linked : List Function
linked = main_function ∷ untrusted_malloc ∷ []

abbrev patched_allocation : CallBase
patched_allocation = record {
  identity = 10;
  kind = call_inst;
  called = some "untrusted_malloc";
  args = other 64 ∷ [];
}

-- The call of `trusted_malloc` now calls `untrusted_malloc`.
patched_code :
    change_calls (patch_listed linked (10 ∷ 10 ∷ [])) linked
    ≡ record main_function {
      blocks =
          record {
            name = "";
            slot = 1;
            label = 1;
            lead = [];
            insts = call patched_allocation ∷ call alloc_hook_call ∷ plain 12 ∷ [];
          }
          ∷ [];
    }
      ∷ untrusted_malloc
      ∷ []
unfolding change_calls change_blocks change_insts listed has_function alloc_replacement str_eq
patched_code = refl

patch_instructions_listed_example :
    patch_instructions linked (10 ∷ 10 ∷ [])
    ≡ ok (change_calls (patch_listed linked (10 ∷ 10 ∷ [])) linked)
unfolding any_call any_block any_inst
patch_instructions_listed_example =
    patch_instructions_listed linked (10 ∷ 10 ∷ []) (refl, (refl, tt))
