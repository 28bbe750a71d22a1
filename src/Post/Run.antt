-- ===== src/Post/Run.antt =====
-- The class ProvsanPost: its constructor, `run` and `printStats`, of DynUntrustedAllocPost.h and .cpp.
-- The environment, `std::stoi`, the profile's files and LLVM's temporary files are parameters;
-- messages are not modelled.
pub mod Perms
pub mod Names
pub mod Ended
pub mod Kept
pub mod Clear
use ia2_provsan.Base.{
  ℕ, zero, String, Bool, true, false, ◌&&◌, not, Option, none, some, List, [], ◌∷◌, str_eq,
  if◌then◌else◌,
}
use Prim.Native.String.{◌++◌ as ◌<>◌}
use ia2_provsan.Base.Render.{to_string}
use ia2_provsan.Base.Int.{ℤ, pos, negsuc}
use ia2_provsan.Base.Outcome.{Outcome, ok, fails, Failure, not_a_number, ◌>>=◌}
use ia2_provsan.PassStats
use ia2_provsan.PassStats.{TempFiles}
use ia2_provsan.Post.Ir.{Function}
use ia2_provsan.Post.Profile.{Json, Files, FaultMap, get_faulting_alloc_map}
use ia2_provsan.Post.Number.{Config, Tally, get_const_int_count, assign_local_ids}
use ia2_provsan.Post.Report.{DebugLoc}
use ia2_provsan.Post.Patch.{patch_and_count}
use ia2_provsan.Post.Removal.{remove_hooks}

-- The members `MPKProfilePath` and `RemoveHooks`.
pub record Flags : Type 0 where
  pub mpk_profile_path : String
  pub remove_hooks : Bool

-- The options `mpk-test-profile-path` and `mpk-test-remove-hooks`.
pub record TestFlags : Type 0 where
  pub mpk_test_profile_path : String
  pub mpk_test_remove_hooks : Bool

abbrev value_or_empty : Option String → String
value_or_empty none = ""
value_or_empty (some value) = value

abbrev to_bool : ℤ → Bool
to_bool (pos zero) = false
to_bool _ = true

abbrev stoi_or : Option ℤ → Outcome Bool
stoi_or none = fails not_a_number
stoi_or (some n) = ok (to_bool n)

abbrev flag_of : (String → Option ℤ) → Option String → Outcome Bool
flag_of stoi none = ok false
flag_of stoi (some value) = stoi_or (stoi value)

-- The constructor.
unfoldable pub provsan_post :
    (String → Option String) → (String → Option ℤ) → String → Bool → Outcome Flags
provsan_post getenv stoi path remove = do
  remove' ← (if remove then ok true else flag_of stoi (getenv "PROVSAN_HOOK"))
  ok (record {
    mpk_profile_path = if str_eq path "" then value_or_empty (getenv "PROVSAN_PATH") else path;
    remove_hooks = remove';
  })

unfoldable pub with_test_flags : TestFlags → Flags → Flags
with_test_flags test flags = record {
  mpk_profile_path =
      if str_eq flags.mpk_profile_path "" && not (str_eq test.mpk_test_profile_path "")
      then test.mpk_test_profile_path
      else flags.mpk_profile_path;
  remove_hooks = if test.mpk_test_remove_hooks then true else flags.remove_hooks;
}

abbrev pub config : (ℕ → Option DebugLoc) → Flags → Config
config locs flags = record {
  remove_hooks = flags.remove_hooks;
  profile_path_empty = str_eq flags.mpk_profile_path "";
  debug_loc = locs;
}

abbrev pub function_or : Option Function → Function → Function
function_or none f = f
function_or (some g) f = g

unfoldable pub find_named : List Function → String → Option Function
find_named [] name = none
find_named (f ∷ fs) name =
    let rest = find_named fs name in if str_eq f.name name then some f else rest

-- The module after its definitions, which are known by their names, have been numbered in place.
unfoldable pub put_back : List Function → List Function → List Function
put_back numbered [] = []
put_back numbered (f ∷ fs) =
    (if f.is_declaration then f else function_or (find_named numbered f.name) f)
    ∷ put_back numbered fs

abbrev pub patch_all : Bool → List Function → List ℕ → ℕ → Outcome (List Function × ℕ)
patch_all true m patches count = ok (m, count)
patch_all false m patches count = patch_and_count m patches count

abbrev pub remove_all : Bool → List Function → List ℕ → Outcome (List Function)
remove_all true m hook_list = remove_hooks m hook_list
remove_all false m hook_list = ok m

-- What the loops of `assignLocalIDs` leave, if no failure ended them.
abbrev survived_as : Option Failure → List Function × Tally → Outcome (List Function × Tally)
survived_as none r = ok r
survived_as (some why) r = fails why

abbrev pub survived : List Function × Tally → Outcome (List Function × Tally)
survived r = survived_as r.1.ended r

module _ (J : Json) (temp_id temp_pkey : ℤ) (files : Files) where
  abbrev pub fault_map : Flags → Outcome FaultMap
  fault_map flags = get_faulting_alloc_map J temp_id temp_pkey files flags.mpk_profile_path

  -- The module, the globals, and the initializer of `AllocSiteTotal`: `idg` is the count of the
  -- global `IDG`, and `count` is `modified_inst_count`. `locs` is `getDebugLoc()` of each call.
  unfoldable pub run :
      (ℕ → Option DebugLoc)
      → TestFlags
      → Flags
      → ℕ
      → List Function
      → Tally
      → ℕ
      → Outcome (List Function × Flags × Tally × ℕ × ℕ)
  run locs test flags idg m t count =
      let flags' = with_test_flags test flags in
      do
        fm ← fault_map flags'
        (numbered, t') ← survived (assign_local_ids (config locs flags') fm m t)
        let is_empty = str_eq flags'.mpk_profile_path ""
        (m₁, modified) ← patch_all is_empty (put_back numbered m) t'.patch_list count
        m₂ ← remove_all flags'.remove_hooks m₁ t'.hook_list
        ok (m₂, flags', t', modified, get_const_int_count idg)

-- The text that `printStats` writes.
unfoldable pub stats_text : ℕ → Tally → String
stats_text modified_inst_count t =
    "Number of alloc instructions modified to unsafe: "
    <> to_string modified_inst_count
    <> "\n"
    <> "Total number hooks given a LocalID: "
    <> to_string t.total_hooks
    <> "\n"
    <> "Total allocHooks: "
    <> to_string t.alloc_hooks
    <> "\n"
    <> "Total reallocHooks: "
    <> to_string t.realloc_hooks
    <> "\n"
    <> "Total deallocHooks: "
    <> to_string t.dealloc_hooks
    <> "\n"

-- `printStats`
unfoldable pub print_stats : (host : TempFiles) → ℕ → Tally → host.World → host.World
print_stats host modified_inst_count t w =
    PassStats.print_stats host "TestResults/static-post-%%%%%%%.stat"
      (stats_text modified_inst_count t) w
