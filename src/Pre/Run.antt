-- ===== src/Pre/Run.antt =====
-- `DynUntrustedAllocPre::run` and `printStats`, of DynUntrustedAllocPre.cpp. LLVM's temporary files
-- are parameters; the attributes and types of the hooks' declarations are not modelled.
pub mod Quiet
pub mod Numbered
use Prim.Native.String.{◌++◌ as ◌<>◌}
use ia2_provsan.Base.{String, Bool, true, false, Option, List, [], ◌∷◌, ◌++◌, if◌then◌else◌}
use ia2_provsan.Base.Outcome.{Outcome, ok, ◌>>=◌}
use ia2_provsan.Base.Render.{to_string}
use ia2_provsan.PassStats
use ia2_provsan.PassStats.{TempFiles}
use ia2_provsan.Post.Ir.{Function}
use ia2_provsan.Post.Patch.{has_function}
use ia2_provsan.Pre.Env.{populate_from_env, get_target_function_set}
use ia2_provsan.Pre.Hooks.{Targets, Counters, Graph, hook_functions}

-- `ProvSanAlloc`, `ProvSanRealloc` and `ProvSanFree`, which keep their values between modules.
pub record Options : Type 0 where
  pub provsan_alloc : List String
  pub provsan_realloc : List String
  pub provsan_free : List String

abbrev pub declaration : String → Function
declaration name = record { name = name; is_declaration = true; blocks = []; unreachable = [] }

-- `getOrInsertFunction`
unfoldable pub get_or_insert_function : List Function → String → List Function
get_or_insert_function m name = if has_function m name then m else m ++ (declaration name ∷ [])

abbrev pub declare_hooks : List Function → List Function
declare_hooks m =
    get_or_insert_function
      (get_or_insert_function (get_or_insert_function m "allocHook") "reallocHook") "deallocHook"

-- `populateFromEnv` for the three lists.
unfoldable pub read_options : (String → Option String) → Options → Outcome Options
read_options getenv options = do
  alloc ← populate_from_env getenv options.provsan_alloc "PROVSAN_ALLOC" "trusted_malloc"
  realloc ← populate_from_env getenv options.provsan_realloc "PROVSAN_REALLOC" "trusted_realloc"
  free ← populate_from_env getenv options.provsan_free "PROVSAN_FREE" "trusted_free"
  ok (record { provsan_alloc = alloc; provsan_realloc = realloc; provsan_free = free })

-- The target sets, which are made before the hooks are declared.
unfoldable pub find_targets : List Function → Options → Targets
find_targets m options = record {
  alloc_functions = get_target_function_set m options.provsan_alloc;
  realloc_functions = get_target_function_set m options.provsan_realloc;
  dealloc_functions = get_target_function_set m options.provsan_free;
}

unfoldable pub run :
    Graph
    → (String → Option String)
    → Options
    → List Function
    → Counters
    → Outcome (List Function × Options × Counters)
run g getenv options m k = do
  options' ← read_options getenv options
  (m', k') ← hook_functions g (find_targets m options') (declare_hooks m) k
  ok (m', options', k')

unfoldable pub stats_text : Counters → String
stats_text k =
    "Total number of hook instructions: "
    <> to_string k.hook_count
    <> "\n"
    <> "Number of alloc hook instructions: "
    <> to_string k.alloc_hook_counter
    <> "\n"
    <> "Number of realloc hook instructions: "
    <> to_string k.realloc_hook_counter
    <> "\n"
    <> "Number of dealloc hook instructions: "
    <> to_string k.dealloc_hook_counter
    <> "\n"

-- `printStats`
unfoldable pub print_stats : (host : TempFiles) → Counters → host.World → host.World
print_stats host k w =
    PassStats.print_stats host "TestResults/static-pre-%%%%%%%.stat" (stats_text k) w
