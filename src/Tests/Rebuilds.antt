-- ===== src/Tests/Rebuilds.antt =====
-- A profile of two sites, and the build after it: the allocation of one site is in the module.
use ia2_provsan.Base.{Option, some}
use ia2_provsan.Post.Profile.{FaultMap}
use ia2_provsan.Post.Report.{DebugLoc, own}
use ia2_provsan.Base.{ℕ, ◌≡◌, refl, true, false, none, List, [], ◌∷◌, arith, str_eq}
use ia2_provsan.Base.Int.{pos, negsuc}
use ia2_provsan.Base.Outcome.{ok}
use ia2_provsan.Hooks.{get_or_init}
use ia2_provsan.Formatter.{flush_allocs}
use ia2_provsan.Formatter.Profile.{profile_name}
use ia2_provsan.Post.Ir.{Function}
use ia2_provsan.Post.Profile.{Files}
use ia2_provsan.Post.Number.{hook_index}
use ia2_provsan.Post.Number.Patches.{hooks, block_hooks}
use ia2_provsan.Post.Patch.{any_inst, any_block, any_call, change_calls, lacks_callee}
use ia2_provsan.Post.Patch.Replaced.{listed}
use ia2_provsan.Post.Removal.{any_lost}
use ia2_provsan.Post.Removal.Keys.{inst_keys, block_keys, keys, identities, IsDistinct}
use ia2_provsan.Post.Removal.Complete.{without_hooks, IsClear}
use ia2_provsan.Post.Run.Ended.{FunctionHasSpace}
use ia2_provsan.Post.Run.{TestFlags, put_back, run}
use ia2_provsan.Post.Run.Names.{All, AreNamed}
use ia2_provsan.RoundTrip.{files_in}
use ia2_provsan.RoundTrip.Reports.{has_fault, has_faulty_hook, is_faulty}
use ia2_provsan.RoundTrip.Rebuild.{with_profile, rebuilt, patch_faulty, flush_then_run}
use ia2_provsan.Tests.Passes.{main_function, no_tally, untrusted_malloc}
use ia2_provsan.Tests.Removal.{hook_declaration, removing}
use ia2_provsan.Tests.Profiles.{
  host, host_laws, first_fault_site, second_fault_site, sites, runtime, older_file, draws, json,
  array, objects, opens, free_name, there, reads, described, in_range,
}

-- No profile is there.
abbrev pub no_files : Files
no_files = record { is_directory = λ path. false; entries = λ path. []; get_file = λ path. none }

-- The function of the second site, whose hook has number 0.
abbrev grow_function : Function
grow_function = record main_function { name = "grow" }

abbrev program : List Function
program = hook_declaration ∷ grow_function ∷ untrusted_malloc ∷ []

-- The allocation is faulty, and its hook is not.
allocation_faulty : is_faulty sites program 10 ≡ true
unfolding is_faulty has_faulty_hook has_fault block_hooks hooks hook_index str_eq
allocation_faulty = refl

hook_kept : is_faulty sites program 11 ≡ false
unfolding is_faulty has_faulty_hook has_fault block_hooks hooks hook_index str_eq
hook_kept = refl

-- In a function of another name it is not.
elsewhere_kept : is_faulty sites (main_function ∷ []) 10 ≡ false
unfolding is_faulty has_faulty_hook has_fault block_hooks hooks hook_index str_eq
elsewhere_kept = refl

program-AreNamed : AreNamed program
unfolding str_eq
program-AreNamed = ((refl, (refl, tt)), ((refl, tt), (tt, tt)))

program-IsDistinct : IsDistinct (identities (keys program))
unfolding identities keys block_keys inst_keys listed
program-IsDistinct = (refl, (refl, tt))

all_direct : (i : ℕ) → any_call (lacks_callee i) program ≡ false
unfolding any_call any_block any_inst
all_direct i = ground arith

program-HaveSpace : All FunctionHasSpace program
unfolding hook_index str_eq
program-HaveSpace = (tt, (((tt, (omega arith, tt)), tt), (tt, tt)))

abbrev locations : ℕ → Option DebugLoc
locations k = some (own "main.c" k 1)

flush_then_run_example :
    (j : ℕ) × (host.stat older_file (profile_name host host_laws older_file draws j) ≡ none)
    × (modified : ℕ) × (fm : FaultMap) × (let path =
          profile_name host host_laws older_file draws j in
        let files =
          files_in host host_laws json
            (λ path. [])
            (flush_allocs host runtime older_file draws draws).1 in
        let (numbered, t) = rebuilt locations program no_tally fm path in
        let n = put_back numbered program in
        let cleared = without_hooks (change_calls (patch_faulty sites program n) n) in
        (run json
            (negsuc 0)
            (pos 5)
            files
            locations
            removing
            (with_profile path)
            7
            program
            no_tally
            0
          ≡ ok (cleared, with_profile path, t, modified, 7))
        × IsClear cleared)
unfolding get_or_init
flush_then_run_example =
    flush_then_run host host_laws json (λ path. []) runtime older_file older_file draws draws 1
      first_fault_site (second_fault_site ∷ []) (array sites) (objects sites) (negsuc 0) (pos 5)
      removing 7 0 program no_tally locations refl there (omega arith) free_name opens reads refl
      described in_range refl refl refl program-AreNamed program-IsDistinct
      ((λ d. refl), ((λ d. cc), ((λ d. refl), tt))) program-HaveSpace
      (unfold any_lost any_block any_inst in refl) (λ i faulty. (own "main.c" i 1, refl))
      (λ i faulty. all_direct i)

abbrev pub no_profile : TestFlags
no_profile = record { mpk_test_profile_path = ""; mpk_test_remove_hooks = false }
