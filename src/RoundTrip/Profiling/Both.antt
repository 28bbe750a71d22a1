-- ===== src/RoundTrip/Profiling/Both.antt =====
-- Both passes of a build for profiling: `run` of DynUntrustedAllocPre.cpp, then `run` of
-- DynUntrustedAllocPost.cpp with no profile.
use ia2_provsan.Base.{none}
use ia2_provsan.Base.{
  ℕ, ◌≡◌, refl, sym, ◌∙◌, String, true, false, Option, List, [], ◌∷◌, ◌++◌, arith, str_eq,
  Bool-cases, inl, inr,
}
use ia2_provsan.Base.Int.{ℤ}
use ia2_provsan.Base.Outcome.{ok}
use ia2_provsan.Site.{AllocSite}
use ia2_provsan.Post.Profile.{Json, Files}
use ia2_provsan.Post.Ir.{Function}
use ia2_provsan.Post.Number.{Tally}
use ia2_provsan.Post.Patch.{has_function, any_call}
use ia2_provsan.Post.Report.{DebugLoc}
use ia2_provsan.Post.Run.Ended.{FunctionHasSpace}
use ia2_provsan.Post.Run as PostRun
use ia2_provsan.Post.Run.{Flags, TestFlags, with_test_flags}
use ia2_provsan.Post.Run.Names.{All, AreNamed, AreEmpty}
use ia2_provsan.Pre.Hooks.{Counters, Graph}
use ia2_provsan.Pre.Hooks.Placed.{IsLawful}
use ia2_provsan.Pre.Run.{
  Options, declaration, get_or_insert_function, declare_hooks, find_targets, run,
}
use ia2_provsan.Pre.Run.Quiet.{LacksHooks, AllSound, AllHooked, options_from, run-AllHooked}
use ia2_provsan.RoundTrip.Reports.{is_faulty}
use ia2_provsan.RoundTrip.Profiling.{passes_fault}
use ia2_provsan.RoundTrip.Profiling.Build.{run-passes}

-- A declaration of a new name keeps the names distinct and declarations empty.
apart-append :
    (name new : String) (fs : List Function)
    → str_eq name new ≡ false
    → All (λ g. str_eq name g.name ≡ false) fs
    → All (λ g. str_eq name g.name ≡ false) (fs ++ (declaration new ∷ []))
apart-append name new [] other a = (other, tt)
apart-append name new (f ∷ fs) other (first, a) = (first, apart-append name new fs other a)

AreNamed-append :
    (new : String) (fs : List Function)
    → has_function fs new ≡ false
    → AreNamed fs
    → AreNamed (fs ++ (declaration new ∷ []))
unfolding has_function
AreNamed-append new [] absent named = (tt, tt)
AreNamed-append new (f ∷ fs) absent (apart, named) = (
  apart-append f.name new fs (ground (arith, absent)) apart,
  AreNamed-append new fs (ground (arith, absent)) named,
)

AreEmpty-append :
    (new : String) (fs : List Function) → AreEmpty fs → AreEmpty (fs ++ (declaration new ∷ []))
AreEmpty-append new [] empty = ((λ d. refl), tt)
AreEmpty-append new (f ∷ fs) (first, empty) = (first, AreEmpty-append new fs empty)

-- The two demands on a module.
abbrev IsClean : List Function → Type 0
IsClean m = AreNamed m × AreEmpty m

get_or_insert_function-IsClean :
    (m : List Function) (name : String) → IsClean m → IsClean (get_or_insert_function m name)
unfolding get_or_insert_function
get_or_insert_function-IsClean m name (named, empty) = elim (Bool-cases (has_function m name)) [
  | inl there ↦ rw there (named, empty)
  | inr absent ↦ rw absent (AreNamed-append name m absent named, AreEmpty-append name m empty)
]

declare_hooks-IsClean : (m : List Function) → IsClean m → IsClean (declare_hooks m)
declare_hooks-IsClean m clean =
    let first = get_or_insert_function m "allocHook" in
    let second = get_or_insert_function first "reallocHook" in
    get_or_insert_function-IsClean second "deallocHook" (
      get_or_insert_function-IsClean first "reallocHook"
        (get_or_insert_function-IsClean m "allocHook" clean))

-- So does the change of the blocks.
apart-hooked :
    (name : String) (fs fs' : List Function)
    → AllHooked fs fs'
    → All (λ g. str_eq name g.name ≡ false) fs
    → All (λ g. str_eq name g.name ≡ false) fs'
apart-hooked name [] [] h a = tt
apart-hooked name (f ∷ fs) (f' ∷ fs') (hooked, h) (first, a) =
    (rw hooked.named first, apart-hooked name fs fs' h a)
apart-hooked name [] (f' ∷ fs') h a = elim h [ ]
apart-hooked name (f ∷ fs) [] h a = elim h [ ]

AreNamed-hooked : (fs fs' : List Function) → AllHooked fs fs' → AreNamed fs → AreNamed fs'
AreNamed-hooked [] [] h named = tt
AreNamed-hooked (f ∷ fs) (f' ∷ fs') (hooked, h) (apart, named) =
    (rw hooked.named (apart-hooked f.name fs fs' h apart), AreNamed-hooked fs fs' h named)
AreNamed-hooked [] (f' ∷ fs') h named = elim h [ ]
AreNamed-hooked (f ∷ fs) [] h named = elim h [ ]

AreEmpty-hooked : (fs fs' : List Function) → AllHooked fs fs' → AreEmpty fs → AreEmpty fs'
AreEmpty-hooked [] [] h empty = tt
AreEmpty-hooked (f ∷ fs) (f' ∷ fs') (hooked, h) (first, empty) = (
  λ d. let declared = sym hooked.declared ∙ d in hooked.untouched declared ∙ first declared,
  AreEmpty-hooked fs fs' h empty,
)
AreEmpty-hooked [] (f' ∷ fs') h empty = elim h [ ]
AreEmpty-hooked (f ∷ fs) [] h empty = elim h [ ]

All-space : (fs fs' : List Function) → AllHooked fs fs' → All FunctionHasSpace fs'
All-space [] [] h = tt
All-space (f ∷ fs) (f' ∷ fs') (hooked, h) = (hooked.space, All-space fs fs' h)
All-space [] (f' ∷ fs') h = elim h [ ]
All-space (f ∷ fs) [] h = elim h [ ]

-- Let a module's functions have distinct names, declarations no blocks, and none a hook's name, let
-- them be sound with respect to the allocation functions that the environment names, and let no
-- failure be noted before. Then both passes return, for every value of the environment's variables,
-- where the second one has no profile and keeps the hooks. In the code that they leave, whatever
-- the fault set and the call, a hook on the call's result passes the number and the function of a
-- site of the fault set, at position 2 of allocHook's arguments and 4 of reallocHook's, exactly
-- when the call is faulty in the module between the passes: when a definition has an alloc or
-- realloc hook on the call's result whose place among the definition's such hooks, counted from 0
-- in 64 bits, is the number of a site of the fault set with the definition's name.
pub run-run-passes :
    (g : Graph) (getenv : String → Option String) (options : Options) (m : List Function)
    (k : Counters) (json : Json) (temp_id temp_pkey : ℤ) (files : Files) (test : TestFlags)
    (flags : Flags) (idg : ℕ) (t : Tally) (count : ℕ) (locs : ℕ → Option DebugLoc)
    → let flags' = with_test_flags test flags in
      IsLawful g (find_targets m (options_from getenv options))
      → LacksHooks m
      → AllSound (find_targets m (options_from getenv options)) m
      → AreNamed m
      → AreEmpty m
      → str_eq flags'.mpk_profile_path "" ≡ true
      → flags'.remove_hooks ≡ false
      → t.ended ≡ none
      → (m' : List Function) × (k' : Counters) × (n : List Function) × (t' : Tally) × (run g getenv
            options m k
          ≡ ok (m', options_from getenv options, k'))
        × (PostRun.run json temp_id temp_pkey files locs test flags idg m' t count
            ≡ ok (n, flags', t', count, idg))
        × ((faults : List AllocSite) (i : ℕ)
            → any_call (passes_fault faults i) n ≡ is_faulty faults m' i)
run-run-passes g getenv options m k json temp_id temp_pkey files test flags idg t count locs law
      lacks sound named empty no_profile keeps running =
    let (m', k', hooked_all, hooked) = run-AllHooked g getenv options m k law lacks sound in
    let (named', empty') = declare_hooks-IsClean m (named, empty) in
    let (n, t', built, agrees) =
      run-passes json temp_id temp_pkey files test flags idg m' t count locs no_profile keeps
        running (AreNamed-hooked (declare_hooks m) m' hooked named')
        (AreEmpty-hooked (declare_hooks m) m' hooked empty')
        (All-space (declare_hooks m) m' hooked) in
    (m', k', n, t', hooked_all, built, agrees)
