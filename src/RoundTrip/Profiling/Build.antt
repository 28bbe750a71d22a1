-- ===== src/RoundTrip/Profiling/Build.antt =====
-- The whole build for profiling: `run` of DynUntrustedAllocPost.cpp with no profile and with the
-- hooks kept.
use ia2_provsan.Base.{Option, none}
use ia2_provsan.Base.{
  ℕ, ◌≡◌, refl, sym, ◌∙◌, ap, subst, String, Bool, true, false, not, ◌&&◌, ◌||◌, List, [], ◌∷◌,
  arith, str_eq, str_eq_iff, if◌then◌else◌, Bool-cases, inl, inr,
}
use ia2_provsan.Base.Int.{ℤ}
use ia2_provsan.Base.Outcome.{ok}
use ia2_provsan.Site.{AllocSite}
use ia2_provsan.Post.Profile.{Json, Files, FaultMap}
use ia2_provsan.Post.Ir.{Function}
use ia2_provsan.Post.Number.{
  Config, Tally, number_function, number_functions, func_sort, insert_sorted, sort_functions,
  definitions, assign_local_ids,
}
use ia2_provsan.Post.Patch.{has_function, any_block, any_call}
use ia2_provsan.Post.Run.Ended.{FunctionHasSpace, assign_local_ids_profiling}
use ia2_provsan.Post.Report.{DebugLoc}
use ia2_provsan.Post.Profile.{get_faulting_alloc_map}
use ia2_provsan.Post.Run.{
  Flags, TestFlags, with_test_flags, config, function_or, find_named, put_back, fault_map, survived,
  run,
}
use ia2_provsan.Post.Run.Names.{
  All, All-map, All-both, AreNamed, AreEmpty, Agrees, module-Agrees, All-definitions,
  All-sort_functions,
}
use ia2_provsan.RoundTrip.Reports.{is_faulty, is_faulty_in}
use ia2_provsan.RoundTrip.Profiling.{passes_fault, number_function-passes}

-- A definition of the module is among those that are numbered.
has_function-insert_sorted :
    (f : Function) (gs : List Function) (name : String)
    → has_function (insert_sorted f gs) name ≡ (str_eq f.name name || has_function gs name)
unfolding insert_sorted has_function
has_function-insert_sorted f [] name = refl
has_function-insert_sorted f (g ∷ gs) name = elim (Bool-cases (func_sort g f)) [
  | inl before ↦ rw (before, has_function-insert_sorted f gs name) (ground arith)
  | inr after ↦ rw after refl
]

has_function-sort_functions :
    (fs : List Function) (name : String)
    → has_function (sort_functions fs) name ≡ has_function fs name
unfolding sort_functions has_function
has_function-sort_functions [] name = refl
has_function-sort_functions (f ∷ fs) name =
    has_function-insert_sorted f (sort_functions fs) name
    ∙ ap (λ b. str_eq f.name name || b) (has_function-sort_functions fs name)

has_function-number_functions :
    (cfg : Config) (fault_map : FaultMap) (fs : List Function) (t : Tally) (name : String)
    → has_function (number_functions cfg fault_map fs t).0 name ≡ has_function fs name
unfolding number_functions number_function has_function
has_function-number_functions cfg fault_map [] t name = refl
has_function-number_functions cfg fault_map (f ∷ fs) t name =
    ap (λ b. str_eq f.name name || b)
      (has_function-number_functions cfg fault_map fs (number_function cfg fault_map f t).1 name)

has_function-if :
    (b : Bool) (f : Function) (rest : List Function) (name : String)
    → has_function (if b then f ∷ rest else rest) name
      ≡ ((b && str_eq f.name name) || has_function rest name)
unfolding has_function
has_function-if true f rest name = refl
has_function-if false f rest name = refl

abbrev IsAmong : List Function → Function → Type 0
IsAmong fs f = f.is_declaration ≡ false → has_function fs f.name ≡ true

definitions-IsAmong : (m : List Function) → All (IsAmong (definitions m)) m
unfolding definitions
definitions-IsAmong [] = tt
definitions-IsAmong (f ∷ m) =
    let here : (g : Function)
        → has_function (definitions (f ∷ m)) g.name ≡ (
            (not f.is_declaration && str_eq f.name g.name) || has_function (definitions m) g.name) =
      λ g. has_function-if (not f.is_declaration) f (definitions m) g.name in
    (
      λ defined. here f ∙ rw (defined, (str_eq_iff f.name f.name).1 refl) refl,
      All-map (IsAmong (definitions m)) (IsAmong (definitions (f ∷ m))) m
          (λ g among defined. let there = among defined in here g ∙ rw there (ground arith))
          (definitions-IsAmong m),
    )

abbrev IsSame : Function → Function → Type 0
IsSame f g = g ≡ f

module _ (cfg : Config) (keeps : cfg.remove_hooks ≡ false) (in_profile : FaultMap)
    (faults : List AllocSite) (k : ℕ) where
  -- What a numbered function of the same name passes.
  abbrev Found : Function → Function → Type 0
  Found f g = any_block (passes_fault faults k) g.blocks ≡ is_faulty_in faults f k

  All-number_functions :
      (f : Function) (fs : List Function) (t : Tally)
      → FunctionHasSpace f
      → All (Agrees IsSame f) fs
      → All (Agrees Found f) (number_functions cfg in_profile fs t).0
  unfolding number_functions
  All-number_functions f [] t space a = tt
  All-number_functions f (g ∷ fs) t space (p, a) = (
    λ same.
        let e = p (unfold number_function in same) in
        number_function-passes cfg in_profile g t faults k keeps
          (subst FunctionHasSpace (sym e) space)
        ∙ ap (λ h. is_faulty_in faults h k) e,
    All-number_functions f fs (number_function cfg in_profile g t).1 space a,
  )

  function_or-Found :
      (f : Function) (fs : List Function)
      → All (Agrees Found f) fs
      → has_function fs f.name ≡ true
      → Found f (function_or (find_named fs f.name) f)
  unfolding find_named has_function
  function_or-Found f [] a there = absurd cc
  function_or-Found f (g ∷ fs) (p, a) there = elim (Bool-cases (str_eq g.name f.name)) [
    | inl same ↦ rw same (p same)
    | inr other ↦ rw other (function_or-Found f fs a (rw other at there))
  ]

  -- A declaration has no blocks; a definition is among the numbered functions.
  abbrev Stays : List Function → Function → Type 0
  Stays numbered f =
      (f.is_declaration ≡ true → f.blocks ≡ [])
      × (All (Agrees Found f) numbered × IsAmong numbered f)

  if-passes :
      (declared : Bool) (f g : Function)
      → (declared ≡ true → f.blocks ≡ [])
      → (declared ≡ false → Found f g)
      → any_block (passes_fault faults k) (if declared then f else g).blocks
        ≡ (not declared && is_faulty_in faults f k)
  unfolding any_block
  if-passes true f g empty found = rw (empty refl)
  if-passes false f g empty found = found refl

  any_call-put_back :
      (numbered fs : List Function)
      → All (Stays numbered) fs
      → any_call (passes_fault faults k) (put_back numbered fs) ≡ is_faulty faults fs k
  unfolding put_back any_call is_faulty
  any_call-put_back numbered [] a = refl
  any_call-put_back numbered (f ∷ fs) (stays, a) =
      let (empty, (found, among)) = stays in
      let g = function_or (find_named numbered f.name) f in
      let first =
        if-passes f.is_declaration f g empty
          (λ defined. function_or-Found f numbered found (among defined)) in
      rw (first, any_call-put_back numbered fs a) refl

  Stays-All :
      (m : List Function) (t : Tally)
      → AreNamed m
      → AreEmpty m
      → All FunctionHasSpace m
      → All (Stays (assign_local_ids cfg in_profile m t).0) m
  unfolding assign_local_ids
  Stays-All m t named empty space =
      let sorted = sort_functions (definitions m) in
      let numbered = (number_functions cfg in_profile sorted t).0 in
      let found =
        All-map (λ f. FunctionHasSpace f × All (Agrees IsSame f) m)
          (λ f. All (Agrees Found f) numbered) m
          (λ f both. All-number_functions f sorted t both.0 (
            All-sort_functions (Agrees IsSame f) (definitions m)
              (All-definitions (Agrees IsSame f) m both.1)))
          (All-both FunctionHasSpace (λ f. All (Agrees IsSame f) m) m space
            (module-Agrees IsSame m (λ f. refl) named)) in
      let among =
        All-map (IsAmong (definitions m)) (IsAmong numbered) m
          (λ f present defined.
            has_function-number_functions cfg in_profile sorted t f.name
            ∙ has_function-sort_functions (definitions m) f.name
            ∙ present defined)
          (definitions-IsAmong m) in
      All-both (λ f. f.is_declaration ≡ true → f.blocks ≡ [])
        (λ f. All (Agrees Found f) numbered × IsAmong numbered f) m empty
        (All-both (λ f. All (Agrees Found f) numbered) (IsAmong numbered) m found among)

no_fault_map :
    (json : Json) (temp_id temp_pkey : ℤ) (files : Files) (path : String)
    → str_eq path "" ≡ true
    → get_faulting_alloc_map json temp_id temp_pkey files path ≡ ok []
unfolding get_faulting_alloc_map
no_fault_map json temp_id temp_pkey files path empty = rw empty refl

-- Where no failure was noted before, for a module whose functions have distinct names, in which declarations have no blocks and the
-- alloc and realloc hooks have the three arguments that the pass writes, a build with no profile
-- that keeps the hooks returns. In the code that it leaves, whatever the fault set and the call, a
-- hook on the call's result passes the number and the function of a site of the fault set exactly
-- when the call is faulty in the module: when a definition has an alloc or realloc hook on the
-- call's result whose place among the definition's such hooks, counted from 0 in 64 bits, is the
-- number of a site of the fault set with the definition's name.
pub run-passes :
    (json : Json) (temp_id temp_pkey : ℤ) (files : Files) (test : TestFlags) (flags : Flags)
    (idg : ℕ) (m : List Function) (t : Tally) (count : ℕ) (locs : ℕ → Option DebugLoc)
    → let flags' = with_test_flags test flags in
      str_eq flags'.mpk_profile_path "" ≡ true
      → flags'.remove_hooks ≡ false
      → t.ended ≡ none
      → AreNamed m
      → AreEmpty m
      → All FunctionHasSpace m
      → (n : List Function) × (t' : Tally) × (run json temp_id temp_pkey files locs test flags idg m
            t count
          ≡ ok (n, flags', t', count, idg))
        × ((faults : List AllocSite) (k : ℕ)
            → any_call (passes_fault faults k) n ≡ is_faulty faults m k)
unfolding run
run-passes json temp_id temp_pkey files test flags idg m t count locs no_profile keeps running named
      empty space =
    let flags' = with_test_flags test flags in
    let loads : fault_map json temp_id temp_pkey files flags' ≡ ok [] =
      no_fault_map json temp_id temp_pkey files flags'.mpk_profile_path no_profile in
    let r = assign_local_ids (config locs flags') [] m t in
    let goes_on : survived r ≡ ok r =
      rw (assign_local_ids_profiling (config locs flags') [] m t running space no_profile) refl in
    let (numbered, t') = r in
    (
      put_back numbered m,
      t',
      rw (loads, goes_on, no_profile, keeps) refl,
      λ faults k.
          any_call-put_back (config locs flags') keeps [] faults k numbered m
            (Stays-All (config locs flags') keeps [] faults k m t named empty space),
    )
