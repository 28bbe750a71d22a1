-- ===== src/RoundTrip/Rebuild.antt =====
-- The profile of one run and the build after it: `flush_allocs` of Runtime/provsan_formatter.cpp,
-- then `run` of DynUntrustedAllocPost.cpp with the path of the file that was written.
use mathlib.Core.Path.{fun_ext}
use ia2_provsan.Base.{
  ℕ, ◌<◌, ◌≡◌, ◌≢◌, refl, sym, ◌∙◌, ap, subst, String, Bool, true, false, ◌||◌, none, some, List,
  [], ◌∷◌, arith, str_eq, str_eq_iff, if◌then◌else◌, Bool-cases, inl, inr,
}
use ia2_provsan.Base.Int.{ℤ}
use ia2_provsan.Base.Outcome.{ok}
use ia2_provsan.Site.{AllocSite}
use ia2_provsan.Hooks.{Runtime, get_or_init}
use ia2_provsan.Formatter.{Host, attempts, ensure_directory, flush_allocs}
use ia2_provsan.Formatter.Files.{FileLaws}
use ia2_provsan.Formatter.Profile.{profile_name}
use ia2_provsan.Post.Profile.{Json, Files}
use ia2_provsan.Post.Ir.{CallBase, Function}
use ia2_provsan.Post.Number.{Tally, assign_local_ids}
use ia2_provsan.Post.Patch.{any_call, change_calls, lacks_callee, patch_call}
use ia2_provsan.Post.Patch.Replaced.{listed, AllDirect}
use ia2_provsan.Post.Removal.{any_lost}
use ia2_provsan.Post.Removal.Keys.{keys, is_hook, identities, IsDistinct}
use ia2_provsan.Post.Removal.Complete.{without_hooks, IsClear}
use ia2_provsan.Base.{Option, none, some, map}
use ia2_provsan.Formatter.Fields.{array_text, site_fields}
use ia2_provsan.Post.Profile.{FaultMap}
use ia2_provsan.Post.Report.{DebugLoc}
use ia2_provsan.Post.Run.Names.{All}
use ia2_provsan.Post.Run.Ended.{FunctionHasSpace, AreLocated, AreLocated-listed}
use ia2_provsan.RoundTrip.{AllHave}
use ia2_provsan.Post.Run.{Flags, TestFlags, with_test_flags, config, put_back, fault_map, run}
use ia2_provsan.Post.Run.Names.{AreNamed, AreEmpty, keys-assign_local_ids}
use ia2_provsan.Post.Run.Clear.{patched, run-IsClear}
use ia2_provsan.RoundTrip.{AllInRange, files_in, profile_name-nonempty, flush_then_load}
use ia2_provsan.RoundTrip.Direct.{any_key, any_call-key, AllDirect-listed}
use ia2_provsan.RoundTrip.Reports.{Holds, is_faulty, assign_local_ids-reports}

-- The flags that name the profile.
abbrev pub with_profile : String → Flags
with_profile path = record { mpk_profile_path = path; remove_hooks = true }

str_eq_nonempty : (path : String) → path ≢ "" → str_eq path "" ≡ false
str_eq_nonempty path named = elim (Bool-cases (str_eq path "")) [
  | inl same ↦ absurd (named ((str_eq_iff path "").0 same))
  | inr other ↦ other
]

with_test_flags_given :
    (test : TestFlags) (path : String)
    → str_eq path "" ≡ false
    → with_test_flags test (with_profile path) ≡ with_profile path
unfolding with_test_flags
with_test_flags_given test path given = rw given (ground arith)

-- The numbering of a build with a profile.
abbrev pub rebuilt :
    (ℕ → Option DebugLoc) → List Function → Tally → FaultMap → String → List Function × Tally
rebuilt locs m t fm path = assign_local_ids (config locs (with_profile path)) fm m t

module _ (J : Json) (junk_id junk_pkey : ℤ) (faults : List AllocSite) (m : List Function)
    (t : Tally) (fresh : t.patch_list ≡ []) (files : Files) (path : String)
    (given : str_eq path "" ≡ false) (locs : ℕ → Option DebugLoc) (fm : FaultMap)
    (loads : fault_map J junk_id junk_pkey files (with_profile path) ≡ ok fm)
    (holds : Holds fm faults) where
  abbrev numbering : List Function × Tally
  numbering = rebuilt locs m t fm path

  rebuilt-reports : (k : ℕ) → listed numbering.1.patch_list k ≡ is_faulty faults m k
  rebuilt-reports k =
      assign_local_ids-reports fm faults holds (config locs (with_profile path)) given m t k
      ∙ ap (λ l. listed l k || is_faulty faults m k) fresh
      ∙ unfold listed in refl

  rebuilt-AllDirect :
      AreNamed m
      → ((k : ℕ) → is_faulty faults m k ≡ true → any_call (lacks_callee k) m ≡ false)
      → AllDirect numbering.1.patch_list (put_back numbering.0 m)
  rebuilt-AllDirect named direct =
      let n = put_back numbering.0 m in
      let (same, lost) =
        keys-assign_local_ids (config locs (with_profile path)) fm m t refl named in
      AllDirect-listed n numbering.1.patch_list (λ k reported.
        any_call-key k n
        ∙ ap (any_key k) same
        ∙ sym (any_call-key k m)
        ∙ direct k (sym (rebuilt-reports k) ∙ reported))

  -- The pass over the module, as it returns.
  abbrev Rebuilds : TestFlags → Flags → ℕ → ℕ → Flags → Type 0
  Rebuilds test flags idg count flags' =
      let r = assign_local_ids (config locs flags') fm m t in
      let m₁ = patched (str_eq flags'.mpk_profile_path "") (put_back r.0 m) r.1.patch_list in
      (modified : ℕ) × (run J junk_id junk_pkey files locs test flags idg m t count
        ≡ ok (without_hooks m₁, flags', r.1, modified, idg))
      × IsClear (without_hooks m₁)

  run_rebuilt :
      (test : TestFlags) (idg count : ℕ)
      → t.hook_list ≡ []
      → t.ended ≡ none
      → AreNamed m
      → IsDistinct (identities (keys m))
      → AreEmpty m
      → All FunctionHasSpace m
      → any_lost is_hook m ≡ false
      → ((k : ℕ) → is_faulty faults m k ≡ true → (loc : DebugLoc) × (locs k ≡ some loc))
      → ((k : ℕ) → is_faulty faults m k ≡ true → any_call (lacks_callee k) m ≡ false)
      → Rebuilds test (with_profile path) idg count (with_profile path)
  run_rebuilt test idg count unlisted running named distinct empty space unlost located direct =
      let same = with_test_flags_given test path given in
      subst (λ flags'. Rebuilds test (with_profile path) idg count flags') same
        (run-IsClear J junk_id junk_pkey files test (with_profile path) idg m t count locs fm
          (ap (λ (flags' : Flags). flags'.remove_hooks) same)
          (ap (λ flags'. fault_map J junk_id junk_pkey files flags') same ∙ loads) unlisted running
          named distinct empty space unlost
          (subst
            (λ flags'. AreLocated locs (assign_local_ids (config locs flags') fm m t).1.patch_list)
            (sym same)
            (AreLocated-listed locs numbering.1.patch_list
              (λ k there. located k (sym (rebuilt-reports k) ∙ there))))
          (subst
            (λ flags'.
              let r = assign_local_ids (config locs flags') fm m t in
              AllDirect r.1.patch_list (put_back r.0 m))
            (sym same) (rebuilt-AllDirect named direct)))

-- A call with a faulty identity calls the replacement.
abbrev pub patch_faulty : List AllocSite → List Function → List Function → CallBase → CallBase
patch_faulty faults m n c = if is_faulty faults m c.identity then patch_call n c else c

patched_faulty :
    (empty : Bool) (faults : List AllocSite) (m n : List Function) (patches : List ℕ)
    → empty ≡ false
    → ((k : ℕ) → listed patches k ≡ is_faulty faults m k)
    → patched empty n patches ≡ change_calls (patch_faulty faults m n) n
patched_faulty true faults m n patches e same = absurd cc
patched_faulty false faults m n patches e same =
    ap (λ g. change_calls g n)
      (fun_ext (λ c. ap (λ b. if b then patch_call n c else c) (same c.identity)))

module _ (host : Host) (laws : FileLaws host) (J : Json)
    (entries : String → List (String × String)) where
  -- On a host whose calls behave, let the directory be there or be made, one of the 128 names be
  -- free, and a stream open at every free name; let the parser read the JSON text of an array of
  -- objects with the sites' fields, for the sites of the runtime's fault set, which is not empty, to
  -- objects with these fields, and let the sites' numbers be in range and their names not empty. Let
  -- a module's functions have distinct names and its calls distinct identities, declarations have
  -- no blocks, the alloc and realloc hooks of reachable blocks the three arguments that the pass
  -- writes, unreachable blocks no hooks, and faulty calls a callee and a debug location, where a call
  -- is faulty if a definition has an alloc or realloc hook on its result whose place among the
  -- definition's such hooks is the number of a site of the fault set with its name. Then a flush
  -- leaves a profile under a name that was free, and a build of the module that is given that name,
  -- that removes hooks, and that starts with no hook and no patch listed and no failure noted,
  -- returns. It leaves the numbered module in which the calls that are faulty, and no others, call
  -- the replacement that the module has for their callee, without the hooks and their calls, of
  -- which none is left.
  pub flush_then_run :
      (rt : Runtime) (w w₁ : host.World) (draw stats_draw : ℕ → ℕ) (k : ℕ) (fault : AllocSite)
      (faults : List AllocSite) (root : J.Value) (vs : List J.Value) (junk_id junk_pkey : ℤ)
      (test : TestFlags) (idg count : ℕ) (m : List Function) (t : Tally)
      (locs : ℕ → Option DebugLoc)
      → (get_or_init rt).0.fault_set ≡ fault ∷ faults
      → ensure_directory host w ≡ some w₁
      → k < attempts
      → host.stat w₁ (profile_name host laws w₁ draw k) ≡ none
      → ((name : String)
          → host.stat w₁ name ≡ none
          → (w₂ : host.World) × (host.open_stream w₁ name ≡ some w₂))
      → J.parse (array_text (site_fields fault) (map site_fields faults)) ≡ some root
      → J.get_as_array root ≡ some vs
      → AllHave J vs (map site_fields (fault ∷ faults))
      → AllInRange (fault ∷ faults)
      → t.hook_list ≡ []
      → t.patch_list ≡ []
      → t.ended ≡ none
      → AreNamed m
      → IsDistinct (identities (keys m))
      → AreEmpty m
      → All FunctionHasSpace m
      → any_lost is_hook m ≡ false
      → ((i : ℕ) → is_faulty (fault ∷ faults) m i ≡ true → (loc : DebugLoc) × (locs i ≡ some loc))
      → ((i : ℕ) → is_faulty (fault ∷ faults) m i ≡ true → any_call (lacks_callee i) m ≡ false)
      → (j : ℕ) × (host.stat w₁ (profile_name host laws w₁ draw j) ≡ none)
        × (modified : ℕ) × (fm : FaultMap) × (let path = profile_name host laws w₁ draw j in
            let files = files_in host laws J entries (flush_allocs host rt w draw stats_draw).1 in
            let (numbered, t') = rebuilt locs m t fm path in
            let n = put_back numbered m in
            let cleared = without_hooks (change_calls (patch_faulty (fault ∷ faults) m n) n) in
            (run J junk_id junk_pkey files locs test (with_profile path) idg m t count
              ≡ ok (cleared, with_profile path, t', modified, idg))
            × IsClear cleared)
  flush_then_run rt w w₁ draw stats_draw k fault faults root vs junk_id junk_pkey test idg count m t
        locs set made below free opens reads is_array fields in_range unlisted fresh running named
        distinct empty space unlost located direct =
      let (j, unused, fm, loads, holds) =
        flush_then_load host laws J entries rt w w₁ draw stats_draw k fault faults root vs junk_id
          junk_pkey set made below free opens reads is_array fields in_range in
      let path = profile_name host laws w₁ draw j in
      let files = files_in host laws J entries (flush_allocs host rt w draw stats_draw).1 in
      let given = str_eq_nonempty path (profile_name-nonempty host laws w₁ draw j) in
      let r = rebuilt locs m t fm path in
      let (modified, returned, clear) =
        run_rebuilt J junk_id junk_pkey (fault ∷ faults) m t fresh files path given locs fm loads
          holds test idg count unlisted running named distinct empty space unlost located direct in
      let same =
        patched_faulty (str_eq path "") (fault ∷ faults) m (put_back r.0 m) r.1.patch_list given (
          rebuilt-reports J junk_id junk_pkey (fault ∷ faults) m t fresh files path given locs fm
            loads holds) in
      (
        j,
        unused,
        modified,
        fm,
        (
          subst
              (λ m₁.
                run J junk_id junk_pkey files locs test (with_profile path) idg m t count
                ≡ ok (without_hooks m₁, with_profile path, r.1, modified, idg))
              same returned,
          subst (λ m₁. IsClear (without_hooks m₁)) same clear,
        ),
      )
