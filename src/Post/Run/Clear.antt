-- ===== src/Post/Run/Clear.antt =====
-- The whole pass, when it removes hooks.
use mathlib.Core.List.{Permᴰ}
use mathlib.Core.List.Permᴰ
use ia2_provsan.Base.{
  ℕ, Bool, true, false, Option, none, List, [], ◌∷◌, ◌++◌, ◌≡◌, refl, sym, ◌∙◌, ap, subst, str_eq,
}
use ia2_provsan.Base.Int.{ℤ}
use ia2_provsan.Base.Outcome.{ok, ◌>>=◌, >>=_returned}
use ia2_provsan.Post.Ir.{Function}
use ia2_provsan.Post.Profile.{Json, Files, FaultMap}
use ia2_provsan.Post.Number.{Tally, sort_functions, definitions, assign_local_ids}
use ia2_provsan.Post.Patch.{
  change_calls, patch_instruction, patch_instructions, count_modified, patch_and_count,
}
use ia2_provsan.Post.Patch.Replaced.{AllDirect, patch_listed, patch_instructions_listed}
use ia2_provsan.Post.Removal.{any_lost, remove_hooks}
use ia2_provsan.Post.Removal.Keys.{
  keys, is_hook, identities, hook_ids, IsDistinct, erase_calls-same,
}
use ia2_provsan.Post.Removal.Listed.{
  is_listed, erase_hooks_listed, hook_ids-IsDistinct, Marks, hook_ids-Marks, hook_ids-AllPresent,
}
use ia2_provsan.Post.Removal.Complete.{without_hooks, IsClear, without_hooks-IsClear, drop_hooks}
use ia2_provsan.Post.Removal.Collected.{number_functions-keys}
use ia2_provsan.Post.Run.{
  Flags, TestFlags, with_test_flags, config, put_back, patch_all, remove_all, fault_map, survived,
  run,
}
use ia2_provsan.Post.Run.Perms.{
  listed-Perm, IsDistinct-Perm, AllPresent-Perm, keys-Perm, hook_ids-Perm, sort_functions-Perm,
}
use ia2_provsan.Post.Run.Names.{All, AreNamed, AreEmpty, keys-definitions, keys-assign_local_ids}
use ia2_provsan.Post.Run.Ended.{FunctionHasSpace, AreLocated, assign_local_ids_reporting}
use ia2_provsan.Post.Report.{DebugLoc}
use ia2_provsan.Post.Run.Kept.{hooks-patch_listed}

-- `removeHooks` with the reachable hooks in its list in any order.
remove_hooks-Perm :
    (m : List Function) (hook_list : List ℕ)
    → any_lost is_hook m ≡ false
    → IsDistinct (identities (keys m))
    → Permᴰ (hook_ids (keys m)) hook_list
    → remove_hooks m hook_list ≡ ok (without_hooks m)
unfolding remove_hooks
remove_hooks-Perm m hook_list unlost distinct p =
    let ids = hook_ids (keys m) in
    rw
      (
        erase_hooks_listed hook_list m (IsDistinct-Perm p (hook_ids-IsDistinct (keys m) distinct))
            (AllPresent-Perm m p (hook_ids-AllPresent m)),
        erase_calls-same (is_listed hook_list) is_hook (Marks ids)
            (λ c marked. sym (listed-Perm c.identity p) ∙ marked) m
            (hook_ids-Marks (keys m) distinct),
      )
      (drop_hooks m unlost)

remove_all_removes :
    (remove : Bool) (m : List Function) (hook_list : List ℕ)
    → remove ≡ true
    → remove_all remove m hook_list ≡ remove_hooks m hook_list
remove_all_removes true m hook_list e = refl
remove_all_removes false m hook_list e = absurd cc

-- The list of hooks that the numbering leaves has all hooks of the module.
hook_list-Perm :
    (locs : ℕ → Option DebugLoc) (flags : Flags) (fm : FaultMap) (m : List Function) (t : Tally)
    → flags.remove_hooks ≡ true
    → t.hook_list ≡ []
    → AreEmpty m
    → let r = assign_local_ids (config locs flags) fm m t in Permᴰ (hook_ids (keys m)) r.1.hook_list
unfolding assign_local_ids
hook_list-Perm locs flags fm m t removes fresh empty =
    let sorted = sort_functions (definitions m) in
    let (same, list, lost) = number_functions-keys (config locs flags) removes fm sorted t in
    let all = list ∙ ap (λ l. l ++ hook_ids (keys sorted)) fresh in
    let sorts = hook_ids-Perm (keys-Perm (sort_functions-Perm (definitions m))) in
    subst (λ l. Permᴰ (hook_ids (keys m)) l) (sym all)
      (subst (λ ks. Permᴰ (hook_ids ks) (hook_ids (keys sorted))) (keys-definitions m empty)
        (Permᴰ.symm sorts))

-- The loop with the count returns the module of the loop without it.
patch_and_count_returns :
    (m : List Function) (patches : List ℕ) (count : ℕ) (m' : List Function)
    → patch_instructions m patches ≡ ok m'
    → (modified : ℕ) × (patch_and_count m patches count ≡ ok (m', modified))
unfolding patch_instructions patch_and_count
patch_and_count_returns m [] count m' e = (count, cc)
patch_and_count_returns m (identity ∷ patches) count m' e =
    let (m₁, first, rest) =
      >>=_returned (λ n. patch_instructions n patches) (patch_instruction m identity) e in
    let (modified, returned) =
      patch_and_count_returns m₁ patches (count_modified m identity count) m' rest in
    let counted = count_modified m identity count in
    (modified, ap (λ o. o >>= λ n. patch_and_count n patches counted) first ∙ returned)

-- The module with the reported allocations patched, if there is a profile.
abbrev pub patched : Bool → List Function → List ℕ → List Function
patched true m patches = m
patched false m patches = change_calls (patch_listed m patches) m

patch_all-patched :
    (empty : Bool) (m : List Function) (patches : List ℕ) (count : ℕ)
    → AllDirect patches m
    → (modified : ℕ) × (patch_all empty m patches count ≡ ok (patched empty m patches, modified))
patch_all-patched true m patches count direct = (count, refl)
patch_all-patched false m patches count direct =
    patch_and_count_returns m patches count (patched false m patches)
      (patch_instructions_listed m patches direct)

hooks-patched :
    (empty : Bool) (m : List Function) (patches : List ℕ)
    → (identities (keys (patched empty m patches)) ≡ identities (keys m))
      × (hook_ids (keys (patched empty m patches)) ≡ hook_ids (keys m))
      × (any_lost is_hook (patched empty m patches) ≡ any_lost is_hook m)
hooks-patched true m patches = (refl, refl, refl)
hooks-patched false m patches = hooks-patch_listed m m patches

-- If hooks are to be removed, the profile's fault map is made, and no hook is listed and no failure
-- noted before, over a module whose functions have distinct names and whose calls distinct
-- identities, in which declarations have no blocks, the alloc and realloc hooks of reachable blocks
-- the three arguments that the pass writes, no unreachable block has a hook, and the calls that are
-- reported have a callee and a debug location, the pass returns: it leaves the numbered and patched
-- module without the hooks and their calls, no call of a hook is left, and `AllocSiteTotal` is the
-- count of the global generator from before.
pub run-IsClear :
    (json : Json) (temp_id temp_pkey : ℤ) (files : Files) (test : TestFlags) (flags : Flags)
    (idg : ℕ) (m : List Function) (t : Tally) (count : ℕ) (locs : ℕ → Option DebugLoc)
    (fm : FaultMap)
    → let flags' = with_test_flags test flags in
      let r = assign_local_ids (config locs flags') fm m t in
      let m₁ = patched (str_eq flags'.mpk_profile_path "") (put_back r.0 m) r.1.patch_list in
      flags'.remove_hooks ≡ true
      → fault_map json temp_id temp_pkey files flags' ≡ ok fm
      → t.hook_list ≡ []
      → t.ended ≡ none
      → AreNamed m
      → IsDistinct (identities (keys m))
      → AreEmpty m
      → All FunctionHasSpace m
      → any_lost is_hook m ≡ false
      → AreLocated locs r.1.patch_list
      → AllDirect r.1.patch_list (put_back r.0 m)
      → (modified : ℕ) × (run json temp_id temp_pkey files locs test flags idg m t count
          ≡ ok (without_hooks m₁, flags', r.1, modified, idg))
        × IsClear (without_hooks m₁)
unfolding run
run-IsClear json temp_id temp_pkey files test flags idg m t count locs fm removes loads fresh
      running named distinct empty space unlost located direct =
    let flags' = with_test_flags test flags in
    let r = assign_local_ids (config locs flags') fm m t in
    let goes_on : survived r ≡ ok r =
      rw (assign_local_ids_reporting (config locs flags') fm m t running space located) refl in
    let b = str_eq flags'.mpk_profile_path "" in
    let m₁ = patched b (put_back r.0 m) r.1.patch_list in
    let (numbered, lost) = keys-assign_local_ids (config locs flags') fm m t removes named in
    let (ids, hooks, lost') = hooks-patched b (put_back r.0 m) r.1.patch_list in
    let clear : any_lost is_hook m₁ ≡ false = lost' ∙ lost ∙ unlost in
    let distinct₁ : IsDistinct (identities (keys m₁)) =
      subst IsDistinct (sym (ids ∙ ap identities numbered)) distinct in
    let perm : Permᴰ (hook_ids (keys m₁)) r.1.hook_list =
      subst (λ l. Permᴰ l r.1.hook_list) (sym (hooks ∙ ap hook_ids numbered))
        (hook_list-Perm locs flags' fm m t removes fresh empty) in
    let (modified, patches) = patch_all-patched b (put_back r.0 m) r.1.patch_list count direct in
    (
      modified,
      rw
          (
            loads,
            goes_on,
            patches,
            remove_all_removes flags'.remove_hooks m₁ r.1.hook_list removes
                ∙ remove_hooks-Perm m₁ r.1.hook_list clear distinct₁ perm,
          )
          refl,
      without_hooks-IsClear m₁ clear,
    )
