-- ===== src/Post/Run/Ended.antt =====
-- When the numbering ends in no failure: the hooks have the arguments that the pass sets, and the
-- allocations that it reports have a debug location.
use ia2_provsan.Base.{
  ℕ, ◌+◌, ◌<◌, ◌≡◌, refl, sym, String, Bool, true, false, not, ◌&&◌, ◌||◌, if◌then◌else◌, Option,
  none, some, List, [], ◌∷◌, ◌++◌, subst, arith, inl, inr, Bool-cases, Option-cases, ==_iff,
}
use ia2_provsan.Base.Lists.{length, get_elem?}
use ia2_provsan.Base.Outcome.{Failure}
use ia2_provsan.Containers.Sorted.{Sorted}
use ia2_provsan.Post.Profile.{FaultingSite, FaultMap, find_function}
use ia2_provsan.Post.Ir.{
  Operand, CallBase, Instruction, call, plain, BasicBlock, Function, block_name,
}
use ia2_provsan.Post.Report.{DebugLoc, print_faulting_location}
use ia2_provsan.Post.Number.{
  HookIndex, at_position, dealloc_hook_index, hook_index, Config, Tally, count_hook, push_hook,
  push_patch, fault_at, alloc_inst, missing_args, print_reported, first_failure, written_args,
  number_hook, visit_hook, visit_called, number_insts, number_blocks, number_function,
  number_functions, sort_functions, definitions, assign_local_ids,
}
use ia2_provsan.Post.Number.Ids.{
  numbered_index, numbered_name, numbered_index-hook_index, HasSpace, HaveSpace, BlocksHaveSpace,
}
use ia2_provsan.Post.Number.Patches.{reported, block_hooks, number_function-reported}
use ia2_provsan.Post.Patch.Replaced.{listed}
use ia2_provsan.Post.Run.Names.{All, All-definitions, All-sort_functions}

-- The alloc and realloc hooks of a function have the arguments that the pass sets.
abbrev pub FunctionHasSpace : Function → Type 0
FunctionHasSpace f = BlocksHaveSpace f.blocks

abbrev is_none {ℓ} : {A : Type ℓ} → Option A → Bool
is_none none = true
is_none (some a) = false

any_unlocated : (ℕ → Option DebugLoc) → List ℕ → Bool
any_unlocated locs [] = false
any_unlocated locs (k ∷ ks) = is_none (locs k) || any_unlocated locs ks

any_unlocated-append :
    (locs : ℕ → Option DebugLoc) (ks : List ℕ) (k : ℕ)
    → any_unlocated locs (ks ++ (k ∷ [])) ≡ (any_unlocated locs ks || is_none (locs k))
unfolding any_unlocated
any_unlocated-append locs [] k = ground arith
any_unlocated-append locs (j ∷ ks) k = ground (arith, any_unlocated-append locs ks k)

-- No failure yet, or a reported allocation without a location.
abbrev goes_on : Config → Option Failure → List ℕ → Bool
goes_on cfg ended patches =
    is_none ended || (not cfg.profile_path_empty && any_unlocated cfg.debug_loc patches)

abbrev GoesOn : Config → Tally → Type 0
GoesOn cfg t = goes_on cfg t.ended t.patch_list ≡ true

no_missing :
    (remove : Bool) (p : ℕ) (args : List Operand)
    → p + 2 < length args
    → missing_args remove p args ≡ none
no_missing true p args h = ground (arith, h)
no_missing false p args h = ground (arith, h)

print_located :
    (locs : ℕ → Option DebugLoc) (site : FaultingSite) (k : ℕ) (o : Option DebugLoc)
    → locs k ≡ o
    → (is_none (print_reported locs (some site) (some k)) || is_none o) ≡ true
unfolding print_faulting_location
print_located locs site k none e = ground arith
print_located locs site k (some loc) e = rw e refl

reported_goes_on :
    (cfg : Config) (ended : Option Failure) (patches : List ℕ) (site : Option FaultingSite)
    (alloc : Option ℕ)
    → goes_on cfg ended patches ≡ true
    → goes_on cfg
        (first_failure ended
          (if cfg.profile_path_empty then none else print_reported cfg.debug_loc site alloc))
        (if cfg.profile_path_empty then patches else push_patch site alloc patches)
      ≡ true
reported_goes_on cfg (some why) patches (some site) (some k) h =
    ground (arith, h, any_unlocated-append cfg.debug_loc patches k)
reported_goes_on cfg (some why) patches none alloc h = ground (arith, h)
reported_goes_on cfg (some why) patches (some site) none h = ground (arith, h)
reported_goes_on cfg none patches none alloc h = ground arith
reported_goes_on cfg none patches (some site) none h = ground arith
reported_goes_on cfg none patches (some site) (some k) h =
    elim (Bool-cases cfg.profile_path_empty) [
      | inl empty ↦ rw empty refl
      | inr given ↦
          rw (given, any_unlocated-append cfg.debug_loc patches k)
            (ground (arith, print_located cfg.debug_loc site k (cfg.debug_loc k) refl))
    ]

pushed-GoesOn :
    (cfg : Config) (remove : Bool) (k : ℕ) (name : String) (t : Tally)
    → GoesOn cfg t
    → GoesOn cfg (push_hook remove k (count_hook name t))
unfolding count_hook
pushed-GoesOn cfg true k name t h = h
pushed-GoesOn cfg false k name t h = h

module _ (cfg : Config) (faults : Option (Sorted FaultingSite)) (func_name : String) where
  visit_hook-GoesOn :
      (bb_name : String) (hi : Option HookIndex) (name : String) (c : CallBase) (id : ℕ) (t : Tally)
      → HasSpace c (numbered_index hi)
      → GoesOn cfg t
      → GoesOn cfg (visit_hook cfg faults func_name bb_name hi name c id t).2
  unfolding number_hook
  visit_hook-GoesOn bb_name none name c id t space h = h
  visit_hook-GoesOn bb_name (some dealloc_hook_index) name c id t space h =
      pushed-GoesOn cfg cfg.remove_hooks c.identity name t h
  visit_hook-GoesOn bb_name (some (at_position p)) name c id t space h =
      let t₁ = push_hook cfg.remove_hooks c.identity (count_hook name t) in
      let args = written_args cfg.remove_hooks p id bb_name func_name c.args in
      rw (no_missing cfg.remove_hooks p c.args space) (
        reported_goes_on cfg t₁.ended t₁.patch_list (fault_at faults id)
          (alloc_inst (get_elem? args 0)) (pushed-GoesOn cfg cfg.remove_hooks c.identity name t h))

  visit_called-GoesOn :
      (bb_name : String) (o : Option String) (c : CallBase) (id : ℕ) (t : Tally)
      → HasSpace c (numbered_name o)
      → GoesOn cfg t
      → GoesOn cfg (visit_called cfg faults func_name bb_name o c id t).2
  visit_called-GoesOn bb_name none c id t space h = h
  visit_called-GoesOn bb_name (some name) c id t space h =
      visit_hook-GoesOn bb_name (hook_index name) name c id t
        (subst (HasSpace c) (sym (numbered_index-hook_index name)) space) h

  number_insts-GoesOn :
      (bb_name : String) (insts : List Instruction) (id : ℕ) (t : Tally)
      → HaveSpace insts
      → GoesOn cfg t
      → GoesOn cfg (number_insts cfg faults func_name bb_name insts id t).2
  unfolding number_insts
  number_insts-GoesOn bb_name [] id t space h = h
  number_insts-GoesOn bb_name (plain k ∷ insts) id t space h =
      number_insts-GoesOn bb_name insts id t space h
  number_insts-GoesOn bb_name (call c ∷ insts) id t (own, space) h =
      let r = visit_called cfg faults func_name bb_name c.called c id t in
      number_insts-GoesOn bb_name insts r.1 r.2 space
        (visit_called-GoesOn bb_name c.called c id t own h)

  number_blocks-GoesOn :
      (blocks : List BasicBlock) (id : ℕ) (t : Tally)
      → BlocksHaveSpace blocks
      → GoesOn cfg t
      → GoesOn cfg (number_blocks cfg faults func_name blocks id t).2
  unfolding number_blocks
  number_blocks-GoesOn [] id t space h = h
  number_blocks-GoesOn (b ∷ blocks) id t (own, space) h =
      let r = number_insts cfg faults func_name (block_name b) b.insts id t in
      number_blocks-GoesOn blocks r.1 r.2 space
        (number_insts-GoesOn (block_name b) b.insts id t own h)

number_functions-GoesOn :
    (cfg : Config) (fm : FaultMap) (fs : List Function) (t : Tally)
    → All FunctionHasSpace fs
    → GoesOn cfg t
    → GoesOn cfg (number_functions cfg fm fs t).1
unfolding number_functions number_function
number_functions-GoesOn cfg fm [] t space h = h
number_functions-GoesOn cfg fm (f ∷ fs) t (own, space) h =
    number_functions-GoesOn cfg fm fs (number_function cfg fm f t).1 space
      (number_blocks-GoesOn cfg (find_function fm f.name) f.name f.blocks 0 t own h)

-- The calls of a list have a debug location.
abbrev pub AreLocated : (ℕ → Option DebugLoc) → List ℕ → Type 0
AreLocated locs [] = Unit {0}
AreLocated locs (k ∷ ks) = ((loc : DebugLoc) × (locs k ≡ some loc)) × AreLocated locs ks

none_unlocated :
    (locs : ℕ → Option DebugLoc) (ks : List ℕ) → AreLocated locs ks → any_unlocated locs ks ≡ false
unfolding any_unlocated
none_unlocated locs [] h = refl
none_unlocated locs (k ∷ ks) ((loc, e), h) = rw (e, none_unlocated locs ks h) refl

pub AreLocated-listed :
    (locs : ℕ → Option DebugLoc) (ks : List ℕ)
    → ((k : ℕ) → listed ks k ≡ true → (loc : DebugLoc) × (locs k ≡ some loc))
    → AreLocated locs ks
unfolding listed
AreLocated-listed locs [] h = tt
AreLocated-listed locs (k ∷ ks) h = (
  h k (ground (arith, (==_iff k k).1 refl)),
  AreLocated-listed locs ks (λ j there. h j (ground (arith, there))),
)

ended_none :
    (cfg : Config) (t : Tally)
    → GoesOn cfg t
    → (not cfg.profile_path_empty && any_unlocated cfg.debug_loc t.patch_list) ≡ false
    → t.ended ≡ none
ended_none cfg t h located = elim (Option-cases t.ended) [
  | inl none_yet ↦ none_yet
  | inr (why, e) ↦ absurd (ground (arith, rw e at h, located))
]

module _ (cfg : Config) (fm : FaultMap) (m : List Function) (t : Tally) (fresh : t.ended ≡ none)
    (space : All FunctionHasSpace m) where
  at_end : GoesOn cfg (assign_local_ids cfg fm m t).1
  unfolding assign_local_ids
  at_end =
      number_functions-GoesOn cfg fm (sort_functions (definitions m)) t
        (All-sort_functions FunctionHasSpace (definitions m)
          (All-definitions FunctionHasSpace m space))
        (rw fresh refl)

  pub assign_local_ids_reporting :
      AreLocated cfg.debug_loc (assign_local_ids cfg fm m t).1.patch_list
      → (assign_local_ids cfg fm m t).1.ended ≡ none
  assign_local_ids_reporting located =
      let r = assign_local_ids cfg fm m t in
      let none_lost = none_unlocated cfg.debug_loc r.1.patch_list located in
      ended_none cfg r.1 at_end (ground (arith, none_lost))

  pub assign_local_ids_profiling :
      cfg.profile_path_empty ≡ true → (assign_local_ids cfg fm m t).1.ended ≡ none
  assign_local_ids_profiling empty =
      ended_none cfg (assign_local_ids cfg fm m t).1 at_end (ground (arith, empty))

-- With a profile, let no failure be noted before, the alloc and realloc hooks of a function have the
-- arguments that the pass writes, and every call listed before, or with the result of a hook whose
-- place among them is a number that the fault map holds for the function, have a debug location.
-- Then the loops end in no failure, and list after the calls from before exactly the latter calls,
-- in order.
pub number_function_survives :
    (cfg : Config) (fault_map : FaultMap) (f : Function) (t : Tally)
    → let patches =
        t.patch_list ++ reported (find_function fault_map f.name) 0 (block_hooks f.blocks) in
      cfg.profile_path_empty ≡ false
      → t.ended ≡ none
      → FunctionHasSpace f
      → AreLocated cfg.debug_loc patches
      → ((number_function cfg fault_map f t).1.ended ≡ none)
        × ((number_function cfg fault_map f t).1.patch_list ≡ patches)
unfolding number_function
number_function_survives cfg fault_map f t given fresh space located =
    let sites = find_function fault_map f.name in
    let r = number_blocks cfg sites f.name f.blocks 0 t in
    let same : r.2.patch_list ≡ t.patch_list ++ reported sites 0 (block_hooks f.blocks) =
      number_function-reported cfg fault_map f t given in
    let end = number_blocks-GoesOn cfg sites f.name f.blocks 0 t space (rw fresh refl) in
    (
      ended_none cfg r.2 end (
          rw
            (
              same,
              none_unlocated cfg.debug_loc (t.patch_list ++ reported sites 0 (block_hooks f.blocks))
                  located,
            )
            (ground arith)),
      same,
    )
