-- ===== src/Post/Number.antt =====
-- `assignLocalIDs` of DynUntrustedAllocPost.cpp: it numbers the hooks of each function from 0 in
-- reverse post-order, and collects the hooks to remove and the calls to report. The statistics
-- of MPK_STATS are on, as the pass's header defines the macro. Messages are not modelled.
pub mod Ids
pub mod Patches
use Prim.Native.String.{compare}
use Prim.Native.Nat.{Ordering}
use ia2_provsan.Base.{ℕ, ◌+◌, String, Bool, true, false, Option, none, some, List, [], ◌∷◌, ◌++◌}
use ia2_provsan.Base.{str_eq, if◌then◌else◌, not}
use ia2_provsan.Base.{ltb}
use ia2_provsan.Base.Lists.{get_elem?, length, set}
use ia2_provsan.Base.Outcome.{Outcome, ok, fails, Failure, operand_missing}
use ia2_provsan.Post.Report.{DebugLoc, print_faulting_location}
use ia2_provsan.Containers.Sorted.{Sorted, lookup}
use ia2_provsan.Signals.{increment}
use ia2_provsan.Post.Profile.{FaultingSite, FaultMap, find_function}
use ia2_provsan.Post.Ir.{
  Operand, result, number, text, CallBase, Instruction, call, plain, BasicBlock, Function,
  block_name,
}

-- A `HookIndex`: the position of the number among the arguments, or none for `deallocHook`.
pub data HookIndex : Type 0 where
  at_position : ℕ → HookIndex
  dealloc_hook_index : HookIndex

-- `patchArgIndexMap`
unfoldable pub hook_index : String → Option HookIndex
hook_index name =
    if str_eq name "allocHook"
    then some (at_position 2)
    else if str_eq name "reallocHook"
    then some (at_position 4)
    else if str_eq name "deallocHook"
    then some dealloc_hook_index
    else none

-- The flags, and `getDebugLoc()` of each call, by its identity.
pub record Config : Type 0 where
  pub remove_hooks : Bool
  pub profile_path_empty : Bool
  pub debug_loc : ℕ → Option DebugLoc

-- The globals: `hookList`, `patchList`, `hookCountMap` and `total_hooks`. `ended` is the first
-- failure, which ends the pass: `run` then fails with it, whatever the loops compute after it.
pub record Tally : Type 0 where
  pub hook_list : List ℕ
  pub patch_list : List ℕ
  pub alloc_hooks : ℕ
  pub realloc_hooks : ℕ
  pub dealloc_hooks : ℕ
  pub total_hooks : ℕ
  pub ended : Option Failure

-- `hookCounter->second++` and `++total_hooks`
unfoldable pub count_hook : String → Tally → Tally
count_hook name t = record t {
  alloc_hooks = if str_eq name "allocHook" then t.alloc_hooks + 1 else t.alloc_hooks;
  realloc_hooks = if str_eq name "reallocHook" then t.realloc_hooks + 1 else t.realloc_hooks;
  dealloc_hooks = if str_eq name "deallocHook" then t.dealloc_hooks + 1 else t.dealloc_hooks;
  total_hooks = increment t.total_hooks;
}

abbrev pub push_hook : Bool → ℕ → Tally → Tally
push_hook true identity t = record t { hook_list = t.hook_list ++ (identity ∷ []) }
push_hook false identity t = t

-- `IDGenerator`, by its counter: `getConstID` gives the count and advances it, `getConstIntCount`
-- gives it.
abbrev pub get_const_id : ℕ → ℕ × ℕ
get_const_id id = (id, increment id)

abbrev pub get_const_int_count : ℕ → ℕ
get_const_int_count id = id

-- The arguments of a hook with its number, and unless hooks are removed with the two names, where
-- the hook has these arguments.
unfoldable pub written_args : Bool → ℕ → ℕ → String → String → List Operand → List Operand
written_args true position id bb_name func_name args = set args position (number id)
written_args false position id bb_name func_name args =
    set (set (set args position (number id)) (position + 1) (text bb_name)) (position + 2)
      (text func_name)

-- An argument that `setArgOperand` sets is missing.
abbrev pub missing_args : Bool → ℕ → List Operand → Option Failure
missing_args true position args = if ltb position (length args) then none else some operand_missing
missing_args false position args =
    if ltb (position + 2) (length args) then none else some operand_missing

-- The calls of `setArgOperand`: the arguments after them, or the failure of the first call that finds
-- no such argument.
abbrev pub set_args : Bool → ℕ → ℕ → String → String → List Operand → List Operand × Option Failure
set_args remove position id bb_name func_name args =
    (written_args remove position id bb_name func_name args, missing_args remove position args)

-- The faults of a function, if it has any, at a hook's number.
abbrev pub fault_at : Option (Sorted FaultingSite) → ℕ → Option FaultingSite
fault_at none id = none
fault_at (some sites) id = lookup id sites

-- The allocation that a hook follows, if its first argument is a call.
abbrev pub alloc_inst : Option Operand → Option ℕ
alloc_inst (some (result identity)) = some identity
alloc_inst _ = none

abbrev pub push_patch : Option FaultingSite → Option ℕ → List ℕ → List ℕ
push_patch (some site) (some identity) patches = patches ++ (identity ∷ [])
push_patch _ _ patches = patches

abbrev failure_of {ℓ} : {A : Type ℓ} → Outcome A → Option Failure
failure_of (ok a) = none
failure_of (fails why) = some why

-- `PrintFaultingLocation` of an allocation that is reported.
abbrev pub print_reported : (ℕ → Option DebugLoc) → Option FaultingSite → Option ℕ → Option Failure
print_reported debug_loc (some site) (some identity) =
    failure_of (print_faulting_location (debug_loc identity))
print_reported debug_loc _ _ = none

abbrev pub first_failure : Option Failure → Option Failure → Option Failure
first_failure none later = later
first_failure (some why) later = some why

-- What one step of the loop gives: the call, the next number, the globals.
abbrev pub Visit : Type 0 → Type 0
Visit A = A × ℕ × Tally

module _ (cfg : Config) (faults : Option (Sorted FaultingSite)) (func_name : String) where
  unfoldable pub number_hook : String → ℕ → CallBase → ℕ → Tally → Visit CallBase
  number_hook bb_name position c id t =
      let (const_id, next) = get_const_id id in
      let (args, failure) = set_args cfg.remove_hooks position const_id bb_name func_name c.args in
      let site = fault_at faults id in
      let alloc = alloc_inst (get_elem? args 0) in
      let reported =
        if cfg.profile_path_empty then none else print_reported cfg.debug_loc site alloc in
      (
        record c { args = args },
        next,
        record t {
          patch_list =
              if cfg.profile_path_empty then t.patch_list else push_patch site alloc t.patch_list;
          ended = first_failure t.ended (first_failure failure reported);
        },
      )

  abbrev pub visit_hook : String → Option HookIndex → String → CallBase → ℕ → Tally → Visit CallBase
  visit_hook bb_name none name c id t = (c, id, t)
  visit_hook bb_name (some dealloc_hook_index) name c id t =
      (c, id, push_hook cfg.remove_hooks c.identity (count_hook name t))
  visit_hook bb_name (some (at_position position)) name c id t =
      number_hook bb_name position c id (push_hook cfg.remove_hooks c.identity (count_hook name t))

  abbrev pub visit_called : String → Option String → CallBase → ℕ → Tally → Visit CallBase
  visit_called bb_name none c id t = (c, id, t)
  visit_called bb_name (some name) c id t = visit_hook bb_name (hook_index name) name c id t

  -- The loop over the instructions of a block.
  unfoldable pub number_insts : String → List Instruction → ℕ → Tally → Visit (List Instruction)
  number_insts bb_name [] id t = ([], id, t)
  number_insts bb_name (plain k ∷ insts) id t =
      let (insts', id', t') = number_insts bb_name insts id t in (plain k ∷ insts', id', t')
  number_insts bb_name (call c ∷ insts) id t =
      let (c', id₁, t₁) = visit_called bb_name c.called c id t in
      let (insts', id', t') = number_insts bb_name insts id₁ t₁ in (call c' ∷ insts', id', t')

  -- The loop over the blocks.
  unfoldable pub number_blocks : List BasicBlock → ℕ → Tally → Visit (List BasicBlock)
  number_blocks [] id t = ([], id, t)
  number_blocks (b ∷ blocks) id t =
      let (insts, id₁, t₁) = number_insts (block_name b) b.insts id t in
      let (blocks', id', t') = number_blocks blocks id₁ t₁ in
      (record b { insts = insts } ∷ blocks', id', t')

unfoldable pub number_function : Config → FaultMap → Function → Tally → Function × Tally
number_function cfg fault_map f t =
    let (blocks, id, t') = number_blocks cfg (find_function fault_map f.name) f.name f.blocks 0 t in
    (record f { blocks = blocks }, t')

unfoldable pub number_functions : Config → FaultMap → List Function → Tally → List Function × Tally
number_functions cfg fault_map [] t = ([], t)
number_functions cfg fault_map (f ∷ fs) t =
    let (f', t₁) = number_function cfg fault_map f t in
    let (fs', t') = number_functions cfg fault_map fs t₁ in (f' ∷ fs', t')

-- `funcSort`: by names, the greatest first.
abbrev is_greater : Ordering → Bool
is_greater Ordering.gt = true
is_greater _ = false

unfoldable pub func_sort : Function → Function → Bool
func_sort f g = is_greater (compare f.name g.name)

-- `std::sort`, as an insertion of each element before the first that it does not follow.
unfoldable pub insert_sorted : Function → List Function → List Function
insert_sorted f [] = f ∷ []
insert_sorted f (g ∷ gs) = if func_sort g f then g ∷ insert_sorted f gs else f ∷ g ∷ gs

unfoldable pub sort_functions : List Function → List Function
unfolding insert_sorted
sort_functions [] = []
sort_functions (f ∷ fs) = insert_sorted f (sort_functions fs)

unfoldable pub definitions : List Function → List Function
definitions [] = []
definitions (f ∷ fs) = if not f.is_declaration then f ∷ definitions fs else definitions fs

-- The functions of the work list, numbered in its order.
unfoldable pub assign_local_ids : Config → FaultMap → List Function → Tally → List Function × Tally
assign_local_ids cfg fault_map m t =
    number_functions cfg fault_map (sort_functions (definitions m)) t
