-- ===== src/RoundTrip/Profiling.antt =====
-- What the hooks of a build for profiling are called with: the number and the function's name that
-- `assignLocalIDs` of DynUntrustedAllocPost.cpp writes into a hook are those by which a build with
-- a profile finds the hook again.
pub mod Build
pub mod Both
use ia2_provsan.Base.{subst}
use ia2_provsan.Base.{
  ℕ, ◌+◌, ◌<◌, ◌≡◌, ◌≢◌, refl, sym, ◌∙◌, ap, String, Bool, true, false, ◌&&◌, ◌||◌, Option, none,
  some, List, [], ◌∷◌, ◌++◌, arith,
}
use ia2_provsan.Base.Lists.{length, get_elem?, get_elem?-set_self, get_elem?-set_ne, length-set}
use ia2_provsan.Containers.Sorted.{Sorted}
use ia2_provsan.Signals.{increment}
use ia2_provsan.Site.{AllocSite}
use ia2_provsan.Post.Profile.{FaultingSite, FaultMap, find_function}
use ia2_provsan.Post.Ir.{
  Operand, number, text, CallBase, Instruction, call, plain, BasicBlock, Function, block_name,
}
use ia2_provsan.Post.Number.{
  HookIndex, at_position, dealloc_hook_index, hook_index, Config, Tally, Visit, alloc_inst,
  written_args, number_hook, number_insts, number_blocks, number_function, visit_called, visit_hook,
}
use ia2_provsan.Post.Number.Ids.{
  number_position, numbered_name, numbered_index, numbered_index-hook_index, get_elem?-written_args,
}
use ia2_provsan.Post.Number.Ids.{HasSpace, HaveSpace, BlocksHaveSpace}
use ia2_provsan.Post.Number.Patches.{
  hooks, block_hooks, push_numbered, after_hooks, first_of_set_args, hook_index_position,
}
use ia2_provsan.Post.Patch.{any_inst, any_block}
use ia2_provsan.RoundTrip.Reports.{has_fault, has_faulty_hook, is_number, is_faulty_in}

-- A number and a name that a site of the fault set has.
abbrev pub names_fault : List AllocSite → Option Operand → Option Operand → Bool
names_fault faults (some (number id)) (some (text name)) = has_fault faults name id
names_fault faults _ _ = false

-- A hook with its number at the position, and the function's name two after it.
abbrev pub passes_at : List AllocSite → ℕ → CallBase → Option ℕ → Bool
passes_at faults k c none = false
passes_at faults k c (some p) =
    names_fault faults (get_elem? c.args p) (get_elem? c.args (p + 2))
    && is_number (alloc_inst (get_elem? c.args 0)) k

-- The call is a hook on the result of call `k`, and passes a site of the fault set.
abbrev pub passes_fault : List AllocSite → ℕ → CallBase → Bool
passes_fault faults k c = passes_at faults k c (number_position c)

name_of_set_args :
    (p id : ℕ) (bb_name func_name : String) (args : List Operand)
    → p + 2 < length args
    → get_elem? (written_args false p id bb_name func_name args) (p + 2) ≡ some (text func_name)
unfolding written_args
name_of_set_args p id bb_name func_name args h =
    get_elem?-set_self _ (p + 2) (text func_name)
      (omega (arith, length-set args p (number id), length-set _ (p + 1) (text bb_name)))

-- What a visit makes of a call.
abbrev Passes : String → Option ℕ → CallBase → ℕ → Visit CallBase → Type 0
Passes func_name none c id r = (r.0 ≡ c) × (r.1 ≡ id)
Passes func_name (some p) c id r =
    (r.0.called ≡ c.called)
    × (get_elem? r.0.args p ≡ some (number id))
    × (get_elem? r.0.args (p + 2) ≡ some (text func_name))
    × (get_elem? r.0.args 0 ≡ get_elem? c.args 0)
    × (r.1 ≡ increment id)

has_faulty_hook-append :
    (faults : List AllocSite) (name : String) (id : ℕ) (cs ds : List CallBase) (k : ℕ)
    → has_faulty_hook faults name id (cs ++ ds) k ≡ (
        has_faulty_hook faults name id cs k || has_faulty_hook faults name (after_hooks id cs) ds k)
unfolding has_faulty_hook after_hooks
has_faulty_hook-append faults name id [] ds k = refl
has_faulty_hook-append faults name id (c ∷ cs) ds k =
    rw (has_faulty_hook-append faults name (increment id) cs ds k) (ground arith)

module _ (cfg : Config) (keeps : cfg.remove_hooks ≡ false)
    (in_profile : Option (Sorted FaultingSite)) (func_name : String) where
  visit_hook-Passes :
      (bb_name : String) (o : Option HookIndex) (name : String) (c : CallBase) (id : ℕ) (t : Tally)
      → ((p : ℕ) → o ≡ some (at_position p) → p ≢ 0)
      → HasSpace c (numbered_index o)
      → Passes func_name
          (numbered_index o)
          c
          id
          (visit_hook cfg in_profile func_name bb_name o name c id t)
  unfolding number_hook
  visit_hook-Passes bb_name none name c id t ne h = (refl, refl)
  visit_hook-Passes bb_name (some dealloc_hook_index) name c id t ne h = (refl, refl)
  visit_hook-Passes bb_name (some (at_position p)) name c id t ne h = (
    refl,
    get_elem?-written_args cfg.remove_hooks p id bb_name func_name c.args (omega arith),
    rw keeps (name_of_set_args p id bb_name func_name c.args h),
    first_of_set_args cfg.remove_hooks p id bb_name func_name c.args (ne p refl),
    refl,
  )

  visit_called-Passes :
      (bb_name : String) (o : Option String) (c : CallBase) (id : ℕ) (t : Tally)
      → HasSpace c (numbered_name o)
      → Passes func_name
          (numbered_name o)
          c
          id
          (visit_called cfg in_profile func_name bb_name o c id t)
  visit_called-Passes bb_name none c id t h = (refl, refl)
  visit_called-Passes bb_name (some name) c id t h =
      let r = visit_called cfg in_profile func_name bb_name (some name) c id t in
      let same = numbered_index-hook_index name in
      subst (λ o. Passes func_name o c id r) same
        (visit_hook-Passes bb_name (hook_index name) name c id t (hook_index_position name)
          (subst (HasSpace c) (sym same) h))

  module _ (faults : List AllocSite) (k : ℕ) where
    step-Passes :
        (o : Option ℕ) (c : CallBase) (id : ℕ) (r : Visit CallBase) (cs : List CallBase)
        → number_position c ≡ o
        → Passes func_name o c id r
        → ((passes_fault faults k r.0 || has_faulty_hook faults func_name r.1 cs k)
            ≡ has_faulty_hook faults func_name id (push_numbered o c cs) k)
          × (after_hooks r.1 cs ≡ after_hooks id (push_numbered o c cs))
    unfolding has_faulty_hook after_hooks
    step-Passes none c id r cs e h =
        let same : number_position r.0 ≡ none = ap number_position h.0 ∙ e in
        (rw (same, h.1) refl, rw h.1 refl)
    step-Passes (some p) c id r cs e h =
        let same : number_position r.0 ≡ some p = ap numbered_name h.0 ∙ e in
        (rw (same, h.1, h.2, h.3, h.4) refl, rw h.4 refl)

    number_insts-passes :
        (bb_name : String) (insts : List Instruction) (id : ℕ) (t : Tally)
        → HaveSpace insts
        → let r = number_insts cfg in_profile func_name bb_name insts id t in
          (any_inst (passes_fault faults k) r.0
            ≡ has_faulty_hook faults func_name id (hooks insts) k)
          × (r.1 ≡ after_hooks id (hooks insts))
    unfolding number_insts any_inst hooks
    number_insts-passes bb_name [] id t h =
        (unfold has_faulty_hook in refl, unfold after_hooks in refl)
    number_insts-passes bb_name (plain i ∷ insts) id t h = number_insts-passes bb_name insts id t h
    number_insts-passes bb_name (call c ∷ insts) id t h =
        let r = visit_called cfg in_profile func_name bb_name c.called c id t in
        let step =
          step-Passes (number_position c) c id r (hooks insts) refl
            (visit_called-Passes bb_name c.called c id t h.0) in
        let ih = number_insts-passes bb_name insts r.1 r.2 h.1 in
        (ap (λ b. passes_fault faults k r.0 || b) ih.0 ∙ step.0, ih.1 ∙ step.1)

    number_blocks-passes :
        (blocks : List BasicBlock) (id : ℕ) (t : Tally)
        → BlocksHaveSpace blocks
        → any_block (passes_fault faults k) (number_blocks cfg in_profile func_name blocks id t).0
          ≡ has_faulty_hook faults func_name id (block_hooks blocks) k
    unfolding number_blocks any_block block_hooks
    number_blocks-passes [] id t h = unfold has_faulty_hook in refl
    number_blocks-passes (b ∷ blocks) id t h =
        let r = number_insts cfg in_profile func_name (block_name b) b.insts id t in
        let first = number_insts-passes (block_name b) b.insts id t h.0 in
        rw (first.0, number_blocks-passes blocks r.1 r.2 h.1, first.1)
          (sym (has_faulty_hook-append faults func_name id (hooks b.insts) (block_hooks blocks) k))

pub number_function-passes :
    (cfg : Config) (fault_map : FaultMap) (f : Function) (t : Tally) (faults : List AllocSite)
    (k : ℕ)
    → cfg.remove_hooks ≡ false
    → BlocksHaveSpace f.blocks
    → any_block (passes_fault faults k) (number_function cfg fault_map f t).0.blocks
      ≡ is_faulty_in faults f k
unfolding number_function
number_function-passes cfg fault_map f t faults k keeps space =
    number_blocks-passes cfg keeps (find_function fault_map f.name) f.name faults k f.blocks 0 t
      space
