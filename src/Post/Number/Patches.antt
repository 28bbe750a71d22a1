-- ===== src/Post/Number/Patches.antt =====
-- The calls that are reported: those whose hook's number is in the fault map of the function.
use mathlib.Core.List.{append_assoc, append-nil}
use ia2_provsan.Base.{ℕ, ◌+◌, ◌≡◌, refl, sym, ◌∙◌, ◌≢◌, ap, subst, String, Bool, true, false, arith}
use ia2_provsan.Base.{Option, none, some, List, [], ◌∷◌, ◌++◌}
use ia2_provsan.Base.Lists.{get_elem?, get_elem?-set_ne}
use ia2_provsan.Containers.Sorted.{Sorted}
use ia2_provsan.Signals.{increment}
use ia2_provsan.Post.Profile.{FaultingSite, FaultMap, find_function}
use ia2_provsan.Post.Ir.{
  Operand, number, text, CallBase, Instruction, call, plain, BasicBlock, Function, block_name,
}
use ia2_provsan.Post.Number.{
  HookIndex, at_position, dealloc_hook_index, hook_index, Config, Tally, written_args, number_hook,
  number_insts, number_blocks, number_function, Visit, visit_called, visit_hook, push_hook,
  count_hook, push_patch, fault_at, alloc_inst,
}
use ia2_provsan.Post.Number.Ids.{
  number_position, numbered_index, numbered_name, numbered_index-hook_index,
}

-- The numbered hooks of a block, in order.
abbrev pub push_numbered : Option ℕ → CallBase → List CallBase → List CallBase
push_numbered none c rest = rest
push_numbered (some p) c rest = c ∷ rest

unfoldable pub hooks : List Instruction → List CallBase
hooks [] = []
hooks (plain k ∷ insts) = hooks insts
hooks (call c ∷ insts) = push_numbered (number_position c) c (hooks insts)

unfoldable pub block_hooks : List BasicBlock → List CallBase
block_hooks [] = []
block_hooks (b ∷ blocks) = hooks b.insts ++ block_hooks blocks

-- The allocations of the hooks whose numbers, counted from `id` on, are faults.
unfoldable pub reported : Option (Sorted FaultingSite) → ℕ → List CallBase → List ℕ
reported faults id [] = []
reported faults id (c ∷ cs) =
    push_patch (fault_at faults id) (alloc_inst (get_elem? c.args 0)) []
    ++ reported faults (increment id) cs

unfoldable pub after_hooks : ℕ → List CallBase → ℕ
after_hooks id [] = id
after_hooks id (c ∷ cs) = after_hooks (increment id) cs

reported-append :
    (faults : Option (Sorted FaultingSite)) (id : ℕ) (cs ds : List CallBase)
    → reported faults id (cs ++ ds)
      ≡ reported faults id cs ++ reported faults (after_hooks id cs) ds
unfolding reported after_hooks
reported-append faults id [] ds = refl
reported-append faults id (c ∷ cs) ds =
    rw (reported-append faults (increment id) cs ds) (
      sym (append_assoc (push_patch (fault_at faults id) (alloc_inst (get_elem? c.args 0)) []) _ _))

push_patch-append :
    (o : Option FaultingSite) (a : Option ℕ) (patches : List ℕ)
    → push_patch o a patches ≡ patches ++ push_patch o a []
push_patch-append (some fs) (some k) patches = refl
push_patch-append (some fs) none patches = sym (append-nil patches)
push_patch-append none a patches = sym (append-nil patches)

-- The first argument of a hook is never its number or a name.
pub hook_index_position : (name : String) (p : ℕ) → hook_index name ≡ some (at_position p) → p ≢ 0
unfolding hook_index
hook_index_position name p h e = ground arith

pub first_of_set_args :
    (remove : Bool) (p id : ℕ) (bb_name func_name : String) (args : List Operand)
    → p ≢ 0
    → get_elem? (written_args remove p id bb_name func_name args) 0 ≡ get_elem? args 0
unfolding written_args
first_of_set_args true p id bb_name func_name args ne = get_elem?-set_ne args p 0 (number id) ne
first_of_set_args false p id bb_name func_name args ne =
    get_elem?-set_ne _ (p + 2) 0 (text func_name) (omega arith)
    ∙ get_elem?-set_ne _ (p + 1) 0 (text bb_name) (omega arith)
    ∙ get_elem?-set_ne args p 0 (number id) ne

kept_patches :
    (remove : Bool) (k : ℕ) (name : String) (t : Tally)
    → (push_hook remove k (count_hook name t)).patch_list ≡ t.patch_list
unfolding count_hook
kept_patches true k name t = refl
kept_patches false k name t = refl

module _ (cfg : Config) (faults : Option (Sorted FaultingSite)) (func_name : String)
    (given : cfg.profile_path_empty ≡ false) where
  abbrev Reports : Option ℕ → CallBase → ℕ → Tally → Visit CallBase → Type 0
  Reports none c id t r = (r.1 ≡ id) × (r.2.patch_list ≡ t.patch_list)
  Reports (some p) c id t r =
      (r.1 ≡ increment id)
      × (r.2.patch_list
          ≡ t.patch_list ++ push_patch (fault_at faults id) (alloc_inst (get_elem? c.args 0)) [])

  visit_hook-Reports :
      (bb_name : String) (hi : Option HookIndex) (name : String) (c : CallBase) (id : ℕ) (t : Tally)
      → ((p : ℕ) → hi ≡ some (at_position p) → p ≢ 0)
      → Reports (numbered_index hi) c id t (visit_hook cfg faults func_name bb_name hi name c id t)
  unfolding number_hook
  visit_hook-Reports bb_name none name c id t ne = (refl, refl)
  visit_hook-Reports bb_name (some dealloc_hook_index) name c id t ne =
      (refl, kept_patches cfg.remove_hooks c.identity name t)
  visit_hook-Reports bb_name (some (at_position p)) name c id t ne = (
    refl,
    rw
        (
          given,
          first_of_set_args cfg.remove_hooks p id bb_name func_name c.args (ne p refl),
          kept_patches cfg.remove_hooks c.identity name t,
        )
        (push_patch-append (fault_at faults id) (alloc_inst (get_elem? c.args 0)) t.patch_list),
  )

  visit_called-Reports :
      (bb_name : String) (o : Option String) (c : CallBase) (id : ℕ) (t : Tally)
      → Reports (numbered_name o) c id t (visit_called cfg faults func_name bb_name o c id t)
  visit_called-Reports bb_name none c id t = (refl, refl)
  visit_called-Reports bb_name (some name) c id t =
      subst (λ o. Reports o c id t (visit_called cfg faults func_name bb_name (some name) c id t))
        (numbered_index-hook_index name)
        (visit_hook-Reports bb_name (hook_index name) name c id t (hook_index_position name))

  step-Reports :
      (o : Option ℕ) (c : CallBase) (id : ℕ) (t : Tally) (r : Visit CallBase) (cs : List CallBase)
      → Reports o c id t r
      → (after_hooks r.1 cs ≡ after_hooks id (push_numbered o c cs))
        × (r.2.patch_list ++ reported faults r.1 cs
            ≡ t.patch_list ++ reported faults id (push_numbered o c cs))
  unfolding reported after_hooks
  step-Reports none c id t r cs h = (rw h.0, rw (h.0, h.1))
  step-Reports (some p) c id t r cs h = (rw h.0, rw (h.0, h.1) (append_assoc t.patch_list _ _))

  number_insts-reported :
      (bb_name : String) (insts : List Instruction) (id : ℕ) (t : Tally)
      → let r = number_insts cfg faults func_name bb_name insts id t in
        (r.1 ≡ after_hooks id (hooks insts))
        × (r.2.patch_list ≡ t.patch_list ++ reported faults id (hooks insts))
  unfolding number_insts hooks
  number_insts-reported bb_name [] id t =
      (unfold after_hooks in refl, unfold reported in sym (append-nil t.patch_list))
  number_insts-reported bb_name (plain k ∷ insts) id t = number_insts-reported bb_name insts id t
  number_insts-reported bb_name (call c ∷ insts) id t =
      let r = visit_called cfg faults func_name bb_name c.called c id t in
      let step =
        step-Reports (number_position c) c id t r (hooks insts)
          (visit_called-Reports bb_name c.called c id t) in
      let ih = number_insts-reported bb_name insts r.1 r.2 in (ih.0 ∙ step.0, ih.1 ∙ step.1)

  number_blocks-reported :
      (blocks : List BasicBlock) (id : ℕ) (t : Tally)
      → (number_blocks cfg faults func_name blocks id t).2.patch_list
        ≡ t.patch_list ++ reported faults id (block_hooks blocks)
  unfolding number_blocks block_hooks
  number_blocks-reported [] id t = unfold reported in sym (append-nil t.patch_list)
  number_blocks-reported (b ∷ blocks) id t =
      let r = number_insts cfg faults func_name (block_name b) b.insts id t in
      let first = number_insts-reported (block_name b) b.insts id t in
      rw (number_blocks-reported blocks r.1 r.2, first.0, first.1)
        (append_assoc t.patch_list _ _
          ∙ ap (λ l. t.patch_list ++ l)
              (sym (reported-append faults id (hooks b.insts) (block_hooks blocks))))

-- With a profile, the loops list for each function, in order, the allocations whose alloc or
-- realloc hook has a number that the fault map holds for the function, and no other calls.
pub number_function-reported :
    (cfg : Config) (fault_map : FaultMap) (f : Function) (t : Tally)
    → cfg.profile_path_empty ≡ false
    → (number_function cfg fault_map f t).1.patch_list
      ≡ t.patch_list ++ reported (find_function fault_map f.name) 0 (block_hooks f.blocks)
unfolding number_function
number_function-reported cfg fault_map f t given =
    number_blocks-reported cfg (find_function fault_map f.name) f.name given f.blocks 0 t
