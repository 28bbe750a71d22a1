-- ===== src/Post/Removal/Collected.antt =====
-- The numbering lists the hooks for `removeHooks`, and leaves the calls' identities and callees.
use mathlib.Core.List.{append_assoc, append-nil}
use ia2_provsan.Base.{
  ℕ, String, Bool, true, false, Option, none, some, List, [], ◌∷◌, ◌++◌, ◌≡◌, refl, sym, ◌∙◌, ap,
}
use ia2_provsan.Containers.Sorted.{Sorted}
use ia2_provsan.Post.Ir.{CallBase, Instruction, call, plain, BasicBlock, Function, block_name}
use ia2_provsan.Post.Profile.{FaultingSite, FaultMap, find_function}
use ia2_provsan.Post.Number.{
  HookIndex, at_position, dealloc_hook_index, hook_index, Config, Tally, Visit, number_hook,
  visit_hook, visit_called, number_insts, number_blocks, number_function, number_functions,
  push_hook, count_hook,
}
use ia2_provsan.Post.Removal.{any_lost}
use ia2_provsan.Post.Removal.Keys.{
  inst_keys, block_keys, keys, is_hook, is_hook_name, is_indexed, push_if, hook_ids,
  hook_ids-append,
}

push_if-append : (b : Bool) (i : ℕ) (rest : List ℕ) → push_if b i rest ≡ push_if b i [] ++ rest
push_if-append true i rest = refl
push_if-append false i rest = refl

pushed :
    (remove : Bool) (i : ℕ) (name : String) (t : Tally)
    → remove ≡ true
    → (push_hook remove i (count_hook name t)).hook_list ≡ t.hook_list ++ (i ∷ [])
unfolding count_hook
pushed true i name t e = refl
pushed false i name t e = absurd cc

module _ (cfg : Config) (removes : cfg.remove_hooks ≡ true) where
  module _ (faults : Option (Sorted FaultingSite)) (func_name bb_name : String) where
    -- What a visit leaves of a call, and adds to the list.
    abbrev Collects : Bool → CallBase → Tally → Visit CallBase → Type 0
    Collects b c t r =
        (r.0.identity ≡ c.identity)
        × (r.0.called ≡ c.called)
        × (r.2.hook_list ≡ t.hook_list ++ push_if b c.identity [])

    visit_hook-Collects :
        (o : Option HookIndex) (name : String) (c : CallBase) (id : ℕ) (t : Tally)
        → Collects (is_indexed o) c t (visit_hook cfg faults func_name bb_name o name c id t)
    unfolding number_hook
    visit_hook-Collects none name c id t = (refl, refl, sym (append-nil t.hook_list))
    visit_hook-Collects (some dealloc_hook_index) name c id t =
        (refl, refl, pushed cfg.remove_hooks c.identity name t removes)
    visit_hook-Collects (some (at_position p)) name c id t =
        (refl, refl, pushed cfg.remove_hooks c.identity name t removes)

    visit_called-Collects :
        (o : Option String) (c : CallBase) (id : ℕ) (t : Tally)
        → Collects (is_hook_name o) c t (visit_called cfg faults func_name bb_name o c id t)
    visit_called-Collects none c id t = (refl, refl, sym (append-nil t.hook_list))
    visit_called-Collects (some name) c id t = visit_hook-Collects (hook_index name) name c id t

    number_insts-keys :
        (insts : List Instruction) (id : ℕ) (t : Tally)
        → let r = number_insts cfg faults func_name bb_name insts id t in
          (inst_keys r.0 ≡ inst_keys insts)
          × (r.2.hook_list ≡ t.hook_list ++ hook_ids (inst_keys insts))
    unfolding number_insts inst_keys
    number_insts-keys [] id t = (refl, unfold hook_ids in sym (append-nil t.hook_list))
    number_insts-keys (plain k ∷ insts) id t = number_insts-keys insts id t
    number_insts-keys (call c ∷ insts) id t =
        let r = visit_called cfg faults func_name bb_name c.called c id t in
        let (same, callee, list) = visit_called-Collects c.called c id t in
        let ih = number_insts-keys insts r.1 r.2 in
        (
          rw (same, callee, ih.0),
          ih.1
              ∙ ap (λ l. l ++ hook_ids (inst_keys insts)) list
              ∙ append_assoc t.hook_list _ _
              ∙ ap (λ l. t.hook_list ++ l)
                  (unfold hook_ids in
                    sym (
                      push_if-append (is_hook_name c.called) c.identity
                        (hook_ids (inst_keys insts)))),
        )

  number_blocks-keys :
      (faults : Option (Sorted FaultingSite)) (func_name : String) (blocks : List BasicBlock)
      (id : ℕ) (t : Tally)
      → let r = number_blocks cfg faults func_name blocks id t in
        (block_keys r.0 ≡ block_keys blocks)
        × (r.2.hook_list ≡ t.hook_list ++ hook_ids (block_keys blocks))
  unfolding number_blocks block_keys
  number_blocks-keys faults func_name [] id t =
      (refl, unfold hook_ids in sym (append-nil t.hook_list))
  number_blocks-keys faults func_name (b ∷ blocks) id t =
      let r = number_insts cfg faults func_name (block_name b) b.insts id t in
      let first = number_insts-keys faults func_name (block_name b) b.insts id t in
      let ih = number_blocks-keys faults func_name blocks r.1 r.2 in
      (
        rw (first.0, ih.0),
        ih.1
            ∙ ap (λ l. l ++ hook_ids (block_keys blocks)) first.1
            ∙ append_assoc t.hook_list _ _
            ∙ ap (λ l. t.hook_list ++ l)
                (sym (hook_ids-append (inst_keys b.insts) (block_keys blocks))),
      )

  pub number_function-keys :
      (fault_map : FaultMap) (f : Function) (t : Tally)
      → block_keys (number_function cfg fault_map f t).0.blocks ≡ block_keys f.blocks
  unfolding number_function
  number_function-keys fault_map f t =
      (number_blocks-keys (find_function fault_map f.name) f.name f.blocks 0 t).0

  pub number_functions-keys :
      (fault_map : FaultMap) (m : List Function) (t : Tally)
      → let r = number_functions cfg fault_map m t in
        (keys r.0 ≡ keys m)
        × (r.1.hook_list ≡ t.hook_list ++ hook_ids (keys m))
        × (any_lost is_hook r.0 ≡ any_lost is_hook m)
  unfolding number_functions number_function keys any_lost
  number_functions-keys fault_map [] t =
      (refl, unfold hook_ids in sym (append-nil t.hook_list), refl)
  number_functions-keys fault_map (f ∷ m) t =
      let r = number_function cfg fault_map f t in
      let first = number_blocks-keys (find_function fault_map f.name) f.name f.blocks 0 t in
      let ih = number_functions-keys fault_map m r.1 in
      (
        rw (first.0, ih.0),
        ih.1
            ∙ ap (λ l. l ++ hook_ids (keys m)) first.1
            ∙ append_assoc t.hook_list _ _
            ∙ ap (λ l. t.hook_list ++ l) (sym (hook_ids-append (block_keys f.blocks) (keys m))),
        rw ih.2,
      )
