-- ===== src/Pre/Hooks/Endless.antt =====
-- The loop over a block has no end where a hook is an allocation function itself.
use ia2_provsan.Base.{ℕ, zero, suc, ◌<◌, true, some, List, ◌∷◌, ◌≡◌, refl, ◌∙◌, ap, arith}
use ia2_provsan.Base.Lists.{length}
use ia2_provsan.Base.Outcome.{fails, unfinished}
use ia2_provsan.Post.Ir.{call_inst, CallBase, Instruction, call}
use ia2_provsan.Pre.Hooks.{
  Targets, Counters, hook_alloc, hook_name, hook_of, hook_insts, has_next, count_hook,
}
use ia2_provsan.Pre.Hooks.Behind.{counted_as}
use ia2_provsan.Pre.Hooks.Loop.{get_hook_inst-some}

-- If `allocHook` is one of the allocation functions, then at a CallInst of an allocation function
-- that has an operand and does not end its block, the loop does not end in any number of rounds: it
-- puts a hook behind each hook.
pub hook_insts_endless :
    (t : Targets) (rounds : ℕ) (c : CallBase) (insts : List Instruction) (k : Counters)
    → hook_name t "allocHook" ≡ some hook_alloc
    → hook_of t c.called ≡ some hook_alloc
    → c.kind ≡ call_inst
    → 0 < length c.args
    → has_next insts ≡ true
    → hook_insts t rounds (call c ∷ insts) k ≡ fails unfinished
unfolding hook_insts
hook_insts_endless t zero c insts k own e kind enough next = refl
hook_insts_endless t (suc rounds) c insts k own e kind enough next =
    let (hook, made, is) = get_hook_inst-some t c k hook_alloc e enough in
    let (size, first, args) = is.with_args in
    let hooked : hook_of t hook.called ≡ some hook_alloc = ap (hook_of t) is.called ∙ own in
    let five : 0 < length hook.args = rw args (omega arith) in
    let ih =
      hook_insts_endless t rounds hook insts (count_hook (counted_as hook_alloc k)) own hooked
        is.is_call five next in
    rw made (simp (kind, next, ih))
