-- ===== src/Pre/Hooks/Loop.antt =====
-- The loop over a block does what the relation says.
use ia2_provsan.Base.{
  ℕ, zero, suc, ◌*◌, ◌<◌, Option, none, some, List, [], ◌∷◌, ◌≡◌, refl, ◌∙◌, ap, arith,
}
use ia2_provsan.Base.Lists.{length}
use ia2_provsan.Base.Outcome.{ok}
use ia2_provsan.Post.Ir.{
  CallKind, call_inst, invoke_inst, call_br_inst, CallBase, Instruction, call, plain,
}
use ia2_provsan.Pre.Hooks.{
  Targets, Counters, HookName, hook_of, make_hook, get_hook_inst, hook_insts, Walk, in_front,
  count_hook,
}
use ia2_provsan.Pre.Hooks.Behind.{
  IsHook, HasOperands, counted_as, make_hook-IsHook, IsQuiet, Behind, nothing, kept_plain,
  kept_call, dropped, followed, at_destination, CanHook, NotLast, IsReady,
}

module _ (t : Targets) where
  -- At a hook, the loop goes on.
  pub get_hook_inst-hook :
      (h : HookName) (c hook : CallBase) (k : Counters)
      → IsQuiet t
      → IsHook h c hook
      → get_hook_inst t hook k ≡ ok (none, k)
  unfolding get_hook_inst
  get_hook_inst-hook h c hook k q is =
      ap (λ o. make_hook t (hook_of t o) hook k) is.called
      ∙ ap (λ o. make_hook t o hook k) (q.quiet h)

  get_hook_inst-none :
      (c : CallBase) (k : Counters) → hook_of t c.called ≡ none → get_hook_inst t c k ≡ ok (none, k)
  unfolding get_hook_inst
  get_hook_inst-none c k e = ap (λ o. make_hook t o c k) e

  pub get_hook_inst-some :
      (c : CallBase) (k : Counters) (h : HookName)
      → hook_of t c.called ≡ some h
      → HasOperands h c
      → (hook : CallBase) × (get_hook_inst t c k ≡ ok (some hook, counted_as h k)) × IsHook h c hook
  unfolding get_hook_inst
  get_hook_inst-some c k h e enough =
      let (hook, made, is) = make_hook-IsHook t h c k enough in
      (hook, ap (λ o. make_hook t o c k) e ∙ made, is)

  -- The loop returns, and what it returns is as the relation says.
  abbrev Hooked : ℕ → List Instruction → Counters → Type 0
  Hooked rounds insts k =
      (w : Walk) × (hook_insts t rounds insts k ≡ ok w) × Behind t insts k w.0 w.1 w.2

  Hooked-kept :
      (rounds : ℕ) (c : CallBase) (insts : List Instruction) (k : Counters)
      → hook_of t c.called ≡ none
      → Hooked rounds insts k
      → Hooked (suc rounds) (call c ∷ insts) k
  unfolding hook_insts
  Hooked-kept rounds c insts k e (w, returns, b) =
      (in_front (call c) w, rw (get_hook_inst-none c k e, returns), kept_call c e b)

  Hooked-plain :
      (rounds i : ℕ) (insts : List Instruction) (k : Counters)
      → Hooked rounds insts k
      → Hooked (suc rounds) (plain i ∷ insts) k
  unfolding hook_insts
  Hooked-plain rounds i insts k (w, returns, b) = (in_front (plain i) w, rw returns, kept_plain i b)

  Hooked-some :
      (rounds : ℕ) (c : CallBase) (insts : List Instruction) (k : Counters) (h : HookName)
      (kind : CallKind)
      → IsQuiet t
      → hook_of t c.called ≡ some h
      → c.kind ≡ kind
      → HasOperands h c
      → NotLast t (some h) kind insts
      → ((k' : Counters) → Hooked rounds insts k')
      → ((k' : Counters) → Hooked (suc rounds) insts k')
      → Hooked (suc (suc rounds)) (call c ∷ insts) k
  unfolding hook_insts
  Hooked-some rounds c insts k h call_inst q e kind enough next ih ih₁ =
      let (hook, made, is) = get_hook_inst-some c k h e enough in
      let k' = count_hook (counted_as h k) in
      let (w, returns, b) = ih k' in
      (
        in_front (call c) (in_front (call hook) w),
        rw made (simp (kind, next, get_hook_inst-hook h c hook k' q is, returns)),
        followed c hook h e kind is b,
      )
  Hooked-some rounds c insts k h (invoke_inst dest) q e kind enough next ih ih₁ =
      let (hook, made, is) = get_hook_inst-some c k h e enough in
      let ((out, pending, k'), returns, b) = ih₁ (count_hook (counted_as h k)) in
      (
        (call c ∷ out, (dest, hook) ∷ pending, k'),
        rw made (simp (kind, returns)),
        at_destination c hook h dest e kind is b,
      )
  Hooked-some rounds c insts k h call_br_inst q e kind enough next ih ih₁ =
      let (hook, made, is) = get_hook_inst-some c k h e enough in
      let (w, returns, b) = ih₁ (counted_as h k) in
      (in_front (call c) w, rw made (simp (kind, returns)), dropped c h e kind b)

  Hooked-call :
      (rounds : ℕ) (c : CallBase) (insts : List Instruction) (k : Counters) (o : Option HookName)
      → IsQuiet t
      → hook_of t c.called ≡ o
      → CanHook t o c
      → NotLast t o c.kind insts
      → ((k' : Counters) → Hooked rounds insts k')
      → ((k' : Counters) → Hooked (suc rounds) insts k')
      → Hooked (suc (suc rounds)) (call c ∷ insts) k
  Hooked-call rounds c insts k none q e can next ih ih₁ =
      Hooked-kept (suc rounds) c insts k e (ih₁ k)
  Hooked-call rounds c insts k (some h) q e can next ih ih₁ =
      Hooked-some rounds c insts k h c.kind q e refl can next ih ih₁

  -- If no hook's function is an allocation function itself, every call has the operands that its
  -- hook copies, and no hooked CallInst ends the block, then in more than twice as many rounds as
  -- the block has instructions the loop returns: each CallInst of an allocation function has its
  -- hook right behind it, the hook of each InvokeInst is kept for the normal destination, and all
  -- else is as it was.
  pub hook_insts-Behind :
      (rounds : ℕ) (insts : List Instruction) (k : Counters)
      → IsQuiet t
      → IsReady t insts
      → 2 * length insts < rounds
      → (w : Walk) × (hook_insts t rounds insts k ≡ ok w) × Behind t insts k w.0 w.1 w.2
  hook_insts-Behind zero insts k q r enough = absurd (omega arith)
  hook_insts-Behind (suc rounds) [] k q r enough =
      (([], [], k), unfold hook_insts in refl, nothing k)
  hook_insts-Behind (suc rounds) (plain i ∷ insts) k q r enough =
      Hooked-plain rounds i insts k (hook_insts-Behind rounds insts k q r (omega arith))
  hook_insts-Behind (suc zero) (call c ∷ insts) k q r enough = absurd (omega arith)
  hook_insts-Behind (suc (suc rounds)) (call c ∷ insts) k q (can, next, r) enough =
      Hooked-call rounds c insts k (hook_of t c.called) q refl can next
        (λ k'. hook_insts-Behind rounds insts k' q r (omega arith))
        (λ k'. hook_insts-Behind (suc rounds) insts k' q r (omega arith))
