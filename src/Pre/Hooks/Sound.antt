-- ===== src/Pre/Hooks/Sound.antt =====
-- What the pass needs of a function's blocks, and what a change of one block keeps.
use ia2_provsan.Base.{
  ℕ, Bool, true, false, Option, none, some, List, [], ◌∷◌, ◌≡◌, refl, sym, ◌∙◌, ap, arith, ◌==◌,
  Bool-cases, inl, inr, ◌||◌, subst, str_eq,
}
use ia2_provsan.Post.Ir.{
  CallKind, invoke_inst, CallBase, Instruction, call, plain, BasicBlock, Function,
}
use ia2_provsan.Post.Number.{hook_index}
use ia2_provsan.Post.Number.Ids.{
  number_position, numbered_name, HasSpace, HaveSpace, BlocksHaveSpace,
}
use ia2_provsan.Pre.Hooks.{
  Targets, HookName, hook_alloc, hook_realloc, hook_dealloc, hook_of, has_next, find_block,
  put_insts,
}
use ia2_provsan.Pre.Hooks.Behind.{
  IsHook, HasArgs, IsQuiet, IsReady, CanHook, NotLast, hook_function,
}

unfoldable pub has_label : List BasicBlock → ℕ → Bool
has_label [] label = false
has_label (b ∷ blocks) label = (b.label == label) || has_label blocks label

-- The normal destinations of invokes are blocks of the function.
abbrev pub DestKnown : (ℕ → Bool) → CallKind → Type 0
DestKnown known (invoke_inst dest) = known dest ≡ true
DestKnown known _ = Unit {0}

abbrev pub AllDests : (ℕ → Bool) → List Instruction → Type 0
AllDests known [] = Unit {0}
AllDests known (plain i ∷ insts) = AllDests known insts
AllDests known (call c ∷ insts) = DestKnown known c.kind × AllDests known insts

module _ (t : Targets) where
  -- A block is not empty, its calls have their operands, and its hooks the three arguments that
  -- assignLocalIDs writes.
  pub record IsGood (known : ℕ → Bool) (insts : List Instruction) : Type 0 where
    pub ready : IsReady t insts
    pub filled : has_next insts ≡ true
    pub room : HaveSpace insts
    pub dests : AllDests known insts

  abbrev pub AllGood : (ℕ → Bool) → List BasicBlock → Type 0
  AllGood known [] = Unit {0}
  AllGood known (b ∷ blocks) = IsGood known b.insts × AllGood known blocks

  -- All this holds of the blocks of a function.
  abbrev pub IsSound : Function → Type 0
  IsSound f = AllGood (has_label f.blocks) f.blocks

  pub AllGood-BlocksHaveSpace :
      (known : ℕ → Bool) (blocks : List BasicBlock) → AllGood known blocks → BlocksHaveSpace blocks
  AllGood-BlocksHaveSpace known [] a = tt
  AllGood-BlocksHaveSpace known (b ∷ blocks) (good, a) =
      (good.room, AllGood-BlocksHaveSpace known blocks a)

  -- Known labels are found, and what is found is good.
  pub find_block-IsGood :
      (known : ℕ → Bool) (blocks : List BasicBlock) (label : ℕ)
      → AllGood known blocks
      → has_label blocks label ≡ true
      → (b : BasicBlock) × (find_block blocks label ≡ some b) × IsGood known b.insts
  unfolding has_label find_block
  find_block-IsGood known [] label a h = cc
  find_block-IsGood known (b ∷ blocks) label (good, a) h = elim (Bool-cases (b.label == label)) [
    | inl hit ↦ (b, rw hit, good)
    | inr other ↦
        let rest : has_label blocks label ≡ true = ground arith in
        let (b', found, good') = find_block-IsGood known blocks label a rest in
        (b', rw (other, found), good')
  ]

  pub has_label-put_insts :
      (blocks : List BasicBlock) (label : ℕ) (insts : List Instruction) (x : ℕ)
      → has_label (put_insts blocks label insts) x ≡ has_label blocks x
  unfolding has_label put_insts
  has_label-put_insts [] label insts x = refl
  has_label-put_insts (b ∷ blocks) label insts x = elim (Bool-cases (b.label == label)) [
    | inl hit ↦ rw hit
    | inr other ↦ rw (other, has_label-put_insts blocks label insts x)
  ]

  AllGood-put_insts :
      (known : ℕ → Bool) (blocks : List BasicBlock) (label : ℕ) (insts : List Instruction)
      → AllGood known blocks
      → IsGood known insts
      → AllGood known (put_insts blocks label insts)
  unfolding put_insts
  AllGood-put_insts known [] label insts a good = tt
  AllGood-put_insts known (b ∷ blocks) label insts (first, a) good =
      elim (Bool-cases (b.label == label)) [
        | inl hit ↦ rw hit (good, a)
        | inr other ↦ rw other (first, AllGood-put_insts known blocks label insts a good)
      ]

  -- With the same labels known.
  AllGood-same :
      (known known' : ℕ → Bool) (blocks : List BasicBlock)
      → known ≡ known'
      → AllGood known blocks
      → AllGood known' blocks
  AllGood-same known known' blocks e a = subst (λ (k : ℕ → Bool). AllGood k blocks) e a

  pub IsSound-put_insts :
      (f : Function) (label : ℕ) (insts : List Instruction)
      → IsSound f
      → IsGood (has_label f.blocks) insts
      → IsSound (record f { blocks = put_insts f.blocks label insts })
  IsSound-put_insts f label insts a good =
      AllGood-same (has_label f.blocks) (has_label (put_insts f.blocks label insts))
        (put_insts f.blocks label insts) (λ i x. sym (has_label-put_insts f.blocks label insts x) i)
        (AllGood-put_insts (has_label f.blocks) f.blocks label insts a good)

  hook_room :
      (h : HookName) (c hook : CallBase)
      → HasArgs h c hook.args
      → HasSpace hook (numbered_name (some (hook_function h)))
  unfolding hook_index str_eq
  hook_room hook_alloc c hook (size, e, args) = rw args (omega arith)
  hook_room hook_realloc c hook (new_size, old_ptr, old_size, e, f, g, args) = rw args (omega arith)
  hook_room hook_dealloc c hook (ptr, size, e, f, args) = tt

  pub hook_position :
      (h : HookName) (c hook : CallBase) → IsHook h c hook → HasSpace hook (number_position hook)
  hook_position h c hook is =
      subst (λ o. HasSpace hook (numbered_name o)) (sym is.called) (hook_room h c hook is.with_args)

  hook_quiet :
      (h : HookName) (c hook : CallBase)
      → IsQuiet t
      → IsHook h c hook
      → hook_of t hook.called ≡ none
  hook_quiet h c hook q is = ap (hook_of t) is.called ∙ q.quiet h

  pub hook_ready :
      (h : HookName) (c hook : CallBase) (insts : List Instruction)
      → IsQuiet t
      → IsHook h c hook
      → IsReady t insts
      → IsReady t (call hook ∷ insts)
  hook_ready h c hook insts q is r =
      let e : hook_of t hook.called ≡ none = hook_quiet h c hook q is in
      (
        subst (λ (o : Option HookName). CanHook t o hook) (sym e) tt,
        subst (λ (o : Option HookName). NotLast t o hook.kind insts) (sym e) tt,
        r,
      )

  pub hook_dest :
      (known : ℕ → Bool) (h : HookName) (c hook : CallBase)
      → IsHook h c hook
      → DestKnown known hook.kind
  hook_dest known h c hook is = subst (DestKnown known) (sym is.is_call) tt

  -- A hook in front keeps a block good.
  pub IsGood-hook :
      (known : ℕ → Bool) (h : HookName) (c hook : CallBase) (insts : List Instruction)
      → IsQuiet t
      → IsHook h c hook
      → IsGood known insts
      → IsGood known (call hook ∷ insts)
  IsGood-hook known h c hook insts q is good = record {
    ready = hook_ready h c hook insts q is good.ready;
    filled = refl;
    room = (hook_position h c hook is, good.room);
    dests = (hook_dest known h c hook is, good.dests);
  }
