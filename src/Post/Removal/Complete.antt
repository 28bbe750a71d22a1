-- ===== src/Post/Removal/Complete.antt =====
-- The functions of the hooks go, once their calls are erased and no unreachable block has one.
use ia2_provsan.Base.{
  String, Bool, true, false, Option, none, some, List, [], ◌∷◌, ◌≡◌, refl, sym, ◌∙◌, ap, Bool-cases,
  inl, inr, str_eq, str_eq_iff, arith,
}
use ia2_provsan.Base.Outcome.{ok, ◌>>=◌}
use ia2_provsan.Post.Ir.{CallBase, Instruction, call, plain, BasicBlock, Function}
use ia2_provsan.Post.Patch.{any_inst, any_block, any_call}
use ia2_provsan.Post.Number.{hook_index}
use ia2_provsan.Post.Removal.{
  erase_calls, calls, is_name, any_lost, drop_function, remove_hook_function,
}
use ia2_provsan.Post.Removal.Erase.{
  any_call_erased, any_lost-erase_calls, any_call-drop_function, any_lost-drop_function,
  remove_hook_function-drop_function,
}
use ia2_provsan.Post.Removal.Keys.{is_hook, is_hook_name}

-- The module without the calls of hooks, and without the hooks.
unfoldable pub without_hooks : List Function → List Function
without_hooks m =
    drop_function "deallocHook"
      (drop_function "reallocHook" (drop_function "allocHook" (erase_calls is_hook m)))

-- What is no hook does not call a function with a hook's name.
is_name_hook :
    (name : String) (called : Option String)
    → is_hook_name (some name) ≡ true
    → is_hook_name called ≡ false
    → is_name name called ≡ false
is_name_hook name none hook other = refl
is_name_hook name (some other_name) hook other = elim (Bool-cases (str_eq other_name name)) [
  | inl same ↦
      let e = (str_eq_iff other_name name).0 same in
      let both : true ≡ false = sym hook ∙ ap (λ n. is_hook_name (some n)) (sym e) ∙ other in
      absurd cc
  | inr different ↦ different
]

module _ (p q : CallBase → Bool) (under : (c : CallBase) → p c ≡ false → q c ≡ false) where
  any_inst_under : (insts : List Instruction) → any_inst p insts ≡ false → any_inst q insts ≡ false
  unfolding any_inst
  any_inst_under [] h = refl
  any_inst_under (plain k ∷ insts) h = any_inst_under insts h
  any_inst_under (call c ∷ insts) h =
      rw (under c (ground (arith, h))) (any_inst_under insts (ground (arith, h)))

  any_block_under :
      (blocks : List BasicBlock) → any_block p blocks ≡ false → any_block q blocks ≡ false
  unfolding any_block
  any_block_under [] h = refl
  any_block_under (b ∷ blocks) h =
      rw (any_inst_under b.insts (ground (arith, h))) (any_block_under blocks (ground (arith, h)))

  any_lost_under : (m : List Function) → any_lost p m ≡ false → any_lost q m ≡ false
  unfolding any_lost
  any_lost_under [] h = refl
  any_lost_under (f ∷ m) h =
      rw (any_block_under f.unreachable (ground (arith, h))) (any_lost_under m (ground (arith, h)))

-- No call of a hook is left, reachable or not.
abbrev pub IsClear : List Function → Type 0
IsClear m = (any_call is_hook m ≡ false) × (any_lost is_hook m ≡ false)

abbrev HookFree : String → List Function → Type 0
HookFree name m = (any_call (calls name) m ≡ false) × (any_lost (calls name) m ≡ false)

HookFree-drop_function :
    (name dropped : String) (m : List Function)
    → HookFree name m
    → HookFree name (drop_function dropped m)
HookFree-drop_function name dropped m (uncalled, unlost) = (
  any_call-drop_function (calls name) dropped m uncalled,
  any_lost-drop_function (calls name) dropped m unlost,
)

IsClear-drop_function :
    (dropped : String) (m : List Function) → IsClear m → IsClear (drop_function dropped m)
IsClear-drop_function dropped m (uncalled, unlost) = (
  any_call-drop_function is_hook dropped m uncalled,
  any_lost-drop_function is_hook dropped m unlost,
)

module _ (m : List Function) (unlost : any_lost is_hook m ≡ false) where
  erased-HookFree :
      (name : String) → is_hook_name (some name) ≡ true → HookFree name (erase_calls is_hook m)
  erased-HookFree name hook =
      let under : (c : CallBase) → is_hook c ≡ false → calls name c ≡ false =
        λ c other. is_name_hook name c.called hook other in
      (
        any_call_erased is_hook (calls name) under m,
        any_lost-erase_calls (calls name) is_hook m
            ∙ any_lost_under is_hook (calls name) under m unlost,
      )

  pub drop_hooks :
      (do
        m₁ ← remove_hook_function (erase_calls is_hook m) "allocHook"
        m₂ ← remove_hook_function m₁ "reallocHook"
        remove_hook_function m₂ "deallocHook")
      ≡ ok (without_hooks m)
  unfolding without_hooks
  drop_hooks =
      let m₀ = erase_calls is_hook m in
      let m₁ = drop_function "allocHook" m₀ in
      let m₂ = drop_function "reallocHook" m₁ in
      let first = erased-HookFree "allocHook" (unfold hook_index str_eq in refl) in
      let second =
        HookFree-drop_function "reallocHook" "allocHook" m₀
          (erased-HookFree "reallocHook" (unfold hook_index str_eq in refl)) in
      let third = HookFree-drop_function "deallocHook" "reallocHook" m₁ (
        HookFree-drop_function "deallocHook" "allocHook" m₀
          (erased-HookFree "deallocHook" (unfold hook_index str_eq in refl))) in
      rw
        (
          remove_hook_function-drop_function m₀ "allocHook" first.0 first.1,
          remove_hook_function-drop_function m₁ "reallocHook" second.0 second.1,
        )
        (remove_hook_function-drop_function m₂ "deallocHook" third.0 third.1)

  pub without_hooks-IsClear : IsClear (without_hooks m)
  unfolding without_hooks
  without_hooks-IsClear =
      let m₀ = erase_calls is_hook m in
      let m₁ = drop_function "allocHook" m₀ in
      let m₂ = drop_function "reallocHook" m₁ in
      IsClear-drop_function "deallocHook" m₂ (
        IsClear-drop_function "reallocHook" m₁ (
          IsClear-drop_function "allocHook" m₀ (
            any_call_erased is_hook is_hook (λ c other. other) m,
            any_lost-erase_calls is_hook is_hook m ∙ unlost,
          )))
