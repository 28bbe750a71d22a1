-- ===== src/Pre/Hooks/Behind.antt =====
-- What the loop over a block does, as a relation: each call of an allocation function gets its hook
-- right behind it, and nothing else changes.
use ia2_provsan.Base.{
  ℕ, zero, suc, ◌<◌, String, true, Option, none, some, List, [], ◌∷◌, ◌≡◌, refl, arith,
}
use ia2_provsan.Base.Lists.{length, get_elem?}
use ia2_provsan.Base.Outcome.{ok}
use ia2_provsan.Post.Ir.{
  Operand, result, null_text, CallKind, call_inst, invoke_inst, call_br_inst, CallBase, Instruction,
  call, plain,
}
use ia2_provsan.Pre.Hooks.{
  Targets, Counters, HookName, hook_alloc, hook_realloc, hook_dealloc, hook_name, hook_of,
  make_hook, has_next, dummy_id, count_hook, count_alloc, count_realloc, count_dealloc, new_call,
}

-- The name of a hook's function, and its arguments for a call: the operands that it copies are the
-- call's.
abbrev pub hook_function : HookName → String
hook_function hook_alloc = "allocHook"
hook_function hook_realloc = "reallocHook"
hook_function hook_dealloc = "deallocHook"

abbrev pub HasArgs : HookName → CallBase → List Operand → Type 0
HasArgs hook_alloc c args =
    (size : Operand) × (get_elem? c.args 0 ≡ some size)
    × (args ≡ result c.identity ∷ size ∷ dummy_id ∷ null_text ∷ null_text ∷ [])
HasArgs hook_realloc c args =
    (new_size : Operand) × (old_ptr : Operand) × (old_size : Operand) × (get_elem? c.args 3
      ≡ some new_size)
    × (get_elem? c.args 0 ≡ some old_ptr)
    × (get_elem? c.args 1 ≡ some old_size)
    × (args
        ≡ result c.identity ∷ new_size ∷ old_ptr ∷ old_size ∷ dummy_id ∷ null_text ∷ null_text ∷ [])
HasArgs hook_dealloc c args =
    (ptr : Operand) × (size : Operand) × (get_elem? c.args 0 ≡ some ptr)
    × (get_elem? c.args 1 ≡ some size)
    × (args ≡ ptr ∷ size ∷ dummy_id ∷ [])

pub record IsHook (h : HookName) (c hook : CallBase) : Type 0 where
  pub is_call : hook.kind ≡ call_inst
  pub called : hook.called ≡ some (hook_function h)
  pub with_args : HasArgs h c hook.args

-- The operands that a hook copies are there.
abbrev pub HasOperands : HookName → CallBase → Type 0
HasOperands hook_alloc c = 0 < length c.args
HasOperands hook_realloc c = 3 < length c.args
HasOperands hook_dealloc c = 1 < length c.args

abbrev pub counted_as : HookName → Counters → Counters
counted_as hook_alloc k = count_alloc k
counted_as hook_realloc k = count_realloc k
counted_as hook_dealloc k = count_dealloc k

get_elem?-some {ℓ} :
    {A : Type ℓ} (xs : List A) (i : ℕ) → i < length xs → (x : A) × (get_elem? xs i ≡ some x)
get_elem?-some [] i h = absurd (omega arith)
get_elem?-some (x ∷ xs) zero h = (x, refl)
get_elem?-some (x ∷ xs) (suc i) h = get_elem?-some xs i (omega arith)

-- `getHookInst` for a call of an allocation function.
pub make_hook-IsHook :
    (t : Targets) (h : HookName) (c : CallBase) (k : Counters)
    → HasOperands h c
    → (hook : CallBase) × (make_hook t (some h) c k ≡ ok (some hook, counted_as h k))
      × IsHook h c hook
make_hook-IsHook t hook_alloc c k enough =
    let (size, e) = get_elem?-some c.args 0 enough in
    let args = result c.identity ∷ size ∷ dummy_id ∷ null_text ∷ null_text ∷ [] in
    (
      new_call k "allocHook" args,
      rw e,
      record { is_call = refl; called = refl; with_args = (size, e, refl) },
    )
make_hook-IsHook t hook_realloc c k enough =
    let (new_size, e) = get_elem?-some c.args 3 enough in
    let (old_ptr, f) = get_elem?-some c.args 0 (omega arith) in
    let (old_size, g) = get_elem?-some c.args 1 (omega arith) in
    let tail = dummy_id ∷ null_text ∷ null_text ∷ [] in
    let args = result c.identity ∷ new_size ∷ old_ptr ∷ old_size ∷ tail in
    (
      new_call k "reallocHook" args,
      rw (e, f, g),
      record {
        is_call = refl;
        called = refl;
        with_args = (new_size, old_ptr, old_size, e, f, g, refl);
      },
    )
make_hook-IsHook t hook_dealloc c k enough =
    let (ptr, e) = get_elem?-some c.args 0 (omega arith) in
    let (size, f) = get_elem?-some c.args 1 enough in
    (
      new_call k "deallocHook" (ptr ∷ size ∷ dummy_id ∷ []),
      rw (e, f),
      record { is_call = refl; called = refl; with_args = (ptr, size, e, f, refl) },
    )

module _ (t : Targets) where
  -- The hooks are no allocation functions themselves.
  pub record IsQuiet : Type 0 where
    pub quiet : (h : HookName) → hook_name t (hook_function h) ≡ none

  -- The code and the counters before and after: `pending` holds the hooks of invokes with their
  -- normal destinations. The hook of a CallBrInst is counted by its kind, and dropped.
  pub data Behind
      : List Instruction
        → Counters
        → List Instruction
        → List (ℕ × CallBase)
        → Counters
        → Type 0 where
    nothing : (k : Counters) → Behind [] k [] [] k
    kept_plain :
        (i : ℕ) {insts out : List Instruction} {pending : List (ℕ × CallBase)} {k k' : Counters}
        → Behind insts k out pending k'
        → Behind (plain i ∷ insts) k (plain i ∷ out) pending k'
    kept_call :
        (c : CallBase) {insts out : List Instruction} {pending : List (ℕ × CallBase)}
        {k k' : Counters}
        → hook_of t c.called ≡ none
        → Behind insts k out pending k'
        → Behind (call c ∷ insts) k (call c ∷ out) pending k'
    dropped :
        (c : CallBase) (h : HookName) {insts out : List Instruction} {pending : List (ℕ × CallBase)}
        {k k' : Counters}
        → hook_of t c.called ≡ some h
        → c.kind ≡ call_br_inst
        → Behind insts (counted_as h k) out pending k'
        → Behind (call c ∷ insts) k (call c ∷ out) pending k'
    followed :
        (c hook : CallBase) (h : HookName) {insts out : List Instruction}
        {pending : List (ℕ × CallBase)} {k k' : Counters}
        → hook_of t c.called ≡ some h
        → c.kind ≡ call_inst
        → IsHook h c hook
        → Behind insts (count_hook (counted_as h k)) out pending k'
        → Behind (call c ∷ insts) k (call c ∷ call hook ∷ out) pending k'
    at_destination :
        (c hook : CallBase) (h : HookName) (dest : ℕ) {insts out : List Instruction}
        {pending : List (ℕ × CallBase)} {k k' : Counters}
        → hook_of t c.called ≡ some h
        → c.kind ≡ invoke_inst dest
        → IsHook h c hook
        → Behind insts (count_hook (counted_as h k)) out pending k'
        → Behind (call c ∷ insts) k (call c ∷ out) ((dest, hook) ∷ pending) k'

  -- A call has the operands that its hook copies.
  abbrev pub CanHook : Option HookName → CallBase → Type 0
  CanHook none c = Unit {0}
  CanHook (some h) c = HasOperands h c

  abbrev pub NotLast : Option HookName → CallKind → List Instruction → Type 0
  NotLast (some h) call_inst insts = has_next insts ≡ true
  NotLast _ _ insts = Unit {0}

  -- Calls have their operands, and a hooked CallInst does not end its block.
  abbrev pub IsReady : List Instruction → Type 0
  IsReady [] = Unit {0}
  IsReady (plain i ∷ insts) = IsReady insts
  IsReady (call c ∷ insts) =
      CanHook (hook_of t c.called) c × NotLast (hook_of t c.called) c.kind insts × IsReady insts
