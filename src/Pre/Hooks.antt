-- ===== src/Pre/Hooks.antt =====
-- `getHookInst` and `hookFunctions` of DynUntrustedAllocPre.cpp. LLVM's control-flow graph is a
-- parameter: whether a block has a single predecessor, and `SplitEdge`. New instructions get the
-- identities from a counter on. The macro MPK_STATS is defined by the pass's header.
pub mod Behind
pub mod Loop
pub mod Endless
pub mod Sound
pub mod Kept
pub mod Placed
pub mod Counts
use ia2_provsan.Base.{
  ℕ, zero, suc, ◌+◌, ◌-◌, ◌*◌, ◌^◌, String, Bool, true, false, not, Option, none, some, List, [],
  ◌∷◌, map, ◌==◌, if◌then◌else◌,
}
use ia2_provsan.Base.Lists.{length, get_elem?}
use ia2_provsan.Base.Outcome.{
  Outcome, ok, fails, operand_missing, null_dereferenced, unfinished, require, ◌>>=◌, ◌>>◌,
}
use ia2_provsan.Signals.{increment}
use ia2_provsan.Post.Ir.{
  Operand, result, number, null_text, CallKind, call_inst, invoke_inst, call_br_inst, CallBase,
  Instruction, call, plain, BasicBlock, Function,
}
use ia2_provsan.Pre.Env.{contains}

-- `AllocFunctions`, `ReallocFunctions` and `DeallocFunctions`.
pub record Targets : Type 0 where
  pub alloc_functions : List (Option String)
  pub realloc_functions : List (Option String)
  pub dealloc_functions : List (Option String)

-- The counters, and the identity of the next new instruction.
pub record Counters : Type 0 where
  pub hook_count : ℕ
  pub alloc_hook_counter : ℕ
  pub realloc_hook_counter : ℕ
  pub dealloc_hook_counter : ℕ
  pub next : ℕ

-- `getArgOperand(i)`
abbrev pub operand_or : Option Operand → Outcome Operand
operand_or none = fails operand_missing
operand_or (some v) = ok v

abbrev pub arg_operand : CallBase → ℕ → Outcome Operand
arg_operand c i = operand_or (get_elem? c.args i)

-- `getDummyID`: -1 as a 64-bit constant.
abbrev pub dummy_id : Operand
dummy_id = number (2 ^ 64 - 1)

abbrev pub new_call : Counters → String → List Operand → CallBase
new_call k name args = record {
  identity = k.next;
  kind = call_inst;
  called = some name;
  args = args;
}

abbrev pub count_alloc : Counters → Counters
count_alloc k = record k { alloc_hook_counter = increment k.alloc_hook_counter; next = k.next + 1 }

abbrev pub count_realloc : Counters → Counters
count_realloc k = record k {
  realloc_hook_counter = increment k.realloc_hook_counter;
  next = k.next + 1;
}

abbrev pub count_dealloc : Counters → Counters
count_dealloc k = record k {
  dealloc_hook_counter = increment k.dealloc_hook_counter;
  next = k.next + 1;
}

abbrev pub count_hook : Counters → Counters
count_hook k = record k { hook_count = increment k.hook_count }

-- Which of the three hooks a call of a function gets.
pub data HookName : Type 0 where
  hook_alloc : HookName
  hook_realloc : HookName
  hook_dealloc : HookName

-- What the loop over a block leaves: its instructions, the hooks of its invokes with the normal
-- destinations, and the counters.
abbrev pub Walk : Type 0
Walk = List Instruction × List (ℕ × CallBase) × Counters

abbrev pub in_front : Instruction → Walk → Walk
in_front i (insts, pending, k) = (i ∷ insts, pending, k)

abbrev pub has_next : List Instruction → Bool
has_next [] = false
has_next (i ∷ insts) = true

module _ (t : Targets) where
  unfoldable pub hook_name : String → Option HookName
  hook_name name =
      if contains t.alloc_functions name
      then some hook_alloc
      else if contains t.realloc_functions name
      then some hook_realloc
      else if contains t.dealloc_functions name
      then some hook_dealloc
      else none

  abbrev pub make_hook :
      Option HookName → CallBase → Counters → Outcome (Option CallBase × Counters)
  make_hook none c k = ok (none, k)
  make_hook (some hook_alloc) c k = do
    size ← arg_operand c 0
    let args = result c.identity ∷ size ∷ dummy_id ∷ null_text ∷ null_text ∷ []
    ok (some (new_call k "allocHook" args), count_alloc k)
  make_hook (some hook_realloc) c k = do
    new_size ← arg_operand c 3
    old_ptr ← arg_operand c 0
    old_size ← arg_operand c 1
    let tail = dummy_id ∷ null_text ∷ null_text ∷ []
    ok (
      some (new_call k "reallocHook" (result c.identity ∷ new_size ∷ old_ptr ∷ old_size ∷ tail)),
      count_realloc k,
    )
  make_hook (some hook_dealloc) c k = do
    ptr ← arg_operand c 0
    size ← arg_operand c 1
    ok (some (new_call k "deallocHook" (ptr ∷ size ∷ dummy_id ∷ [])), count_dealloc k)

  abbrev pub hook_of : Option String → Option HookName
  hook_of none = none
  hook_of (some name) = hook_name name

  unfoldable pub get_hook_inst : CallBase → Counters → Outcome (Option CallBase × Counters)
  get_hook_inst c k = make_hook (hook_of c.called) c k

  -- The loop, from an instruction on. A hook that is put behind a call is the next instruction
  -- that the loop comes to. An invoke ends its block, so its hook is placed after the loop.
  unfoldable pub hook_insts : ℕ → List Instruction → Counters → Outcome Walk
  hook_insts zero insts k = fails unfinished
  hook_insts (suc rounds) [] k = ok ([], [], k)
  hook_insts (suc rounds) (plain i ∷ insts) k = do
    w ← hook_insts rounds insts k
    ok (in_front (plain i) w)
  hook_insts (suc rounds) (call c ∷ insts) k = do
    (new_hook, k₁) ← get_hook_inst c k
    elim new_hook [
      | none ↦ do w ← hook_insts rounds insts k₁; ok (in_front (call c) w)
      | some hook ↦ elim c.kind [
        | call_inst ↦ do
          require (has_next insts)
          w ← hook_insts rounds (call hook ∷ insts) (count_hook k₁)
          ok (in_front (call c) w)
        | invoke_inst dest ↦ do
          (insts', pending, k') ← hook_insts rounds insts (count_hook k₁)
          ok (call c ∷ insts', (dest, hook) ∷ pending, k')
        | call_br_inst ↦ do w ← hook_insts rounds insts k₁; ok (in_front (call c) w)
      ]
    ]

abbrev or_block : Bool → BasicBlock → Option BasicBlock → Option BasicBlock
or_block true b rest = some b
or_block false b rest = rest

-- A block by its label, and new instructions for it.
unfoldable pub find_block : List BasicBlock → ℕ → Option BasicBlock
find_block [] label = none
find_block (b ∷ blocks) label = or_block (b.label == label) b (find_block blocks label)

unfoldable pub put_insts : List BasicBlock → ℕ → List Instruction → List BasicBlock
put_insts [] label insts = []
put_insts (b ∷ blocks) label insts =
    if b.label == label
    then record b { insts = insts } ∷ blocks
    else b ∷ put_insts blocks label insts

abbrev pub with_insts : Function → ℕ → List Instruction → Function
with_insts f label insts = record f { blocks = put_insts f.blocks label insts }

-- LLVM's control-flow graph: `getSinglePredecessor` is not null, and `SplitEdge` from a block to
-- another, which gives the label of the new block between them.
pub record Graph : Type 0 where
  pub single_predecessor : Function → ℕ → Bool
  pub split_edge : Function → ℕ → ℕ → ℕ × Function

-- In front of the block's first instruction that is an insertion point, which has to be there.
abbrev pub front_of : Option BasicBlock → Function → ℕ → CallBase → Outcome Function
front_of none f label hook = fails null_dereferenced
front_of (some b) f label hook = do
  require (has_next b.insts)
  ok (with_insts f label (call hook ∷ b.insts))

unfoldable pub insert_front : Function → ℕ → CallBase → Outcome Function
insert_front f label hook = front_of (find_block f.blocks label) f label hook

abbrev pub label_and_rest : Bool → Graph → Function → ℕ → ℕ → ℕ × Function
label_and_rest true g f parent dest = (dest, f)
label_and_rest false g f parent dest = g.split_edge f parent dest

-- The hook of an invoke in block `parent`.
unfoldable pub place_hook : Graph → Function → ℕ → ℕ → CallBase → Outcome Function
place_hook g f parent dest hook = do
  let (label, f') = label_and_rest (g.single_predecessor f dest) g f parent dest
  insert_front f' label hook

unfoldable pub place_hooks : Graph → Function → ℕ → List (ℕ × CallBase) → Outcome Function
place_hooks g f parent [] = ok f
place_hooks g f parent ((dest, hook) ∷ pending) = do
  f' ← place_hook g f parent dest hook
  place_hooks g f' parent pending

-- Rounds that suffice for the loop over a block, if it ends.
abbrev pub enough_rounds : List Instruction → ℕ
enough_rounds insts = suc (2 * length insts)

module _ (g : Graph) (t : Targets) where
  abbrev pub hook_found :
      Option BasicBlock → Function → ℕ → Counters → Outcome (Function × Counters)
  hook_found none f label k = fails null_dereferenced
  hook_found (some b) f label k = do
    (insts, pending, k') ← hook_insts t (enough_rounds b.insts) b.insts k
    f' ← place_hooks g (with_insts f label insts) label pending
    ok (f', k')

  unfoldable pub hook_block : Function → ℕ → Counters → Outcome (Function × Counters)
  hook_block f label k = hook_found (find_block f.blocks label) f label k

  -- The loop over the blocks that were reachable at the start.
  unfoldable pub hook_blocks : List ℕ → Function → Counters → Outcome (Function × Counters)
  hook_blocks [] f k = ok (f, k)
  hook_blocks (label ∷ labels) f k = do (f', k') ← hook_block f label k; hook_blocks labels f' k'

  unfoldable pub hook_function : Function → Counters → Outcome (Function × Counters)
  hook_function f k =
      if f.is_declaration then ok (f, k) else hook_blocks (map (λ b. b.label) f.blocks) f k

  unfoldable pub hook_functions : List Function → Counters → Outcome (List Function × Counters)
  hook_functions [] k = ok ([], k)
  hook_functions (f ∷ fs) k = do
    (f', k₁) ← hook_function f k
    (fs', k') ← hook_functions fs k₁
    ok (f' ∷ fs', k')
