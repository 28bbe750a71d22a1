-- ===== src/Post/Ir.antt =====
-- LLVM's intermediate code, as far as the passes read and change it.
use Prim.Native.String.{◌++◌ as ◌<>◌}
use ia2_provsan.Base.{ℕ, String, Bool, Option, List, if◌then◌else◌, str_eq}
use ia2_provsan.Base.Render.{to_string}

-- An operand: the result of the call with an identity, an integer constant, a global string, the
-- null string, or any other value.
pub data Operand : Type 0 where
  result : ℕ → Operand
  number : ℕ → Operand
  text : String → Operand
  null_text : Operand
  other : ℕ → Operand

-- A CallInst, an InvokeInst with the label of its normal destination, or a CallBrInst.
pub data CallKind : Type 0 where
  call_inst : CallKind
  invoke_inst : ℕ → CallKind
  call_br_inst : CallKind

-- `called` is the name of `getCalledFunction()`, `none` for an indirect call.
pub record CallBase : Type 0 where
  pub identity : ℕ
  pub kind : CallKind
  pub called : Option String
  pub args : List Operand

pub data Instruction : Type 0 where
  call : CallBase → Instruction
  plain : ℕ → Instruction

-- `label` is the block's identity, and `slot` what LLVM's ModuleSlotTracker gives for it. `lead` are
-- the instructions before the first insertion point, which are no calls.
pub record BasicBlock : Type 0 where
  pub name : String
  pub slot : ℕ
  pub label : ℕ
  pub lead : List ℕ
  pub insts : List Instruction

-- `blocks` are the reachable blocks in LLVM's reverse post-order, `unreachable` the others.
pub record Function : Type 0 where
  pub name : String
  pub is_declaration : Bool
  pub blocks : List BasicBlock
  pub unreachable : List BasicBlock

-- The name of a block, or one made from its slot.
unfoldable pub block_name : BasicBlock → String
block_name b = if str_eq b.name "" then "block" <> to_string b.slot else b.name
