-- ===== src/Post/Patch.antt =====
-- `patchInstruction` of DynUntrustedAllocPost.cpp, and the loop of `run` over the patch list: a
-- reported allocation calls the untrusted allocator instead. A call is known by its identity.
-- Messages are not modelled.
pub mod Calls
pub mod Replaced
use ia2_provsan.Base.{
  ℕ, String, Bool, true, false, ◌||◌, ◌&&◌, Option, none, some, List, [], ◌∷◌, str_eq, ◌==◌,
  if◌then◌else◌,
}
use ia2_provsan.Base.Outcome.{Outcome, ok, fails, null_dereferenced, ◌>>=◌}
use ia2_provsan.Signals.{increment}
use ia2_provsan.Post.Ir.{CallBase, Instruction, call, plain, BasicBlock, Function}

-- `AllocReplacementMap`
unfoldable pub alloc_replacement : String → Option String
alloc_replacement name =
    if str_eq name "__rust_alloc"
    then some "__rust_untrusted_alloc"
    else if str_eq name "trusted_malloc"
    then some "untrusted_malloc"
    else if str_eq name "__rust_alloc_zeroed"
    then some "__rust_untrusted_alloc_zeroed"
    else none

-- `M.getFunction(name)` finds a function, declared or defined.
unfoldable pub has_function : List Function → String → Bool
has_function [] name = false
has_function (f ∷ fs) name = str_eq f.name name || has_function fs name

-- The loops over the code, for a change of calls and for a test of them.
module _ (g : CallBase → CallBase) where
  unfoldable pub change_insts : List Instruction → List Instruction
  change_insts [] = []
  change_insts (plain k ∷ insts) = plain k ∷ change_insts insts
  change_insts (call c ∷ insts) = call (g c) ∷ change_insts insts

  unfoldable pub change_blocks : List BasicBlock → List BasicBlock
  change_blocks [] = []
  change_blocks (b ∷ blocks) = record b { insts = change_insts b.insts } ∷ change_blocks blocks

  unfoldable pub change_calls : List Function → List Function
  change_calls [] = []
  change_calls (f ∷ fs) = record f { blocks = change_blocks f.blocks } ∷ change_calls fs

module _ (q : CallBase → Bool) where
  unfoldable pub any_inst : List Instruction → Bool
  any_inst [] = false
  any_inst (plain k ∷ insts) = any_inst insts
  any_inst (call c ∷ insts) = q c || any_inst insts

  unfoldable pub any_block : List BasicBlock → Bool
  any_block [] = false
  any_block (b ∷ blocks) = any_inst b.insts || any_block blocks

  unfoldable pub any_call : List Function → Bool
  any_call [] = false
  any_call (f ∷ fs) = any_block f.blocks || any_call fs

abbrev pub is_indirect : Option String → Bool
is_indirect none = true
is_indirect (some name) = false

-- The call with an identity has no `getCalledFunction()`.
abbrev pub lacks_callee : ℕ → CallBase → Bool
lacks_callee identity c = c.identity == identity && is_indirect c.called

-- The callee after the patch: the replacement, if there is one and the module has it.
abbrev pub available : Bool → String → String → String
available true replacement name = replacement
available false replacement name = name

abbrev pub replacement_or : List Function → Option String → String → String
replacement_or m none name = name
replacement_or m (some replacement) name = available (has_function m replacement) replacement name

abbrev pub replaced : List Function → Option String → Option String
replaced m none = none
replaced m (some name) = some (replacement_or m (alloc_replacement name) name)

abbrev pub patch_call : List Function → CallBase → CallBase
patch_call m c = record c { called = replaced m c.called }

abbrev pub patch_at : List Function → ℕ → CallBase → CallBase
patch_at m identity c = if c.identity == identity then patch_call m c else c

-- `patchInstruction`, which reads the callee's name first.
unfoldable pub patch_instruction : List Function → ℕ → Outcome (List Function)
patch_instruction m identity =
    if any_call (lacks_callee identity) m
    then fails null_dereferenced
    else ok (change_calls (patch_at m identity) m)

unfoldable pub patch_instructions : List Function → List ℕ → Outcome (List Function)
patch_instructions m [] = ok m
patch_instructions m (identity ∷ patches) = do
  m' ← patch_instruction m identity
  patch_instructions m' patches

abbrev has_replacement : List Function → Option String → Bool
has_replacement m none = false
has_replacement m (some replacement) = has_function m replacement

abbrev pub is_modified : List Function → Option String → Bool
is_modified m none = false
is_modified m (some name) = has_replacement m (alloc_replacement name)

-- `++modified_inst_count`, where a replacement is there.
unfoldable pub count_modified : List Function → ℕ → ℕ → ℕ
count_modified m identity count =
    if any_call (λ c. c.identity == identity && is_modified m c.called) m
    then increment count
    else count

-- The same loop with the count.
unfoldable pub patch_and_count : List Function → List ℕ → ℕ → Outcome (List Function × ℕ)
patch_and_count m [] count = ok (m, count)
patch_and_count m (identity ∷ patches) count = do
  m' ← patch_instruction m identity
  patch_and_count m' patches (count_modified m identity count)
