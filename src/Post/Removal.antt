-- ===== src/Post/Removal.antt =====
-- `removeHooks` and `removeFunctionUsers` of DynUntrustedAllocPost.cpp. The functions of the hooks
-- are used by calls only. Debug information, linkages and messages are not modelled.
pub mod Erase
pub mod Keys
pub mod Listed
pub mod Complete
pub mod Left
pub mod Collected
use ia2_provsan.Base.{
  ℕ, String, Bool, true, false, ◌||◌, not, Option, none, some, List, [], ◌∷◌, str_eq, ◌==◌,
  if◌then◌else◌,
}
use ia2_provsan.Base.Outcome.{Outcome, ok, fails, erased_used, ◌>>=◌}
use ia2_provsan.Post.Ir.{CallBase, Instruction, call, plain, BasicBlock, Function}
use ia2_provsan.Post.Patch.{has_function, any_block, any_call}

-- The code without some of its calls, in the reachable blocks.
module _ (gone : CallBase → Bool) where
  unfoldable pub erase_insts : List Instruction → List Instruction
  erase_insts [] = []
  erase_insts (plain k ∷ insts) = plain k ∷ erase_insts insts
  erase_insts (call c ∷ insts) =
      let rest = erase_insts insts in if gone c then rest else call c ∷ rest

  unfoldable pub erase_blocks : List BasicBlock → List BasicBlock
  erase_blocks [] = []
  erase_blocks (b ∷ blocks) = record b { insts = erase_insts b.insts } ∷ erase_blocks blocks

  unfoldable pub erase_calls : List Function → List Function
  erase_calls [] = []
  erase_calls (f ∷ fs) = record f { blocks = erase_blocks f.blocks } ∷ erase_calls fs

abbrev pub has_identity : ℕ → CallBase → Bool
has_identity identity c = c.identity == identity

-- `inst->eraseFromParent()`, for a pointer from the list of hooks.
unfoldable pub erase_inst : List Function → ℕ → Outcome (List Function)
erase_inst m identity =
    if any_call (has_identity identity) m
    then ok (erase_calls (has_identity identity) m)
    else fails erased_used

-- The loop over the list of hooks.
unfoldable pub erase_hooks : List Function → List ℕ → Outcome (List Function)
erase_hooks m [] = ok m
erase_hooks m (identity ∷ hook_list) = do m' ← erase_inst m identity; erase_hooks m' hook_list

abbrev pub is_name : String → Option String → Bool
is_name name none = false
is_name name (some called) = str_eq called name

abbrev pub calls : String → CallBase → Bool
calls name c = is_name name c.called

-- A user is left in an unreachable block.
unfoldable pub any_lost : (CallBase → Bool) → List Function → Bool
any_lost q [] = false
any_lost q (f ∷ fs) = any_block q f.unreachable || any_lost q fs

unfoldable pub drop_function : String → List Function → List Function
drop_function name [] = []
drop_function name (f ∷ fs) =
    let rest = drop_function name fs in if str_eq f.name name then rest else f ∷ rest

-- `removeFunctionUsers`: the loop over the users reads on from the one that it has erased.
unfoldable pub remove_function_users : List Function → String → Outcome (List Function)
remove_function_users m name =
    if any_call (calls name) m || any_lost (calls name) m
    then fails erased_used
    else ok (drop_function name m)

unfoldable pub remove_hook_function : List Function → String → Outcome (List Function)
remove_hook_function m name = if has_function m name then remove_function_users m name else ok m

-- `removeHooks`
unfoldable pub remove_hooks : List Function → List ℕ → Outcome (List Function)
remove_hooks m hook_list = do
  m₀ ← erase_hooks m hook_list
  m₁ ← remove_hook_function m₀ "allocHook"
  m₂ ← remove_hook_function m₁ "reallocHook"
  remove_hook_function m₂ "deallocHook"
