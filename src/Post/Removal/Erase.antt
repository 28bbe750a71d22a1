-- ===== src/Post/Removal/Erase.antt =====
-- Erasing calls: two erasures in a row are one, and what they leave.
use ia2_provsan.Base.{
  String, Bool, true, false, ◌||◌, List, [], ◌∷◌, ◌≡◌, refl, sym, ap, Bool-cases, inl, inr, str_eq,
  arith,
}
use ia2_provsan.Base.Outcome.{ok}
use ia2_provsan.Post.Ir.{CallBase, Instruction, call, plain, BasicBlock, Function}
use ia2_provsan.Post.Patch.{has_function, any_inst, any_block, any_call}
use ia2_provsan.Post.Removal.{
  erase_insts, erase_blocks, erase_calls, any_lost, drop_function, calls, remove_function_users,
  remove_hook_function,
}

module _ (p q : CallBase → Bool) where
  abbrev pub either : CallBase → Bool
  either c = q c || p c

  erase_insts-twice :
      (insts : List Instruction) → erase_insts p (erase_insts q insts) ≡ erase_insts either insts
  unfolding erase_insts
  erase_insts-twice [] = refl
  erase_insts-twice (plain k ∷ insts) = rw (erase_insts-twice insts)
  erase_insts-twice (call c ∷ insts) = elim (Bool-cases (q c)) [
    | inl gone ↦ rw gone (erase_insts-twice insts)
    | inr kept ↦ rw (kept, erase_insts-twice insts)
  ]

  erase_blocks-twice :
      (blocks : List BasicBlock)
      → erase_blocks p (erase_blocks q blocks) ≡ erase_blocks either blocks
  unfolding erase_blocks
  erase_blocks-twice [] = refl
  erase_blocks-twice (b ∷ blocks) = rw (erase_insts-twice b.insts, erase_blocks-twice blocks)

  pub erase_calls-twice :
      (m : List Function) → erase_calls p (erase_calls q m) ≡ erase_calls either m
  unfolding erase_calls
  erase_calls-twice [] = refl
  erase_calls-twice (f ∷ m) = rw (erase_blocks-twice f.blocks, erase_calls-twice m)

module _ (p : CallBase → Bool) (never : (c : CallBase) → p c ≡ false) where
  erase_insts_none : (insts : List Instruction) → erase_insts p insts ≡ insts
  unfolding erase_insts
  erase_insts_none [] = refl
  erase_insts_none (plain k ∷ insts) = rw (erase_insts_none insts)
  erase_insts_none (call c ∷ insts) = rw (never c, erase_insts_none insts)

  erase_blocks_none : (blocks : List BasicBlock) → erase_blocks p blocks ≡ blocks
  unfolding erase_blocks
  erase_blocks_none [] = refl
  erase_blocks_none (b ∷ blocks) = rw (erase_insts_none b.insts, erase_blocks_none blocks)

  pub erase_calls_none : (m : List Function) → erase_calls p m ≡ m
  unfolding erase_calls
  erase_calls_none [] = refl
  erase_calls_none (f ∷ m) = rw (erase_blocks_none f.blocks, erase_calls_none m)

-- A test that no erased call passes is as before.
module _ (p q : CallBase → Bool) (apart : (c : CallBase) → p c ≡ true → q c ≡ false) where
  any_inst-erase_insts :
      (insts : List Instruction) → any_inst q (erase_insts p insts) ≡ any_inst q insts
  unfolding any_inst erase_insts
  any_inst-erase_insts [] = refl
  any_inst-erase_insts (plain k ∷ insts) = any_inst-erase_insts insts
  any_inst-erase_insts (call c ∷ insts) = elim (Bool-cases (p c)) [
    | inl gone ↦ rw (gone, apart c gone) (any_inst-erase_insts insts)
    | inr kept ↦ rw (kept, any_inst-erase_insts insts)
  ]

  any_block-erase_blocks :
      (blocks : List BasicBlock) → any_block q (erase_blocks p blocks) ≡ any_block q blocks
  unfolding any_block erase_blocks
  any_block-erase_blocks [] = refl
  any_block-erase_blocks (b ∷ blocks) =
      rw (any_inst-erase_insts b.insts, any_block-erase_blocks blocks)

  pub any_call-erase_calls : (m : List Function) → any_call q (erase_calls p m) ≡ any_call q m
  unfolding any_call erase_calls
  any_call-erase_calls [] = refl
  any_call-erase_calls (f ∷ m) = rw (any_block-erase_blocks f.blocks, any_call-erase_calls m)

-- A test that only erased calls pass.
module _ (p q : CallBase → Bool) (under : (c : CallBase) → p c ≡ false → q c ≡ false) where
  any_inst_erased : (insts : List Instruction) → any_inst q (erase_insts p insts) ≡ false
  unfolding any_inst erase_insts
  any_inst_erased [] = refl
  any_inst_erased (plain k ∷ insts) = any_inst_erased insts
  any_inst_erased (call c ∷ insts) = elim (Bool-cases (p c)) [
    | inl gone ↦ rw gone (any_inst_erased insts)
    | inr kept ↦ rw (kept, under c kept) (any_inst_erased insts)
  ]

  any_block_erased : (blocks : List BasicBlock) → any_block q (erase_blocks p blocks) ≡ false
  unfolding any_block erase_blocks
  any_block_erased [] = refl
  any_block_erased (b ∷ blocks) = rw (any_inst_erased b.insts) (any_block_erased blocks)

  pub any_call_erased : (m : List Function) → any_call q (erase_calls p m) ≡ false
  unfolding any_call erase_calls
  any_call_erased [] = refl
  any_call_erased (f ∷ m) = rw (any_block_erased f.blocks) (any_call_erased m)

module _ (q : CallBase → Bool) where
  pub any_lost-erase_calls :
      (p : CallBase → Bool) (m : List Function) → any_lost q (erase_calls p m) ≡ any_lost q m
  unfolding any_lost erase_calls
  any_lost-erase_calls p [] = refl
  any_lost-erase_calls p (f ∷ m) = rw (any_lost-erase_calls p m)

  -- Without a function, a test that no call passed is passed by none.
  pub any_call-drop_function :
      (name : String) (m : List Function)
      → any_call q m ≡ false
      → any_call q (drop_function name m) ≡ false
  unfolding any_call drop_function
  any_call-drop_function name [] h = refl
  any_call-drop_function name (f ∷ m) h = ground (arith, any_call-drop_function name m)

  pub any_lost-drop_function :
      (name : String) (m : List Function)
      → any_lost q m ≡ false
      → any_lost q (drop_function name m) ≡ false
  unfolding any_lost drop_function
  any_lost-drop_function name [] h = refl
  any_lost-drop_function name (f ∷ m) h = ground (arith, any_lost-drop_function name m)

drop_function_absent :
    (name : String) (m : List Function) → has_function m name ≡ false → drop_function name m ≡ m
unfolding has_function drop_function
drop_function_absent name [] h = refl
drop_function_absent name (f ∷ m) h = elim (Bool-cases (str_eq f.name name)) [
  | inl same ↦ absurd (ground (arith, same, h))
  | inr other ↦ rw (other, drop_function_absent name m (ground (arith, other, h)))
]

-- A function that nothing calls goes, if it is there.
pub remove_hook_function-drop_function :
    (m : List Function) (name : String)
    → any_call (calls name) m ≡ false
    → any_lost (calls name) m ≡ false
    → remove_hook_function m name ≡ ok (drop_function name m)
unfolding remove_hook_function remove_function_users
remove_hook_function-drop_function m name uncalled unlost =
    elim (Bool-cases (has_function m name)) [
      | inl there ↦ rw (there, uncalled, unlost) refl
      | inr absent ↦ rw absent (ap ok (sym (drop_function_absent name m absent)))
    ]
