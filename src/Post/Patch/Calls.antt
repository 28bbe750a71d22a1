-- ===== src/Post/Patch/Calls.antt =====
-- Changes of calls: two in a row are one, and neither the functions' names nor a test that the
-- change respects are affected.
use ia2_provsan.Base.{String, Bool, List, [], ◌∷◌, ◌≡◌, refl}
use ia2_provsan.Post.Ir.{CallBase, Instruction, call, plain, BasicBlock, Function}
use ia2_provsan.Post.Patch.{
  has_function, change_insts, change_blocks, change_calls, any_inst, any_block, any_call,
}

module _ (f g h : CallBase → CallBase) (same : (c : CallBase) → f (g c) ≡ h c) where
  change_insts-twice :
      (insts : List Instruction) → change_insts f (change_insts g insts) ≡ change_insts h insts
  unfolding change_insts
  change_insts-twice [] = refl
  change_insts-twice (plain k ∷ insts) = rw (change_insts-twice insts)
  change_insts-twice (call c ∷ insts) = rw (same c, change_insts-twice insts)

  change_blocks-twice :
      (blocks : List BasicBlock) → change_blocks f (change_blocks g blocks) ≡ change_blocks h blocks
  unfolding change_blocks
  change_blocks-twice [] = refl
  change_blocks-twice (b ∷ blocks) = rw (change_insts-twice b.insts, change_blocks-twice blocks)

  pub change_calls-twice :
      (m : List Function) → change_calls f (change_calls g m) ≡ change_calls h m
  unfolding change_calls
  change_calls-twice [] = refl
  change_calls-twice (x ∷ m) = rw (change_blocks-twice x.blocks, change_calls-twice m)

module _ (g : CallBase → CallBase) where
  pub has_function-change_calls :
      (m : List Function) (name : String)
      → has_function (change_calls g m) name ≡ has_function m name
  unfolding has_function change_calls
  has_function-change_calls [] name = refl
  has_function-change_calls (x ∷ m) name = rw (has_function-change_calls m name)

  module _ (q : CallBase → Bool) (kept : (c : CallBase) → q (g c) ≡ q c) where
    any_inst-change_insts :
        (insts : List Instruction) → any_inst q (change_insts g insts) ≡ any_inst q insts
    unfolding any_inst change_insts
    any_inst-change_insts [] = refl
    any_inst-change_insts (plain k ∷ insts) = any_inst-change_insts insts
    any_inst-change_insts (call c ∷ insts) = rw (kept c, any_inst-change_insts insts)

    any_block-change_blocks :
        (blocks : List BasicBlock) → any_block q (change_blocks g blocks) ≡ any_block q blocks
    unfolding any_block change_blocks
    any_block-change_blocks [] = refl
    any_block-change_blocks (b ∷ blocks) =
        rw (any_inst-change_insts b.insts, any_block-change_blocks blocks)

    pub any_call-change_calls : (m : List Function) → any_call q (change_calls g m) ≡ any_call q m
    unfolding any_call change_calls
    any_call-change_calls [] = refl
    any_call-change_calls (x ∷ m) = rw (any_block-change_blocks x.blocks, any_call-change_calls m)

module _ (g : CallBase → CallBase) (same : (c : CallBase) → g c ≡ c) where
  change_insts_none : (insts : List Instruction) → change_insts g insts ≡ insts
  unfolding change_insts
  change_insts_none [] = refl
  change_insts_none (plain k ∷ insts) = rw (change_insts_none insts)
  change_insts_none (call c ∷ insts) = rw (same c, change_insts_none insts)

  change_blocks_none : (blocks : List BasicBlock) → change_blocks g blocks ≡ blocks
  unfolding change_blocks
  change_blocks_none [] = refl
  change_blocks_none (b ∷ blocks) = rw (change_insts_none b.insts, change_blocks_none blocks)

  pub change_calls_none : (m : List Function) → change_calls g m ≡ m
  unfolding change_calls
  change_calls_none [] = refl
  change_calls_none (x ∷ m) = rw (change_blocks_none x.blocks, change_calls_none m)
