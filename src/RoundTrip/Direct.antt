-- ===== src/RoundTrip/Direct.antt =====
-- The calls without a callee, which `patchInstruction` of DynUntrustedAllocPost.cpp cannot patch.
use ia2_provsan.Base.{
  ℕ, ◌≡◌, refl, sym, Bool, true, false, ◌&&◌, ◌||◌, List, [], ◌∷◌, ◌++◌, arith, ◌==◌, ==_iff,
}
use ia2_provsan.Post.Ir.{Instruction, call, plain, BasicBlock, Function}
use ia2_provsan.Post.Patch.{any_inst, any_block, any_call, is_indirect, lacks_callee}
use ia2_provsan.Post.Patch.Replaced.{listed, AllDirect}
use ia2_provsan.Post.Removal.Keys.{Key, inst_keys, block_keys, keys}

-- Whether a call with an identity has no callee shows in the calls' keys.
abbrev lacks : ℕ → Key → Bool
lacks identity key = key.0 == identity && is_indirect key.1

pub any_key : ℕ → List Key → Bool
any_key identity [] = false
any_key identity (key ∷ ks) = lacks identity key || any_key identity ks

any_key-append :
    (identity : ℕ) (ks ls : List Key)
    → any_key identity (ks ++ ls) ≡ (any_key identity ks || any_key identity ls)
unfolding any_key
any_key-append identity [] ls = refl
any_key-append identity (key ∷ ks) ls = rw (any_key-append identity ks ls) (ground arith)

any_inst-key :
    (identity : ℕ) (insts : List Instruction)
    → any_inst (lacks_callee identity) insts ≡ any_key identity (inst_keys insts)
unfolding any_inst inst_keys any_key
any_inst-key identity [] = refl
any_inst-key identity (plain k ∷ insts) = any_inst-key identity insts
any_inst-key identity (call c ∷ insts) = rw (any_inst-key identity insts)

any_block-key :
    (identity : ℕ) (blocks : List BasicBlock)
    → any_block (lacks_callee identity) blocks ≡ any_key identity (block_keys blocks)
unfolding any_block block_keys
any_block-key identity [] = unfold any_key in refl
any_block-key identity (b ∷ blocks) =
    rw (any_inst-key identity b.insts, any_block-key identity blocks)
      (sym (any_key-append identity (inst_keys b.insts) (block_keys blocks)))

pub any_call-key :
    (identity : ℕ) (m : List Function)
    → any_call (lacks_callee identity) m ≡ any_key identity (keys m)
unfolding any_call keys
any_call-key identity [] = unfold any_key in refl
any_call-key identity (f ∷ m) =
    rw (any_block-key identity f.blocks, any_call-key identity m)
      (sym (any_key-append identity (block_keys f.blocks) (keys m)))

==_self : (k : ℕ) → (k == k) ≡ true
==_self k = (==_iff k k).1 refl

pub AllDirect-listed :
    (m : List Function) (patches : List ℕ)
    → ((k : ℕ) → listed patches k ≡ true → any_call (lacks_callee k) m ≡ false)
    → AllDirect patches m
unfolding listed
AllDirect-listed m [] direct = tt
AllDirect-listed m (k ∷ patches) direct = (
  direct k (rw (==_self k) refl),
  AllDirect-listed m patches (λ i later. direct i (ground (arith, later))),
)
