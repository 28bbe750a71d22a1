-- ===== src/Post/Removal/Keys.antt =====
-- The calls of the reachable code as a list: their identities with their callees.
use ia2_provsan.Base.{
  ℕ, String, Bool, true, false, ◌||◌, Option, none, some, List, [], ◌∷◌, ◌++◌, ◌≡◌, refl, sym,
  Bool-cases, inl, inr, ◌==◌, ==_iff, arith,
}
use ia2_provsan.Post.Ir.{CallBase, Instruction, call, plain, BasicBlock, Function}
use ia2_provsan.Post.Patch.{any_inst, any_block, any_call}
use ia2_provsan.Post.Patch.Replaced.{listed}
use ia2_provsan.Post.Number.{hook_index, HookIndex}
use ia2_provsan.Post.Removal.{erase_insts, erase_blocks, erase_calls, has_identity}

abbrev pub Key : Type 0
Key = ℕ × Option String

unfoldable pub inst_keys : List Instruction → List Key
inst_keys [] = []
inst_keys (plain k ∷ insts) = inst_keys insts
inst_keys (call c ∷ insts) = (c.identity, c.called) ∷ inst_keys insts

unfoldable pub block_keys : List BasicBlock → List Key
block_keys [] = []
block_keys (b ∷ blocks) = inst_keys b.insts ++ block_keys blocks

unfoldable pub keys : List Function → List Key
keys [] = []
keys (f ∷ fs) = block_keys f.blocks ++ keys fs

abbrev pub is_indexed : Option HookIndex → Bool
is_indexed none = false
is_indexed (some index) = true

-- A hook, by the name that is called.
abbrev pub is_hook_name : Option String → Bool
is_hook_name none = false
is_hook_name (some name) = is_indexed (hook_index name)

abbrev pub is_hook : CallBase → Bool
is_hook c = is_hook_name c.called

abbrev pub push_if : Bool → ℕ → List ℕ → List ℕ
push_if true identity rest = identity ∷ rest
push_if false identity rest = rest

-- The identities of all calls, and those of the hooks.
unfoldable pub identities : List Key → List ℕ
identities [] = []
identities (k ∷ ks) = k.0 ∷ identities ks

unfoldable pub hook_ids : List Key → List ℕ
hook_ids [] = []
hook_ids (k ∷ ks) = push_if (is_hook_name k.1) k.0 (hook_ids ks)

-- No identity stands twice in the list.
abbrev pub IsDistinct : List ℕ → Type 0
IsDistinct [] = Unit {0}
IsDistinct (i ∷ is) = (listed is i ≡ false) × IsDistinct is

abbrev pub AllKeys : (Key → Type 0) → List Key → Type 0
AllKeys P [] = Unit {0}
AllKeys P (k ∷ ks) = P k × AllKeys P ks

AllKeys-first :
    (P : Key → Type 0) (ks ls : List Key) → AllKeys P (ks ++ ls) → AllKeys P ks × AllKeys P ls
AllKeys-first P [] ls a = (tt, a)
AllKeys-first P (k ∷ ks) ls (x, a) =
    let (first, second) = AllKeys-first P ks ls a in ((x, first), second)

pub AllKeys-map :
    (P Q : Key → Type 0) (ks : List Key) → ((k : Key) → P k → Q k) → AllKeys P ks → AllKeys Q ks
AllKeys-map P Q [] f a = tt
AllKeys-map P Q (k ∷ ks) f (x, a) = (f k x, AllKeys-map P Q ks f a)

pub AllKeys-both :
    (P Q : Key → Type 0) (ks : List Key) → AllKeys P ks → AllKeys Q ks → AllKeys (λ k. P k × Q k) ks
AllKeys-both P Q [] a b = tt
AllKeys-both P Q (k ∷ ks) (x, a) (y, b) = ((x, y), AllKeys-both P Q ks a b)

pub listed-append : (is js : List ℕ) (i : ℕ) → listed (is ++ js) i ≡ (listed is i || listed js i)
unfolding listed
listed-append [] js i = refl
listed-append (j ∷ is) js i = rw (listed-append is js i) (ground arith)

pub identities-append : (ks ls : List Key) → identities (ks ++ ls) ≡ identities ks ++ identities ls
unfolding identities
identities-append [] ls = refl
identities-append (k ∷ ks) ls = rw (identities-append ks ls)

pub hook_ids-append : (ks ls : List Key) → hook_ids (ks ++ ls) ≡ hook_ids ks ++ hook_ids ls
unfolding hook_ids
hook_ids-append [] ls = refl
hook_ids-append (k ∷ ks) ls = elim (Bool-cases (is_hook_name k.1)) [
  | inl hook ↦ rw (hook, hook_ids-append ks ls)
  | inr other ↦ rw (other, hook_ids-append ks ls)
]

-- Two numbers are compared in either order.
pub ==_comm : (i j : ℕ) → (i == j) ≡ (j == i)
==_comm i j = elim (Bool-cases (i == j)) [
  | inl same ↦ let e = (==_iff i j).0 same in rw e
  | inr other ↦ elim (Bool-cases (j == i)) [
    | inl same ↦ let e = (==_iff j i).0 same in rw e
    | inr also ↦ rw (other, also)
  ]
]

-- A call with an identity is in the code when its identity is in the list.
any_inst-listed :
    (insts : List Instruction) (i : ℕ)
    → any_inst (has_identity i) insts ≡ listed (identities (inst_keys insts)) i
unfolding any_inst listed identities inst_keys
any_inst-listed [] i = refl
any_inst-listed (plain k ∷ insts) i = any_inst-listed insts i
any_inst-listed (call c ∷ insts) i = rw (any_inst-listed insts i, ==_comm c.identity i)

any_block-listed :
    (blocks : List BasicBlock) (i : ℕ)
    → any_block (has_identity i) blocks ≡ listed (identities (block_keys blocks)) i
unfolding any_block block_keys
any_block-listed [] i = unfold listed identities in refl
any_block-listed (b ∷ blocks) i =
    rw
      (
        any_inst-listed b.insts i,
        any_block-listed blocks i,
        identities-append (inst_keys b.insts) (block_keys blocks),
      )
      (sym (listed-append (identities (inst_keys b.insts)) (identities (block_keys blocks)) i))

pub any_call-listed :
    (m : List Function) (i : ℕ) → any_call (has_identity i) m ≡ listed (identities (keys m)) i
unfolding any_call keys
any_call-listed [] i = unfold listed identities in refl
any_call-listed (f ∷ m) i =
    rw
      (
        any_block-listed f.blocks i,
        any_call-listed m i,
        identities-append (block_keys f.blocks) (keys m),
      )
      (sym (listed-append (identities (block_keys f.blocks)) (identities (keys m)) i))

-- Two tests that agree on the calls of the code erase the same.
module _ (p q : CallBase → Bool) (P : Key → Type 0)
    (same : (c : CallBase) → P (c.identity, c.called) → p c ≡ q c) where
  erase_insts-same :
      (insts : List Instruction)
      → AllKeys P (inst_keys insts)
      → erase_insts p insts ≡ erase_insts q insts
  unfolding erase_insts inst_keys
  erase_insts-same [] a = refl
  erase_insts-same (plain k ∷ insts) a = rw (erase_insts-same insts a)
  erase_insts-same (call c ∷ insts) (x, a) = rw (same c x, erase_insts-same insts a)

  erase_blocks-same :
      (blocks : List BasicBlock)
      → AllKeys P (block_keys blocks)
      → erase_blocks p blocks ≡ erase_blocks q blocks
  unfolding erase_blocks block_keys
  erase_blocks-same [] a = refl
  erase_blocks-same (b ∷ blocks) a =
      let (first, rest) = AllKeys-first P (inst_keys b.insts) (block_keys blocks) a in
      rw (erase_insts-same b.insts first, erase_blocks-same blocks rest)

  pub erase_calls-same :
      (m : List Function) → AllKeys P (keys m) → erase_calls p m ≡ erase_calls q m
  unfolding erase_calls keys
  erase_calls-same [] a = refl
  erase_calls-same (f ∷ m) a =
      let (first, rest) = AllKeys-first P (block_keys f.blocks) (keys m) a in
      rw (erase_blocks-same f.blocks first, erase_calls-same m rest)
