-- ===== src/Post/Run/Kept.antt =====
-- Patching: the hooks and the identities of the calls are as before.
use ia2_provsan.Base.{
  ℕ, String, Bool, true, false, Option, none, some, List, [], ◌∷◌, ◌≡◌, refl, sym, ◌∙◌, Bool-cases,
  Option-cases, inl, inr, if◌then◌else◌, str_eq, str_eq_iff, subst,
}
use ia2_provsan.Post.Ir.{CallBase, Instruction, call, plain, BasicBlock, Function}
use ia2_provsan.Post.Number.{hook_index}
use ia2_provsan.Post.Patch.{
  alloc_replacement, has_function, change_insts, change_blocks, change_calls, replaced,
}
use ia2_provsan.Post.Patch.Replaced.{listed, patch_listed}
use ia2_provsan.Post.Removal.{any_lost}
use ia2_provsan.Post.Removal.Keys.{
  inst_keys, block_keys, keys, is_hook, is_hook_name, identities, hook_ids, identities-append,
  hook_ids-append,
}

module _ (g : CallBase → CallBase) (same : (c : CallBase) → (g c).identity ≡ c.identity)
    (hook : (c : CallBase) → is_hook (g c) ≡ is_hook c) where
  inst_hooks :
      (insts : List Instruction)
      → (identities (inst_keys (change_insts g insts)) ≡ identities (inst_keys insts))
        × (hook_ids (inst_keys (change_insts g insts)) ≡ hook_ids (inst_keys insts))
  unfolding change_insts inst_keys identities hook_ids
  inst_hooks [] = (refl, refl)
  inst_hooks (plain k ∷ insts) = inst_hooks insts
  inst_hooks (call c ∷ insts) =
      let ih = inst_hooks insts in (rw (same c, ih.0), rw (same c, hook c, ih.1))

  block_hooks :
      (blocks : List BasicBlock)
      → (identities (block_keys (change_blocks g blocks)) ≡ identities (block_keys blocks))
        × (hook_ids (block_keys (change_blocks g blocks)) ≡ hook_ids (block_keys blocks))
  unfolding change_blocks block_keys
  block_hooks [] = (refl, refl)
  block_hooks (b ∷ blocks) =
      let first = inst_hooks b.insts in
      let ih = block_hooks blocks in
      let changed = inst_keys (change_insts g b.insts) in
      let rest = block_keys (change_blocks g blocks) in
      (
        rw (identities-append changed rest, first.0, ih.0)
            (sym (identities-append (inst_keys b.insts) (block_keys blocks))),
        rw (hook_ids-append changed rest, first.1, ih.1)
            (sym (hook_ids-append (inst_keys b.insts) (block_keys blocks))),
      )

  pub hooks-change_calls :
      (m : List Function)
      → (identities (keys (change_calls g m)) ≡ identities (keys m))
        × (hook_ids (keys (change_calls g m)) ≡ hook_ids (keys m))
        × (any_lost is_hook (change_calls g m) ≡ any_lost is_hook m)
  unfolding change_calls keys any_lost
  hooks-change_calls [] = (refl, refl, refl)
  hooks-change_calls (f ∷ m) =
      let first = block_hooks f.blocks in
      let ih = hooks-change_calls m in
      let changed = block_keys (change_blocks g f.blocks) in
      let rest = keys (change_calls g m) in
      (
        rw (identities-append changed rest, first.0, ih.0)
            (sym (identities-append (block_keys f.blocks) (keys m))),
        rw (hook_ids-append changed rest, first.1, ih.1)
            (sym (hook_ids-append (block_keys f.blocks) (keys m))),
        rw ih.2,
      )

-- Neither an allocator that has a replacement nor the replacement is a hook.
abbrev NoHooks : String → Option String → Type 0
NoHooks name none = Unit {0}
NoHooks name (some r) = (is_hook_name (some name) ≡ false) × (is_hook_name (some r) ≡ false)

allocator :
    (name literal : String)
    → is_hook_name (some literal) ≡ false
    → str_eq name literal ≡ true
    → is_hook_name (some name) ≡ false
allocator name literal other same = let e = (str_eq_iff name literal).0 same in rw e other

choice-NoHooks :
    (a b c : Bool) (name : String)
    → (a ≡ true → is_hook_name (some name) ≡ false)
    → (b ≡ true → is_hook_name (some name) ≡ false)
    → (c ≡ true → is_hook_name (some name) ≡ false)
    → NoHooks name (
        if a
        then some "__rust_untrusted_alloc"
        else if b
        then some "untrusted_malloc"
        else if c
        then some "__rust_untrusted_alloc_zeroed"
        else none)
unfolding hook_index str_eq
choice-NoHooks true b c name x y z = (x refl, refl)
choice-NoHooks false true c name x y z = (y refl, refl)
choice-NoHooks false false true name x y z = (z refl, refl)
choice-NoHooks false false false name x y z = tt

is_allocator :
    (is_hook_name (some "__rust_alloc") ≡ false)
    × (is_hook_name (some "trusted_malloc") ≡ false)
    × (is_hook_name (some "__rust_alloc_zeroed") ≡ false)
unfolding hook_index str_eq
is_allocator = (refl, refl, refl)

alloc_replacement-NoHooks : (name : String) → NoHooks name (alloc_replacement name)
unfolding alloc_replacement
alloc_replacement-NoHooks name =
    choice-NoHooks (str_eq name "__rust_alloc") (str_eq name "trusted_malloc")
      (str_eq name "__rust_alloc_zeroed") name (allocator name "__rust_alloc" is_allocator.0)
      (allocator name "trusted_malloc" is_allocator.1)
      (allocator name "__rust_alloc_zeroed" is_allocator.2)

is_hook_name-replaced :
    (m : List Function) (called : Option String)
    → is_hook_name (replaced m called) ≡ is_hook_name called
is_hook_name-replaced m none = refl
is_hook_name-replaced m (some name) = elim (Option-cases (alloc_replacement name)) [
  | inl absent ↦ rw absent
  | inr (r, present) ↦
      let (own, other) = subst (NoHooks name) present (alloc_replacement-NoHooks name) in
      elim (Bool-cases (has_function m r)) [
        | inl there ↦ rw (present, there) (other ∙ sym own)
        | inr missing ↦ rw (present, missing)
      ]
]

patch_listed_same :
    (m : List Function) (patches : List ℕ) (c : CallBase)
    → ((patch_listed m patches c).identity ≡ c.identity)
      × (is_hook (patch_listed m patches c) ≡ is_hook c)
patch_listed_same m patches c = elim (Bool-cases (listed patches c.identity)) [
  | inl reported ↦ (simp reported, simp (reported, is_hook_name-replaced m c.called))
  | inr other ↦ (simp other, simp other)
]

pub hooks-patch_listed :
    (p m : List Function) (patches : List ℕ)
    → (identities (keys (change_calls (patch_listed p patches) m)) ≡ identities (keys m))
      × (hook_ids (keys (change_calls (patch_listed p patches) m)) ≡ hook_ids (keys m))
      × (any_lost is_hook (change_calls (patch_listed p patches) m) ≡ any_lost is_hook m)
hooks-patch_listed p m patches =
    hooks-change_calls (patch_listed p patches) (λ c. (patch_listed_same p patches c).0)
      (λ c. (patch_listed_same p patches c).1) m
