-- ===== src/Pre/Hooks/Placed.antt =====
-- The pass over a function: it returns, and keeps the blocks sound.
use ia2_provsan.Base.{
  ℕ, true, List, [], ◌∷◌, map, ◌≡◌, refl, ◌∙◌, arith, Bool-cases, inl, inr, ◌==◌, ==_iff,
}
use ia2_provsan.Base.Outcome.{ok}
use ia2_provsan.Post.Ir.{CallBase, Instruction, call, BasicBlock, Function}
use ia2_provsan.Pre.Hooks.{
  Targets, Counters, HookName, Graph, with_insts, insert_front, place_hook, place_hooks,
  enough_rounds, hook_block, hook_blocks, hook_function,
}
use ia2_provsan.Pre.Hooks.Behind.{IsHook, IsQuiet}
use ia2_provsan.Pre.Hooks.Loop.{hook_insts-Behind}
use ia2_provsan.Pre.Hooks.Sound.{
  has_label, IsGood, IsSound, find_block-IsGood, has_label-put_insts, IsSound-put_insts,
  IsGood-hook,
}
use ia2_provsan.Pre.Hooks.Kept.{AllPending, Behind-IsGood, Behind-AllPending}

-- Every block of one function is a block of the other, and the name and the kind are the same.
pub record Includes (f f' : Function) : Type 0 where
  pub labels : (label : ℕ) → has_label f.blocks label ≡ true → has_label f'.blocks label ≡ true
  pub named : f'.name ≡ f.name
  pub declared : f'.is_declaration ≡ f.is_declaration

Includes-refl : (f : Function) → Includes f f
Includes-refl f = record { labels = λ label h. h; named = refl; declared = refl }

Includes-trans : (f f' f'' : Function) → Includes f f' → Includes f' f'' → Includes f f''
Includes-trans f f' f'' a b = record {
  labels = λ label h. b.labels label (a.labels label h);
  named = b.named ∙ a.named;
  declared = b.declared ∙ a.declared;
}

-- What LLVM says of `SplitEdge`: the blocks stay, there is a new one, calls stay as they are, and so
-- does the function's name.
pub record IsLawful (g : Graph) (t : Targets) : Type 0 where
  pub split_sound :
      (f : Function) (parent dest : ℕ) → IsSound t f → IsSound t (g.split_edge f parent dest).1
  pub split_includes : (f : Function) (parent dest : ℕ) → Includes f (g.split_edge f parent dest).1
  pub split_new :
      (f : Function) (parent dest : ℕ)
      → has_label (g.split_edge f parent dest).1.blocks (g.split_edge f parent dest).0 ≡ true

module _ (g : Graph) (t : Targets) (law : IsLawful g t) (q : IsQuiet t) where
  -- A sound function with the blocks of another.
  abbrev Extends : Function → Function → Type 0
  Extends f f' = IsSound t f' × Includes f f'

  Extends-trans : (f f' f'' : Function) → Includes f f' → Extends f' f'' → Extends f f''
  Extends-trans f f' f'' a (sound, b) = (sound, Includes-trans f f' f'' a b)

  Extends-put_insts :
      (f : Function) (label : ℕ) (insts : List Instruction)
      → IsSound t f
      → IsGood t (has_label f.blocks) insts
      → Extends f (with_insts f label insts)
  Extends-put_insts f label insts sound good = (
    IsSound-put_insts t f label insts sound good,
    record {
      labels = λ x h. has_label-put_insts t f.blocks label insts x ∙ h;
      named = refl;
      declared = refl;
    },
  )

  insert_front-Extends :
      (f : Function) (label : ℕ) (h : HookName) (c hook : CallBase)
      → IsSound t f
      → has_label f.blocks label ≡ true
      → IsHook h c hook
      → (f' : Function) × (insert_front f label hook ≡ ok f') × Extends f f'
  unfolding insert_front
  insert_front-Extends f label h c hook sound known is =
      let (b, found, good) = find_block-IsGood t (has_label f.blocks) f.blocks label sound known in
      (
        with_insts f label (call hook ∷ b.insts),
        rw (found, good.filled),
        Extends-put_insts f label (call hook ∷ b.insts) sound
            (IsGood-hook t (has_label f.blocks) h c hook b.insts q is good),
      )

  place_hook-Extends :
      (f : Function) (parent dest : ℕ) (h : HookName) (c hook : CallBase)
      → IsSound t f
      → has_label f.blocks dest ≡ true
      → IsHook h c hook
      → (f' : Function) × (place_hook g f parent dest hook ≡ ok f') × Extends f f'
  unfolding place_hook
  place_hook-Extends f parent dest h c hook sound known is =
      elim (Bool-cases (g.single_predecessor f dest)) [
        | inl single ↦
            let (f', e, x) = insert_front-Extends f dest h c hook sound known is in
            (f', rw (single, e), x)
        | inr several ↦
            let s = (g.split_edge f parent dest).1 in
            let (f', e, x) =
              insert_front-Extends s (g.split_edge f parent dest).0 h c hook
                (law.split_sound f parent dest sound) (law.split_new f parent dest) is in
            (f', rw (several, e), Extends-trans f s f' (law.split_includes f parent dest) x)
      ]

  AllPending-Includes :
      (f f' : Function) (pending : List (ℕ × CallBase))
      → Includes f f'
      → AllPending t (has_label f.blocks) pending
      → AllPending t (has_label f'.blocks) pending
  AllPending-Includes f f' [] i a = tt
  AllPending-Includes f f' ((dest, hook) ∷ pending) i ((known, h, c, is), a) =
      ((i.labels dest known, h, c, is), AllPending-Includes f f' pending i a)

  place_hooks-Extends :
      (f : Function) (parent : ℕ) (pending : List (ℕ × CallBase))
      → IsSound t f
      → AllPending t (has_label f.blocks) pending
      → (f' : Function) × (place_hooks g f parent pending ≡ ok f') × Extends f f'
  unfolding place_hooks
  place_hooks-Extends f parent [] sound a = (f, refl, (sound, Includes-refl f))
  place_hooks-Extends f parent ((dest, hook) ∷ pending) sound ((known, h, c, is), a) =
      let (f₁, e, x) = place_hook-Extends f parent dest h c hook sound known is in
      let (f', e', x') =
        place_hooks-Extends f₁ parent pending x.0 (AllPending-Includes f f₁ pending x.1 a) in
      (f', rw (e, e'), Extends-trans f f₁ f' x.1 x')

  hook_block-Extends :
      (f : Function) (label : ℕ) (k : Counters)
      → IsSound t f
      → has_label f.blocks label ≡ true
      → (f' : Function) × (k' : Counters) × (hook_block g t f label k ≡ ok (f', k')) × Extends f f'
  unfolding hook_block
  hook_block-Extends f label k sound known =
      let (b, found, good) = find_block-IsGood t (has_label f.blocks) f.blocks label sound known in
      let ((out, pending, k₁), walked, behind) =
        hook_insts-Behind t (enough_rounds b.insts) b.insts k q good.ready (omega arith) in
      let (sound₁, i) =
        Extends-put_insts f label out sound (Behind-IsGood t (has_label f.blocks) q behind good) in
      let f₁ = with_insts f label out in
      let (f', placed, x) = place_hooks-Extends f₁ label pending sound₁ (
        AllPending-Includes f f₁ pending i
          (Behind-AllPending t (has_label f.blocks) behind good.dests)) in
      (f', k₁, rw (found, walked, placed), Extends-trans f f₁ f' i x)

  abbrev AllKnown : Function → List ℕ → Type 0
  AllKnown f [] = Unit {0}
  AllKnown f (label ∷ labels) = (has_label f.blocks label ≡ true) × AllKnown f labels

  AllKnown-Includes :
      (f f' : Function) (labels : List ℕ) → Includes f f' → AllKnown f labels → AllKnown f' labels
  AllKnown-Includes f f' [] i a = tt
  AllKnown-Includes f f' (label ∷ labels) i (known, a) =
      (i.labels label known, AllKnown-Includes f f' labels i a)

  hook_blocks-Extends :
      (labels : List ℕ) (f : Function) (k : Counters)
      → IsSound t f
      → AllKnown f labels
      → (f' : Function) × (k' : Counters) × (hook_blocks g t labels f k ≡ ok (f', k'))
        × Extends f f'
  unfolding hook_blocks
  hook_blocks-Extends [] f k sound a = (f, k, refl, (sound, Includes-refl f))
  hook_blocks-Extends (label ∷ labels) f k sound (known, a) =
      let (f₁, k₁, e, x) = hook_block-Extends f label k sound known in
      let (f', k', e', x') =
        hook_blocks-Extends labels f₁ k₁ x.0 (AllKnown-Includes f f₁ labels x.1 a) in
      (f', k', rw (e, e'), Extends-trans f f₁ f' x.1 x')

  -- Blocks in front of others do not hide labels.
  labels_known :
      (f : Function) (blocks : List BasicBlock)
      → ((x : ℕ) → has_label blocks x ≡ true → has_label f.blocks x ≡ true)
      → AllKnown f (map (λ b. b.label) blocks)
  unfolding has_label
  labels_known f [] i = tt
  labels_known f (b ∷ blocks) i =
      let own : (b.label == b.label) ≡ true = (==_iff b.label b.label).1 refl in
      (i b.label (rw own), labels_known f blocks (λ x h. i x (ground (arith, h))))

  -- For a function whose blocks are not empty, whose calls have the operands that their hooks copy,
  -- whose hooked CallInsts do not end a block, and whose invokes lead to blocks of the function, the
  -- pass returns, and the blocks are as before in these respects, with every old block among them.
  pub hook_function-IsSound :
      (f : Function) (k : Counters)
      → IsSound t f
      → (f' : Function) × (k' : Counters) × (hook_function g t f k ≡ ok (f', k'))
        × IsSound t f'
        × Includes f f'
  unfolding hook_function
  hook_function-IsSound f k sound = elim (Bool-cases f.is_declaration) [
    | inl declared ↦ (f, k, simp declared, sound, Includes-refl f)
    | inr defined ↦
        let (f', k', e, x) =
          hook_blocks-Extends (map (λ b. b.label) f.blocks) f k sound
            (labels_known f f.blocks (λ x h. h)) in
        (f', k', simp (defined, e), x.0, x.1)
  ]
