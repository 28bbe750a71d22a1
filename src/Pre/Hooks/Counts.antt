-- ===== src/Pre/Hooks/Counts.antt =====
-- The counters of the pass: the hooks of the three kinds are all the hooks.
use ia2_provsan.Base.{
  ℕ, ◌+◌, ◌*◌, ◌%◌, ◌^◌, ◌<◌, Option, none, some, List, [], ◌∷◌, ◌≡◌, ◌≢◌, arith,
}
use ia2_provsan.Base.Lists.{length}
use ia2_provsan.Base.Outcome.{ok}
use ia2_provsan.Post.Ir.{
  CallKind, call_inst, invoke_inst, call_br_inst, CallBase, Instruction, call, plain,
}
use ia2_provsan.Pre.Hooks.{
  Targets, Counters, HookName, hook_alloc, hook_realloc, hook_dealloc, hook_of, hook_insts, Walk,
  count_hook,
}
use ia2_provsan.Pre.Hooks.Behind.{
  IsQuiet, IsReady, Behind, nothing, kept_plain, kept_call, dropped, followed, at_destination,
  counted_as,
}
use ia2_provsan.Pre.Hooks.Loop.{hook_insts-Behind}

-- The total is the sum of the three, as far as 64 bits go.
abbrev pub Adds : Counters → Type 0
Adds k =
    k.hook_count ≡ (k.alloc_hook_counter + k.realloc_hook_counter + k.dealloc_hook_counter) % 2 ^ 64

Adds-count_hook : (h : HookName) (k : Counters) → Adds k → Adds (count_hook (counted_as h k))
Adds-count_hook hook_alloc k a = omega arith
Adds-count_hook hook_realloc k a = omega arith
Adds-count_hook hook_dealloc k a = omega arith

-- No CallBrInst calls an allocation function.
abbrev IsPlaced : Option HookName → CallKind → Type 0
IsPlaced (some h) call_br_inst = ⊥
IsPlaced _ kind = Unit {0}

abbrev pub AllPlaced : Targets → List Instruction → Type 0
AllPlaced t [] = Unit {0}
AllPlaced t (plain i ∷ insts) = AllPlaced t insts
AllPlaced t (call c ∷ insts) = IsPlaced (hook_of t c.called) c.kind × AllPlaced t insts

not_dropped :
    (o : Option HookName) (kind : CallKind) (h : HookName)
    → IsPlaced o kind
    → o ≡ some h
    → kind ≢ call_br_inst
not_dropped none kind h placed e f = cc
not_dropped (some h') call_inst h placed e f = cc
not_dropped (some h') (invoke_inst dest) h placed e f = cc
not_dropped (some h') call_br_inst h placed e f = placed

Behind-Adds :
    (t : Targets) {insts out : List Instruction} {pending : List (ℕ × CallBase)} {k k' : Counters}
    → Behind t insts k out pending k'
    → AllPlaced t insts
    → Adds k
    → Adds k'
Behind-Adds t (nothing k) p a = a
Behind-Adds t (kept_plain i b) p a = Behind-Adds t b p a
Behind-Adds t (kept_call c e b) (placed, p) a = Behind-Adds t b p a
Behind-Adds t (dropped c h e kind b) (placed, p) a =
    absurd (not_dropped (hook_of t c.called) c.kind h placed e kind)
Behind-Adds t {k} (followed c hook h e kind is b) (placed, p) a =
    Behind-Adds t b p (Adds-count_hook h k a)
Behind-Adds t {k} (at_destination c hook h dest e kind is b) (placed, p) a =
    Behind-Adds t b p (Adds-count_hook h k a)

-- Over a block in which no CallBrInst calls an allocation function, where the loop returns for the
-- reasons of `hook_insts-Behind`, the count of all hooks stays the sum of the counts of the three
-- kinds, modulo 2 ^ 64.
pub hook_insts-Adds :
    (t : Targets) (rounds : ℕ) (insts : List Instruction) (k : Counters)
    → IsQuiet t
    → IsReady t insts
    → AllPlaced t insts
    → 2 * length insts < rounds
    → Adds k
    → (w : Walk) × (hook_insts t rounds insts k ≡ ok w) × Adds w.2
hook_insts-Adds t rounds insts k q r p enough a =
    let (w, returns, b) = hook_insts-Behind t rounds insts k q r enough in
    (w, returns, Behind-Adds t b p a)
