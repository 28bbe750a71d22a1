-- ===== src/Pre/Hooks/Kept.antt =====
-- The loop over a block keeps it good, and the hooks that it leaves have known destinations.
use ia2_provsan.Base.{ℕ, Bool, true, Option, none, some, List, [], ◌∷◌, ◌≡◌, refl, sym, ◌∙◌, subst}
use ia2_provsan.Post.Ir.{CallKind, call_inst, invoke_inst, call_br_inst, CallBase, Instruction}
use ia2_provsan.Post.Number.Ids.{HaveSpace}
use ia2_provsan.Pre.Hooks.{Targets, Counters, HookName, hook_of, has_next}
use ia2_provsan.Pre.Hooks.Behind.{
  IsHook, IsQuiet, IsReady, NotLast, Behind, nothing, kept_plain, kept_call, dropped, followed,
  at_destination,
}
use ia2_provsan.Pre.Hooks.Sound.{DestKnown, AllDests, IsGood, hook_position, hook_ready, hook_dest}

module _ (t : Targets) where
  module _ (known : ℕ → Bool) (q : IsQuiet t) where
    Behind-filled :
        {insts out : List Instruction} {pending : List (ℕ × CallBase)} {k k' : Counters}
        → Behind t insts k out pending k'
        → has_next insts ≡ has_next out
    Behind-filled (nothing k) = refl
    Behind-filled (kept_plain i b) = refl
    Behind-filled (kept_call c e b) = refl
    Behind-filled (dropped c h e kind b) = refl
    Behind-filled (followed c hook h e kind is b) = refl
    Behind-filled (at_destination c hook h dest e kind is b) = refl

    NotLast-same :
        (o : Option HookName) (kind : CallKind) (insts out : List Instruction)
        → has_next insts ≡ has_next out
        → NotLast t o kind insts
        → NotLast t o kind out
    NotLast-same (some h) call_inst insts out e n = sym e ∙ n
    NotLast-same (some h) (invoke_inst dest) insts out e n = tt
    NotLast-same (some h) call_br_inst insts out e n = tt
    NotLast-same none kind insts out e n = tt

    NotLast-next :
        (o : Option HookName) (kind : CallKind) (i : Instruction) (out : List Instruction)
        → NotLast t o kind (i ∷ out)
    NotLast-next (some h) call_inst i out = refl
    NotLast-next (some h) (invoke_inst dest) i out = tt
    NotLast-next (some h) call_br_inst i out = tt
    NotLast-next none kind i out = tt

    Behind-ready :
        {insts out : List Instruction} {pending : List (ℕ × CallBase)} {k k' : Counters}
        → Behind t insts k out pending k'
        → IsReady t insts
        → IsReady t out
    Behind-ready (nothing k) r = tt
    Behind-ready (kept_plain i b) r = Behind-ready b r
    Behind-ready (kept_call c e b) (can, next, r) =
        (can, NotLast-same (hook_of t c.called) c.kind _ _ (Behind-filled b) next, Behind-ready b r)
    Behind-ready (dropped c h e kind b) (can, next, r) =
        (can, NotLast-same (hook_of t c.called) c.kind _ _ (Behind-filled b) next, Behind-ready b r)
    Behind-ready (followed c hook h e kind is b) (can, next, r) = (
      can,
      NotLast-next (hook_of t c.called) c.kind _ _,
      hook_ready t h c hook _ q is (Behind-ready b r),
    )
    Behind-ready (at_destination c hook h dest e kind is b) (can, next, r) =
        (can, NotLast-same (hook_of t c.called) c.kind _ _ (Behind-filled b) next, Behind-ready b r)

    Behind-room :
        {insts out : List Instruction} {pending : List (ℕ × CallBase)} {k k' : Counters}
        → Behind t insts k out pending k'
        → HaveSpace insts
        → HaveSpace out
    Behind-room (nothing k) r = tt
    Behind-room (kept_plain i b) r = Behind-room b r
    Behind-room (kept_call c e b) (room, r) = (room, Behind-room b r)
    Behind-room (dropped c h e kind b) (room, r) = (room, Behind-room b r)
    Behind-room (followed c hook h e kind is b) (room, r) =
        (room, (hook_position t h c hook is, Behind-room b r))
    Behind-room (at_destination c hook h dest e kind is b) (room, r) = (room, Behind-room b r)

    Behind-dests :
        {insts out : List Instruction} {pending : List (ℕ × CallBase)} {k k' : Counters}
        → Behind t insts k out pending k'
        → AllDests known insts
        → AllDests known out
    Behind-dests (nothing k) r = tt
    Behind-dests (kept_plain i b) r = Behind-dests b r
    Behind-dests (kept_call c e b) (dest, r) = (dest, Behind-dests b r)
    Behind-dests (dropped c h e kind b) (dest, r) = (dest, Behind-dests b r)
    Behind-dests (followed c hook h e kind is b) (dest, r) =
        (dest, (hook_dest t known h c hook is, Behind-dests b r))
    Behind-dests (at_destination c hook h dest e kind is b) (at_dest, r) =
        (at_dest, Behind-dests b r)

    pub Behind-IsGood :
        {insts out : List Instruction} {pending : List (ℕ × CallBase)} {k k' : Counters}
        → Behind t insts k out pending k'
        → IsGood t known insts
        → IsGood t known out
    Behind-IsGood b good = record {
      ready = Behind-ready b good.ready;
      filled = sym (Behind-filled b) ∙ good.filled;
      room = Behind-room b good.room;
      dests = Behind-dests b good.dests;
    }

  -- The hooks of invokes, with destinations that are blocks of the function.
  abbrev pub AllPending : (ℕ → Bool) → List (ℕ × CallBase) → Type 0
  AllPending known [] = Unit {0}
  AllPending known ((dest, hook) ∷ pending) =
      ((known dest ≡ true) × (h : HookName) × (c : CallBase) × IsHook h c hook)
      × AllPending known pending

  pub Behind-AllPending :
      (known : ℕ → Bool) {insts out : List Instruction} {pending : List (ℕ × CallBase)}
      {k k' : Counters}
      → Behind t insts k out pending k'
      → AllDests known insts
      → AllPending known pending
  Behind-AllPending known (nothing k) d = tt
  Behind-AllPending known (kept_plain i b) d = Behind-AllPending known b d
  Behind-AllPending known (kept_call c e b) (dest, d) = Behind-AllPending known b d
  Behind-AllPending known (dropped c h e kind b) (dest, d) = Behind-AllPending known b d
  Behind-AllPending known (followed c hook h e kind is b) (dest, d) = Behind-AllPending known b d
  Behind-AllPending known (at_destination c hook h dest e kind is b) (at_dest, d) =
      ((subst (DestKnown known) kind at_dest, h, c, is), Behind-AllPending known b d)
