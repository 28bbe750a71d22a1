-- ===== src/Fault/TwoKeys.antt =====
-- One instruction that faults on two protection keys before it completes.
use ia2_provsan.Base.{ℕ, ◌^◌, ◌<◌, ◌≡◌, ◌≢◌, refl, sym, ◌∙◌, none, arith}
use ia2_provsan.Base.Int.{ℤ, pos, to_u32}
use ia2_provsan.Pkru.{pkey_get, pkey_set}
use ia2_provsan.Pkru.Slots.{slot, slot-lt}
use ia2_provsan.Pkru.Rights.{pkey_get-slot, pkey_get-pkey_set}
use ia2_provsan.Handler.{Handler, store_pending_pkey_info}
use ia2_provsan.Handler.Pending.{pending, get_and_remove-store_self, store_twice}
use ia2_provsan.Hooks.{Runtime, get_or_init, with_handler}
use ia2_provsan.Fault.{Frame, disable_mpk, pku_trap}
use ia2_provsan.Fault.Step.{opened, saved, untrapped, to_i32_key}

opens_key :
    (rt : Runtime) (h : Handler) (tid : ℤ) (pkey : ℕ) (frame : Frame)
    → pkey < 16
    → disable_mpk (with_handler rt h) tid pkey frame
      ≡ (with_handler rt (store_pending_pkey_info h tid (saved pkey frame)), opened pkey frame)
unfolding disable_mpk get_or_init
opens_key rt h tid pkey frame small = rw (to_i32_key pkey small)

closes_key :
    (rt : Runtime) (h : Handler) (tid : ℤ) (pkey : ℕ) (frame now : Frame)
    → pkey < 16
    → pending h tid ≡ none
    → pku_trap (with_handler rt (store_pending_pkey_info h tid (saved pkey frame))) tid now ≡ (
      with_handler rt h,
      record {
        pkru = (pkey_set now.pkru (pos pkey) (saved pkey frame).access_rights).1;
        eflags = untrapped now.eflags;
      },
    )
unfolding pku_trap get_or_init
closes_key rt h tid pkey frame now small absent =
    rw (get_and_remove-store_self h tid (saved pkey frame) absent, to_i32_key pkey small)

-- The register after both keys are opened and the first is restored.
restored_rights :
    (pkru first second : ℕ)
    → pkru < 2 ^ 32
    → first < 16
    → second < 16
    → second ≢ first
    → let both = (pkey_set (pkey_set pkru (pos first) 0).1 (pos second) 0).1 in
      let after = (pkey_set both (pos first) (to_u32 (pkey_get pkru (pos first)))).1 in
      (pkey_get after (pos second) ≡ pos 0)
      × (pkey_get after (pos first) ≡ pkey_get pkru (pos first))
restored_rights pkru first second word small other apart =
    let read : to_u32 (pkey_get pkru (pos first)) ≡ slot pkru first =
      rw (pkey_get-slot pkru first small) (omega (arith, slot-lt pkru first)) in
    let one =
      pkey_get-pkey_set pkru first 0 word
        (record { key_small = small; rights_small = omega arith }) in
    let p₁ = (pkey_set pkru (pos first) 0).1 in
    let two =
      pkey_get-pkey_set p₁ second 0 one.1
        (record { key_small = other; rights_small = omega arith }) in
    let p₂ = (pkey_set p₁ (pos second) 0).1 in
    let back =
      pkey_get-pkey_set p₂ first (slot pkru first) two.1
        (record { key_small = small; rights_small = slot-lt pkru first }) in
    rw read (back.3 second other apart ∙ two.2, back.2 ∙ sym (pkey_get-slot pkru first small))

-- If an instruction of the thread whose identifier is the process's, with no key pending and a
-- 32-bit register, faults on two different keys below 16 before it completes, then the trap after
-- it restores the rights of the first key only: the second stays open, and the handler is as
-- before, so no key is pending that would close it later.
pub second_key_stays_open :
    (rt : Runtime) (h : Handler) (tid : ℤ) (first second : ℕ) (frame : Frame)
    → first < 16
    → second < 16
    → second ≢ first
    → frame.pkru < 2 ^ 32
    → pending h tid ≡ none
    → let (rt₁, frame₁) = disable_mpk (with_handler rt h) tid first frame in
      let (rt₂, frame₂) = disable_mpk rt₁ tid second frame₁ in
      let (rt₃, frame₃) = pku_trap rt₂ tid frame₂ in
      (pkey_get frame₃.pkru (pos second) ≡ pos 0)
      × (pkey_get frame₃.pkru (pos first) ≡ pkey_get frame.pkru (pos first))
      × (rt₃ ≡ with_handler rt h)
second_key_stays_open rt h tid first second frame small other apart word absent =
    let h₁ = store_pending_pkey_info h tid (saved first frame) in
    let frame₁ = opened first frame in
    let rights = restored_rights frame.pkru first second word small other apart in
    rw
      (
        opens_key rt h tid first frame small,
        opens_key rt h₁ tid second frame₁ other,
        store_twice h tid (saved first frame) (saved second frame₁) absent,
        closes_key rt h tid first frame (opened second frame₁) small absent,
      )
      (rights.0, rights.1, refl)
