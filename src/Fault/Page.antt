-- ===== src/Fault/Page.antt =====
-- `disablePageMPK` and the trap flag: masks over the address and over the flags.
use ia2_provsan.Base.{ℕ, ◌+◌, ◌*◌, ◌/◌, ◌%◌, ◌^◌, ◌≤◌, ◌<◌, ◌≡◌, arith, bit_or}
use ia2_provsan.Base.Words.{bit_and_high, bit_or_flag, bit_and_flag}
use ia2_provsan.Fault.{
  Frame, page_addr, disable_page_mpk, trap_flag, page_size, disable_mpk, pku_trap, restore,
}
use ia2_provsan.Base.{Option, none, some, refl}
use ia2_provsan.Base.Int.{ℤ}
use ia2_provsan.Handler.{PendingPKeyInfo}
use ia2_provsan.Hooks.{Runtime}

-- For a 64-bit address, `disablePageMPK` names the start of a page, at most the address, and
-- the page's size reaches beyond the address.
pub page_addr_bounds :
    (addr : ℕ)
    → addr < 2 ^ 64
    → let (page, len, prot, key) = disable_page_mpk addr in
      (page % page_size ≡ 0) × (page ≤ addr) × (addr < page + len)
unfolding disable_page_mpk page_addr
page_addr_bounds addr h = omega (arith, bit_and_high addr h)

restore-eflags : (o : Option PendingPKeyInfo) (f : Frame) → (restore o f).eflags ≡ f.eflags
restore-eflags none f = refl
restore-eflags (some info) f = refl

-- For a 64-bit flags word whose trap flag is clear, `disable_mpk` resumes the thread with the flag
-- set, and the trap handler, in whatever state it runs and whatever is pending, then gives back
-- the flags of before.
pub trap_flag_restored :
    (rt rt' : Runtime) (tid pid : ℤ) (pkey : ℕ) (frame : Frame)
    → frame.eflags < 2 ^ 64
    → frame.eflags / trap_flag % 2 ≡ 0
    → let resumed = (disable_mpk rt tid pkey frame).1 in
      (resumed.eflags / trap_flag % 2 ≡ 1) × ((pku_trap rt' pid resumed).1.eflags ≡ frame.eflags)
unfolding disable_mpk pku_trap
trap_flag_restored rt rt' tid pid pkey frame h clear =
    let set : bit_or frame.eflags trap_flag ≡ frame.eflags / 512 * 512 + 256 + frame.eflags % 256 =
      bit_or_flag frame.eflags in
    (
      omega (arith, set),
      rw (restore-eflags _ (disable_mpk rt tid pkey frame).1)
          (omega (arith, set, bit_and_flag (bit_or frame.eflags trap_flag) (omega arith))),
    )
