-- ===== src/Fault.antt =====
-- Runtime/provsan_fault_handler.cpp: the SIGSEGV and SIGTRAP handlers. A signal frame is the
-- interrupted thread's saved PKRU register and flags, which the handlers rewrite. The build never
-- defines PAGE_MPK, so violations are single-stepped; the page variant stands in `disable_page_mpk`.
-- The message on stderr for an address without a site is output only.
pub mod Step
pub mod Kept
pub mod Counted
pub mod History
pub mod Marks
pub mod Session
pub mod Page
pub mod Forward
pub mod TwoKeys
use ia2_provsan.Base.{
  ℕ, zero, suc, ◌-◌, ◌^◌, bit_and, bit_or, Bool, true, false, Option, none, some,
}
use ia2_provsan.Base.Int.{ℤ, to_i32, to_u32}
use ia2_provsan.Base.Outcome.{Outcome, ok, ◌>>=◌}
use ia2_provsan.Pkru.{pkey_get, pkey_set, pkey_enable_access}
use ia2_provsan.Signals.{
  Signals, SigAction, Entry, sig_dfl, sig_ign, pku_segv_handler, pku_trap_handler, foreign,
}
use ia2_provsan.Handler.{
  PendingPKeyInfo, add_fault_alloc, get_alloc_site, store_pending_pkey_info, get_and_remove,
}
use ia2_provsan.Hooks.{Runtime, get_or_init, with_handler}

abbrev pub page_size : ℕ
page_size = 4096

abbrev pub trap_flag : ℕ
trap_flag = 0x100

pub record Frame : Type 0 where
  pub pkru : ℕ
  pub eflags : ℕ

-- `uintptr_t & ~(PAGE_SIZE - 1)`
unfoldable pub page_addr : ℕ → ℕ
page_addr addr = bit_and addr (2 ^ 64 - page_size)

-- `disablePageMPK`: the arguments of its `pkey_mprotect`, with PROT_READ | PROT_WRITE.
unfoldable pub disable_page_mpk : ℕ → ℕ × ℕ × ℕ × ℕ
disable_page_mpk si_addr = (page_addr si_addr, page_size, 3, 0)

-- `disableThreadMPK`
unfoldable pub disable_thread_mpk : Runtime → ℤ → ℕ → Frame → Runtime × Frame
disable_thread_mpk rt tid pkey frame =
    let (h, rt') = get_or_init rt in
    let rights = to_u32 (pkey_get frame.pkru (to_i32 pkey)) in
    let info : PendingPKeyInfo = record { pkey = pkey; access_rights = rights } in
    (
      with_handler rt' (store_pending_pkey_info h tid info),
      record frame { pkru = (pkey_set frame.pkru (to_i32 pkey) pkey_enable_access).1 },
    )

-- `disable_mpk` by single steps: the trap flag stops after one instruction.
unfoldable pub disable_mpk : Runtime → ℤ → ℕ → Frame → Runtime × Frame
unfolding disable_thread_mpk
disable_mpk rt tid pkey frame =
    let (rt', opened) = disable_thread_mpk rt tid pkey frame in
    (rt', record opened { eflags = bit_or opened.eflags trap_flag })

-- `pku_segv_handler` for a SEGV_PKUERR at `addr` in thread `tid`.
unfoldable pub handle_pkuerr : Runtime → ℤ → ℕ → ℕ → Frame → Outcome (Runtime × Frame)
handle_pkuerr rt tid addr pkey frame = do
  let (h, rt') = get_or_init rt
  (h', st) ← add_fault_alloc h rt'.stats addr pkey
  fault_site ← get_alloc_site h' addr
  ok (disable_mpk (record rt' { handle = some h'; stats = st }) tid pkey frame)

-- `enableThreadMPK`
abbrev enable_thread_mpk : Frame → PendingPKeyInfo → Frame
enable_thread_mpk frame info = record frame {
  pkru = (pkey_set frame.pkru (to_i32 info.pkey) info.access_rights).1;
}

abbrev restore : Option PendingPKeyInfo → Frame → Frame
restore none frame = frame
restore (some info) frame = enable_thread_mpk frame info

-- `pku_trap_handler`, in a process `pid`: the pending key is looked up under `getpid()`.
unfoldable pub pku_trap : Runtime → ℤ → Frame → Runtime × Frame
pku_trap rt pid frame =
    let (h, rt') = get_or_init rt in
    let (pid_key_info, h') = get_and_remove h pid in
    let restored = restore pid_key_info frame in
    (
      with_handler rt' h',
      record restored { eflags = bit_and restored.eflags (2 ^ 64 - 1 - trap_flag) },
    )

-- What becomes of a SIGSEGV that is no SEGV_PKUERR.
pub data Fate : Type 0 where
  -- `signal(sig, SIG_DFL); raise(sig);`
  default_raised : Fate
  -- `sigaction(sig, prevAction, nullptr);`: the instruction faults again under that action.
  reinstalled : Fate
  -- A foreign handler is called, with the signal's information or without.
  called : ℕ → Bool → Fate
  -- Another handler of the runtime, or an address that is no handler, is called.
  misdirected : Fate
  -- The given number of nested calls is used up.
  nested : Fate

-- By the old action's entry, under SA_SIGINFO and without; `self` is a nested call of the handler.
abbrev call_siginfo : Entry → Fate × Signals → Signals → Fate × Signals
call_siginfo (foreign k) self s = (called k true, s)
call_siginfo pku_segv_handler self s = self
call_siginfo _ self s = (misdirected, s)

abbrev call_plain : Entry → SigAction → Signals → Fate × Signals
call_plain (foreign k) action s = (called k false, s)
call_plain sig_dfl action s = (reinstalled, record s { on_segv = action })
call_plain sig_ign action s = (reinstalled, record s { on_segv = action })
call_plain _ action s = (misdirected, s)

abbrev dispatch : Bool → SigAction → Fate × Signals → Signals → Fate × Signals
dispatch true action self s = call_siginfo action.entry self s
dispatch false action self s = call_plain action.entry action s

abbrev dispatch_prev : Option SigAction → Fate × Signals → Signals → Fate × Signals
dispatch_prev none self s =
    (default_raised, record s { on_segv = record { siginfo = false; entry = sig_dfl } })
dispatch_prev (some action) self s = dispatch action.siginfo action self s

-- `pku_segv_handler` for any other code. It calls itself where `prevAction` holds it, so the
-- depth of calls is bounded by fuel.
unfoldable pub forward_segv : ℕ → Signals → Fate × Signals
forward_segv zero s = (nested, s)
forward_segv (suc depth) s = dispatch_prev s.prev_action (forward_segv depth s) s
