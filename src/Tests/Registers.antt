-- ===== src/Tests/Registers.antt =====
-- The PKRU register, addresses and flags.
use ia2_provsan.Base.{ℕ, ◌+◌, ◌%◌, ◌≤◌, ◌<◌, ◌≡◌, refl, ◌⊎◌, String, true, false, none, arith}
use ia2_provsan.Base.Int.{ℤ, pos, negsuc}
use ia2_provsan.Pkru.{pkey_get, pkey_set, store_rights}
use ia2_provsan.Pkru.Rights.{IsAccess, pkey_get-pkey_set, pkey_set_cases}
use ia2_provsan.Site.{AllocSite, contains_ptr}
use ia2_provsan.Site.Range.{contains_ptr_wraps}
use ia2_provsan.Fault.{Frame, disable_page_mpk, page_size, disable_mpk, pku_trap}
use ia2_provsan.Fault.Page.{page_addr_bounds, trap_flag_restored}
use ia2_provsan.Signals.{Signals, SigAction, foreign, sig_dfl, install, no_stats}
use ia2_provsan.Fault.{forward_segv, called, nested}
use ia2_provsan.Fault.Forward.{forward_segv-install, forward_segv_loops, replaced}
use ia2_provsan.Hooks.{Runtime}

-- Every key but 0 closed, as Linux starts a thread.
abbrev pub initial_pkru : ℕ
initial_pkru = 0x55555554

access : IsAccess 1 0
access = record { key_small = omega arith; rights_small = omega arith }

open_key_one : pkey_set initial_pkru (pos 1) 0 ≡ (pos 0, 0x55555550)
unfolding pkey_set store_rights
open_key_one = refl

read_key_two : pkey_get initial_pkru (pos 2) ≡ pos 1
unfolding pkey_get
read_key_two = refl

refused_key : pkey_set initial_pkru (pos 16) 0 ≡ (negsuc 0, initial_pkru)
unfolding pkey_set
refused_key = refl

pkey_get-pkey_set_example : pkey_get (pkey_set initial_pkru (pos 1) 0).1 (pos 1) ≡ pos 0
pkey_get-pkey_set_example = (pkey_get-pkey_set initial_pkru 1 0 (omega arith) access).2

pkey_set_cases_example :
    ((k : ℕ) × (pos 16 ≡ pos k) × IsAccess k 0 × ((pkey_set initial_pkru (pos 16) 0).0 ≡ pos 0))
    ⊎ (((k : ℕ) → pos 16 ≡ pos k → ¬ IsAccess k 0)
        × (pkey_set initial_pkru (pos 16) 0 ≡ (negsuc 0, initial_pkru)))
pkey_set_cases_example = pkey_set_cases initial_pkru (pos 16) 0

-- Eight bytes from the last address on.
abbrev last_site : AllocSite
last_site = record {
  ptr = 0xffffffffffffffff;
  size = pos 8;
  local_id = pos 0;
  bb_name = "block1";
  func_name = "main";
  pkey = 0;
  is_realloc = false;
}

abbrev text_hash : String → ℕ
text_hash s = 12

abbrev int_hash : ℤ → ℕ
int_hash n = 34

contains_ptr_wraps_example : contains_ptr last_site 0xffffffffffffffff ≡ false
contains_ptr_wraps_example =
    contains_ptr_wraps last_site 8 0xffffffffffffffff refl (omega arith) (omega arith) (omega arith)

page_addr_bounds_example :
    let (page, len, prot, key) = disable_page_mpk 0x7f0000001234 in
    (page % page_size ≡ 0) × (page ≤ 0x7f0000001234) × (0x7f0000001234 < page + len)
page_addr_bounds_example = page_addr_bounds 0x7f0000001234 (omega arith)

abbrev pub foreign_action : SigAction
foreign_action = record { siginfo = true; entry = foreign 7 }

abbrev pub plain_signals : Signals
plain_signals = record {
  on_segv = foreign_action;
  on_trap = record { siginfo = false; entry = sig_dfl };
  prev_action = none;
  segv_action = none;
  sigt_action = none;
}

abbrev pub runtime : Runtime
runtime = record { handle = none; stats = no_stats; signals = plain_signals; alloc_site_total = 0 }

abbrev pub frame : Frame
frame = record { pkru = initial_pkru; eflags = 0x246 }

trap_flag_restored_example :
    (pku_trap runtime (pos 9) (disable_mpk runtime (pos 9) 1 frame).1).1.eflags ≡ 0x246
trap_flag_restored_example =
    (trap_flag_restored runtime runtime (pos 9) (pos 9) 1 frame (omega arith) (omega arith)).1

forward_segv-install_example :
    forward_segv 1 (install plain_signals) ≡ (called 7 true, install plain_signals)
forward_segv-install_example = forward_segv-install 0 plain_signals (λ e. cc e)

forward_segv_loops_example : (forward_segv 5 (replaced (install plain_signals) false)).0 ≡ nested
forward_segv_loops_example = forward_segv_loops 5 plain_signals false
