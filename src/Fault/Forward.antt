-- ===== src/Fault/Forward.antt =====
-- A SIGSEGV that is not the runtime's own: the chain to the action that was installed before.
use ia2_provsan.Base.{ℕ, zero, suc, ◌≡◌, refl, ◌≢◌, Bool, true, false, some}
use ia2_provsan.Signals.{
  Signals, SigAction, Entry, sig_dfl, sig_ign, pku_segv_handler, pku_trap_handler, foreign, install,
  provsan_segv_fault_handler, segv_handler_action,
}
use ia2_provsan.Fault.{forward_segv, Fate, nested, reinstalled, called, misdirected}

-- The signals after the constructor, and after a later call of `provsan_SEGV_fault_handler`.
abbrev pub replaced : Signals → Bool → Signals
replaced s oldact = (provsan_segv_fault_handler s oldact).1

-- Over an old action that is no handler of the runtime, what the chain comes to.
abbrev pub forwarded : SigAction → Fate
forwarded action = fate action.siginfo action.entry
  where
    fate : Bool → Entry → Fate
    fate true (foreign k) = called k true
    fate true _ = misdirected
    fate false (foreign k) = called k false
    fate false sig_dfl = reinstalled
    fate false sig_ign = reinstalled
    fate false _ = misdirected

-- The signals after it: the old action is in force again if it was none with a handler.
abbrev pub left_by : SigAction → Signals → Signals
left_by action s = left action.siginfo action.entry
  where
    left : Bool → Entry → Signals
    left false sig_dfl = record s { on_segv = action }
    left false sig_ign = record s { on_segv = action }
    left _ _ = s

no_nesting :
    (depth : ℕ) (s : Signals) (siginfo : Bool) (entry : Entry)
    → s.prev_action ≡ some (record { siginfo = siginfo; entry = entry })
    → entry ≢ pku_segv_handler
    → forward_segv (suc depth) s ≡ (
      forwarded (record { siginfo = siginfo; entry = entry }),
      left_by (record { siginfo = siginfo; entry = entry }) s,
    )
unfolding forward_segv
no_nesting depth s true (foreign k) e ne = rw e
no_nesting depth s false (foreign k) e ne = rw e
no_nesting depth s true pku_segv_handler e ne = absurd (ne refl)
no_nesting depth s false pku_segv_handler e ne = absurd (ne refl)
no_nesting depth s true sig_dfl e ne = rw e
no_nesting depth s false sig_dfl e ne = rw e
no_nesting depth s true sig_ign e ne = rw e
no_nesting depth s false sig_ign e ne = rw e
no_nesting depth s true pku_trap_handler e ne = rw e
no_nesting depth s false pku_trap_handler e ne = rw e

-- After the constructor, a SIGSEGV that is no key violation is forwarded, with one call of the
-- handler and no nested one, by the action that the process had before, if that was not this
-- handler. A foreign handler is called, with the signal's information exactly if its flags ask for
-- it; SIG_DFL and SIG_IGN, without that flag, are put in force again, so that the instruction faults
-- under them; any other address, as SIG_DFL with that flag, is called as if it were a handler. Only
-- where the old action is put in force again does any signal's action change.
pub forward_segv-install :
    (depth : ℕ) (s : Signals)
    → s.on_segv.entry ≢ pku_segv_handler
    → forward_segv (suc depth) (install s) ≡ (forwarded s.on_segv, left_by s.on_segv (install s))
unfolding install
forward_segv-install depth s ne =
    no_nesting depth (install s) s.on_segv.siginfo s.on_segv.entry refl ne

all_nested :
    (depth : ℕ) (s : Signals)
    → s.prev_action ≡ some segv_handler_action
    → (forward_segv depth s).0 ≡ nested
unfolding forward_segv
all_nested zero s e = refl
all_nested (suc depth) s e = simp e (all_nested depth s e)

-- Where the action in force is already the runtime's, as it is after the constructor, one call of
-- `provsan_SEGV_fault_handler` makes the handler its own predecessor: for a SIGSEGV that is no
-- key violation it calls itself to every depth and never returns.
pub forward_segv_loops :
    (depth : ℕ) (s : Signals) (oldact : Bool)
    → (forward_segv depth (replaced (install s) oldact)).0 ≡ nested
unfolding install provsan_segv_fault_handler
forward_segv_loops depth s oldact = all_nested depth (replaced (install s) oldact) refl
