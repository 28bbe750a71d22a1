-- ===== src/Fault/Step.antt =====
-- One violation and the single step after it: the segv handler opens the key for the faulting
-- instruction, and the trap handler is to close it again.
use ia2_provsan.Base.{ℕ, ◌-◌, ◌^◌, ◌<◌, ◌≡◌, refl, ap, ◌∙◌, true, false, List, none, some, arith}
use ia2_provsan.Base.{bit_or, bit_and}
use ia2_provsan.Base.Int.{ℤ, pos, int_eq, to_i32, to_u32}
use ia2_provsan.Base.Outcome.{ok}
use ia2_provsan.Containers.Hashed.{find}
use ia2_provsan.Pkru.{pkey_get, pkey_set}
use ia2_provsan.Pkru.Rights.{IsAccess, pkey_get-pkey_set, pkey_set-restore}
use ia2_provsan.Signals.{Stats}
use ia2_provsan.Site.{AllocSite, same_site, is_valid}
use ia2_provsan.Handler.{Handler, PendingPKeyInfo, store_pending_pkey_info}
use ia2_provsan.Handler.Blocks.{Packed}
use ia2_provsan.Handler.Search.{owner, search_map-owner}
use ia2_provsan.Handler.Faults.{IsCounted, AllCounted, FaultMarks, add_fault_alloc_marks}
use ia2_provsan.Handler.Counts.{add_fault_alloc-keeps_count}
use ia2_provsan.Handler.Pending.{
  pending, get_and_remove-store_self, get_and_remove-store_ne, pending-store_self,
}
use ia2_provsan.Hooks.{Runtime, get_or_init}
use ia2_provsan.Fault.{Frame, handle_pkuerr, disable_mpk, pku_trap, trap_flag}

abbrev pub handler : Runtime → Handler
handler rt = (get_or_init rt).0

abbrev pub stats : Runtime → Stats
stats rt = (get_or_init rt).1.stats

-- The runtime's map is in order, the statistics' assertions hold for the address's live owner, the
-- key and the register are in range, and the thread has no key pending.
pub record IsReady (rt : Runtime) (tid : ℤ) (addr pkey : ℕ) (frame : Frame) : Type 0 where
  pub packed : Packed 1 (handler rt).allocation_map
  pub counted :
      is_valid (owner (handler rt).allocation_map addr) ≡ true
      → IsCounted (stats rt).alloc_site_count (owner (handler rt).allocation_map addr)
  pub chains :
      is_valid (owner (handler rt).allocation_map addr) ≡ true
      → (chain : List AllocSite)
      → find same_site (handler rt).fm (owner (handler rt).allocation_map addr) ≡ some chain
      → AllCounted (stats rt).alloc_site_count chain
  pub key : pkey < 16
  pub word : frame.pkru < 2 ^ 32
  pub idle : pending (handler rt) tid ≡ none

-- The frame that the segv handler resumes with.
abbrev pub opened : ℕ → Frame → Frame
opened pkey frame = record {
  pkru = (pkey_set frame.pkru (pos pkey) 0).1;
  eflags = bit_or frame.eflags trap_flag;
}

-- What the segv handler stores for the thread.
abbrev pub saved : ℕ → Frame → PendingPKeyInfo
saved pkey frame = record { pkey = pkey; access_rights = to_u32 (pkey_get frame.pkru (pos pkey)) }

pub to_i32_key : (pkey : ℕ) → pkey < 16 → to_i32 pkey ≡ pos pkey
to_i32_key pkey h = ground arith

-- The runtime after the faulting address is marked.
abbrev marked : Runtime → Handler → Stats → Runtime
marked rt h st = record ((get_or_init rt).1) { handle = some h; stats = st }

disable_mpk_marked :
    (rt : Runtime) (h : Handler) (st : Stats) (tid : ℤ) (pkey : ℕ) (frame : Frame)
    → pkey < 16
    → disable_mpk (marked rt h st) tid pkey frame
      ≡ (marked rt (store_pending_pkey_info h tid (saved pkey frame)) st, opened pkey frame)
unfolding disable_mpk get_or_init
disable_mpk_marked rt h st tid pkey frame small = rw (to_i32_key pkey small)

handle_pkuerr_ready :
    (rt : Runtime) (tid : ℤ) (addr pkey : ℕ) (frame : Frame)
    → IsReady rt tid addr pkey frame
    → (h : Handler) × (st : Stats) × (handle_pkuerr rt tid addr pkey frame
        ≡ ok (marked rt (store_pending_pkey_info h tid (saved pkey frame)) st, opened pkey frame))
      × FaultMarks (handler rt) h addr
      × (st.alloc_site_count ≡ (stats rt).alloc_site_count)
unfolding handle_pkuerr
handle_pkuerr_ready rt tid addr pkey frame c =
    let ((h, st), added, marks) =
      add_fault_alloc_marks 1 (handler rt) (stats rt) addr pkey c.packed c.counted c.chains in
    let found =
      search_map-owner 1 h.allocation_map addr (rw marks.same_maps.allocation_map c.packed) in
    let kept = add_fault_alloc-keeps_count (handler rt) (stats rt) addr pkey (h, st) added in
    (h, st, rw (added, found, disable_mpk_marked rt h st tid pkey frame c.key), marks, kept)

-- The flags with the trap flag cleared.
abbrev pub untrapped : ℕ → ℕ
untrapped eflags = bit_and eflags (2 ^ 64 - 1 - trap_flag)

trap_own :
    (rt : Runtime) (h : Handler) (st : Stats) (tid : ℤ) (pkey : ℕ) (frame now : Frame)
    → pkey < 16
    → pending h tid ≡ none
    → pku_trap (marked rt (store_pending_pkey_info h tid (saved pkey frame)) st) tid now ≡ (
      marked rt h st,
      record {
        pkru = (pkey_set now.pkru (pos pkey) (saved pkey frame).access_rights).1;
        eflags = untrapped now.eflags;
      },
    )
unfolding pku_trap get_or_init
trap_own rt h st tid pkey frame now small absent =
    rw (get_and_remove-store_self h tid (saved pkey frame) absent, to_i32_key pkey small)

trap_foreign :
    (rt : Runtime) (h : Handler) (st : Stats) (tid pid : ℤ) (info : PendingPKeyInfo) (now : Frame)
    → int_eq tid pid ≡ false
    → pending h pid ≡ none
    → pku_trap (marked rt (store_pending_pkey_info h tid info) st) pid now ≡ (
      marked rt (store_pending_pkey_info h tid info) st,
      record now { eflags = untrapped now.eflags },
    )
unfolding pku_trap get_or_init
trap_foreign rt h st tid pid info now ne absent =
    rw (get_and_remove-store_ne h tid pid info ne absent)

read_enabled : (access : ℕ) → access < 16 → IsAccess access 0
read_enabled access h = record { key_small = h; rights_small = omega arith }

-- In the thread whose identifier is the process's, a violation in a ready runtime is handled: the
-- faulting site and its chain are marked, the key is open while one instruction runs, and the
-- trap after it restores the register bit for bit, clears the trap flag that the flags then have,
-- and leaves no key pending and the number of counters as it was.
pub main_thread_step :
    (rt : Runtime) (tid : ℤ) (addr pkey : ℕ) (frame : Frame)
    → IsReady rt tid addr pkey frame
    → (rt₁ : Runtime) × (frame₁ : Frame) × (handle_pkuerr rt tid addr pkey frame ≡ ok (rt₁, frame₁))
      × (pkey_get frame₁.pkru (pos pkey) ≡ pos 0)
      × ((flags : ℕ)
          → let (rt₂, frame₂) = pku_trap rt₁ tid (record frame₁ { eflags = flags }) in
            FaultMarks (handler rt) (handler rt₂) addr
            × (frame₂.pkru ≡ frame.pkru)
            × (frame₂.eflags ≡ untrapped flags)
            × (pending (handler rt₂) tid ≡ none)
            × ((stats rt₂).alloc_site_count ≡ (stats rt).alloc_site_count))
unfolding get_or_init
main_thread_step rt tid addr pkey frame c =
    let (h, st, returned, marks, count) = handle_pkuerr_ready rt tid addr pkey frame c in
    let absent : pending h tid ≡ none =
      ap (λ m. find int_eq m tid) marks.same_maps.pkey_by_tid_map ∙ c.idle in
    let access = read_enabled pkey c.key in
    (
      marked rt (store_pending_pkey_info h tid (saved pkey frame)) st,
      opened pkey frame,
      returned,
      (pkey_get-pkey_set frame.pkru pkey 0 c.word access).2,
      λ flags.
          rw
            (trap_own rt h st tid pkey frame (record (opened pkey frame) { eflags = flags }) c.key
              absent)
            (marks, pkey_set-restore frame.pkru pkey 0 c.word access, refl, absent, count),
    )

-- In a thread whose identifier is not the process's, with no key pending itself and where the
-- process's identifier has none pending either, on a map in order whose statistics' assertions hold
-- for the address's live owner and its chain, a violation of a key below 16 with a 32-bit register
-- is handled, and the trap after the instruction finds nothing to restore: the register stays as it
-- is with the key open, and the key stays pending for the thread.
pub other_thread_step :
    (rt : Runtime) (tid pid : ℤ) (addr pkey : ℕ) (frame : Frame)
    → IsReady rt tid addr pkey frame
    → int_eq tid pid ≡ false
    → pending (handler rt) pid ≡ none
    → (rt₁ : Runtime) × (frame₁ : Frame) × (handle_pkuerr rt tid addr pkey frame ≡ ok (rt₁, frame₁))
      × ((flags : ℕ)
          → let (rt₂, frame₂) = pku_trap rt₁ pid (record frame₁ { eflags = flags }) in
            (frame₂.pkru ≡ frame₁.pkru)
            × (pkey_get frame₂.pkru (pos pkey) ≡ pos 0)
            × (pending (handler rt₂) tid ≡ some (saved pkey frame)))
unfolding get_or_init
other_thread_step rt tid pid addr pkey frame c ne elsewhere =
    let (h, st, returned, marks, count) = handle_pkuerr_ready rt tid addr pkey frame c in
    let kept = marks.same_maps.pkey_by_tid_map in
    let absent : pending h tid ≡ none = ap (λ m. find int_eq m tid) kept ∙ c.idle in
    let other : pending h pid ≡ none = ap (λ m. find int_eq m pid) kept ∙ elsewhere in
    let access = read_enabled pkey c.key in
    (
      marked rt (store_pending_pkey_info h tid (saved pkey frame)) st,
      opened pkey frame,
      returned,
      λ flags.
          rw
            (trap_foreign rt h st tid pid (saved pkey frame)
              (record (opened pkey frame) { eflags = flags }) ne other)
            (
              refl,
              (pkey_get-pkey_set frame.pkru pkey 0 c.word access).2,
              pending-store_self h tid (saved pkey frame) absent,
            ),
    )
