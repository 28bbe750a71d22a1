-- ===== src/Signals.antt =====
-- Runtime/provsan_init.cpp: the process's signal actions, and the statistics that the constructor
-- sets up. `sigaction` is that of POSIX: it installs an action and hands out the one before. The
-- static buffer that `prevAction` points to is its contents, `none` while the pointer is null.
use ia2_provsan.Base.{ℕ, ◌+◌, ◌%◌, ◌^◌, Bool, true, false, Option, none, some, List, []}
use ia2_provsan.Base.{◌==◌, if◌then◌else◌}
use ia2_provsan.Base.Lists.{replicate}

-- The value of `sa_handler` or `sa_sigaction`: a foreign handler is known by a number.
pub data Entry : Type 0 where
  sig_dfl : Entry
  sig_ign : Entry
  pku_segv_handler : Entry
  pku_trap_handler : Entry
  foreign : ℕ → Entry

pub record SigAction : Type 0 where
  -- `sa_flags & SA_SIGINFO`
  pub siginfo : Bool
  pub entry : Entry

pub record Signals : Type 0 where
  -- The kernel's actions for SIGSEGV and SIGTRAP.
  pub on_segv : SigAction
  pub on_trap : SigAction
  pub prev_action : Option SigAction
  pub segv_action : Option SigAction
  pub sigt_action : Option SigAction

abbrev pub segv_handler_action : SigAction
segv_handler_action = record { siginfo = true; entry = pku_segv_handler }

abbrev pub trap_handler_action : SigAction
trap_handler_action = record { siginfo = true; entry = pku_trap_handler }

-- `if (!pointer) pointer = &sa;`
abbrev or_set {ℓ} : {A : Type ℓ} → Option A → A → Option A
or_set none a = some a
or_set (some b) a = some b

abbrev value {ℓ} : {A : Type ℓ} → Option A → A → A
value none a = a
value (some b) a = b

-- The signal half of `provsan_untrusted_constructor`.
unfoldable pub install : Signals → Signals
install s = record {
  on_segv = segv_handler_action;
  on_trap = trap_handler_action;
  prev_action = some s.on_segv;
  segv_action = or_set s.segv_action segv_handler_action;
  sigt_action = or_set s.sigt_action trap_handler_action;
}

-- What `provsan_SEGV_fault_handler` copies to a non-null `oldact`: the contents of `*prevAction`.
abbrev pub copied : Signals → Bool → Option SigAction
copied s true = s.prev_action
copied s false = none

-- `*prevAction = old`, where the pointer is not null.
abbrev overwrite : Option SigAction → SigAction → Option SigAction
overwrite none old = none
overwrite (some _) old = some old

-- `provsan_SEGV_fault_handler`; the flag says that `oldact` is not null.
unfoldable pub provsan_segv_fault_handler : Signals → Bool → Option SigAction × Signals
provsan_segv_fault_handler s oldact = (
  copied s oldact,
  record s {
    on_segv = value s.segv_action segv_handler_action;
    prev_action = overwrite s.prev_action s.on_segv;
    segv_action = or_set s.segv_action segv_handler_action;
  },
)

-- The counters that MPK_STATS adds, each a std::atomic<uint64_t>.
pub record Stats : Type 0 where
  pub alloc_site_use_counter : List ℕ
  pub alloc_hook_calls : ℕ
  pub realloc_hook_calls : ℕ
  pub dealloc_hook_calls : ℕ
  pub alloc_site_count : ℕ

abbrev pub no_stats : Stats
no_stats = record {
  alloc_site_use_counter = [];
  alloc_hook_calls = 0;
  realloc_hook_calls = 0;
  dealloc_hook_calls = 0;
  alloc_site_count = 0;
}

-- The statistics half of the constructor, from the linked `AllocSiteTotal`.
unfoldable pub count_sites : ℕ → Stats → Stats
count_sites total st = record st {
  alloc_site_use_counter = if total == 0 then st.alloc_site_use_counter else replicate total 0;
  alloc_site_count = total;
}

-- `counter++` of a uint64_t
abbrev pub increment : ℕ → ℕ
increment n = (n + 1) % 2 ^ 64
