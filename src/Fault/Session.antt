-- ===== src/Fault/Session.antt =====
-- Histories of the main thread, in which calls of the hooks and violations come in any order: the
-- hooks of Runtime/alloc_site_handler.cpp and the handlers of Runtime/provsan_fault_handler.cpp on
-- one state.
use ia2_provsan.Base.{ℕ, ◌^◌, ◌<◌, ◌≡◌, refl, ap, ◌∙◌, true, none, some, List, [], ◌∷◌}
use ia2_provsan.Base.Int.{ℤ, int_eq}
use ia2_provsan.Base.Outcome.{Outcome, ok, ◌>>=◌}
use ia2_provsan.Containers.Hashed.{contains, find}
use ia2_provsan.Site.{AllocSite, same_site, is_valid}
use ia2_provsan.Handler.{get_alloc_site}
use ia2_provsan.Handler.Search.{owner}
use ia2_provsan.Handler.Faults.{IsCounted, AllCounted}
use ia2_provsan.Handler.Pending.{pending}
use ia2_provsan.Signals.{count_sites}
use ia2_provsan.Hooks.{Runtime, init, get_or_init}
use ia2_provsan.Hooks.Sites.{sites}
use ia2_provsan.Hooks.Heap.{View, Call, hook, Step, Refines, hook-Refines, search_sites, no_heap}
use ia2_provsan.Fault.{Frame, handle_pkuerr, pku_trap}
use ia2_provsan.Fault.Step.{handler, stats, IsReady, main_thread_step}
use ia2_provsan.Fault.Counted.{Step_counted, with_chain_counted}
use ia2_provsan.Fault.Kept.{CallCounted, hook-Keeps}
use ia2_provsan.Fault.History.{
  Event, runs_hook, violates, Events, ends, called, violated, Marks, no_marks, after_call, fault,
  after,
}
use ia2_provsan.Fault.Marks.{Agrees, called-Agrees, violated-Agrees}

-- The runtime with the thread's saved registers.
abbrev pub State : Type 0
State = Runtime × Frame

abbrev trapped : ℤ → ℕ → State → State
trapped tid flags s = pku_trap s.0 tid (record (s.1) { eflags = flags })

unfoldable pub event : ℤ → State → Event → Outcome State
event tid s (runs_hook c) = hook s.0 c >>= λ rt. ok (rt, s.1)
event tid s (violates addr pkey flags) =
    handle_pkuerr s.0 tid addr pkey s.1 >>= λ s'. ok (trapped tid flags s')

unfoldable pub session : ℤ → State → List Event → Outcome State
session tid s [] = ok s
session tid s (e ∷ es) = event tid s e >>= λ s'. session tid s' es

-- Between two events of thread `tid`, whose register is `word`.
pub record Sound (tid : ℤ) (n word : ℕ) (s : State) (v : View) (m : Marks) : Type 0 where
  pub tracked : Refines s.0 v
  pub idle : pending (handler s.0) tid ≡ none
  pub count : (stats s.0).alloc_site_count ≡ n
  pub live : (p : ℕ) → is_valid (v p) ≡ true → IsCounted n (v p)
  pub chains :
      (key : AllocSite) (chain : List AllocSite)
      → find same_site (handler s.0).fm key ≡ some chain
      → AllCounted n chain
  pub marked : Agrees (handler s.0) m
  pub register : s.1.pkru ≡ word

-- A hook keeps the state sound.
called-Sound :
    (tid : ℤ) (n word : ℕ) (s : State) (v u : View) (m : Marks) (c : Call)
    → Sound tid n word s v m
    → (step : Step v c u) → CallCounted n c
    → (s' : State) × (event tid s (runs_hook c) ≡ ok s') × Sound tid n word s' u (after_call step m)
unfolding event
called-Sound tid n word s v u m c i step own =
    let (rt, returned, tracked) = hook-Refines s.0 v u c i.tracked step in
    let kept = hook-Keeps s.0 rt v u c i.tracked step returned in
    (
      (rt, s.1),
      rw returned refl,
      record {
        tracked = tracked;
        idle = ap (λ m. find int_eq m tid) kept.keys ∙ i.idle;
        count = kept.count ∙ i.count;
        live = Step_counted n v u c step own i.live;
        chains = λ key chain e.
            with_chain_counted n (handler s.0) step i.live i.chains key chain (rw kept.chains at e);
        marked =
            called-Agrees step (handler s.0) (handler rt) m kept.chains kept.fault_set i.marked;
        register = i.register;
      },
    )

-- So does a violation with the trap after it.
violated-Sound :
    (tid : ℤ) (n word : ℕ) (s : State) (v : View) (m : Marks) (addr pkey flags : ℕ)
    → word < 2 ^ 32
    → Sound tid n word s v m
    → pkey < 16
    → (s' : State) × (event tid s (violates addr pkey flags) ≡ ok s')
      × Sound tid n word s' v (fault (v addr) m)
unfolding event get_or_init sites
violated-Sound tid n word s v m addr pkey flags small i key =
    let own : owner (handler s.0).allocation_map addr ≡ v addr = i.tracked.owners addr in
    let ready : IsReady s.0 tid addr pkey s.1 = record {
      packed = i.tracked.packed;
      counted = λ valid. rw (i.count, own) (i.live addr (rw own at valid));
      chains = λ valid chain e. rw i.count (i.chains _ chain e);
      key = key;
      word = rw i.register small;
      idle = i.idle;
    } in
    let (rt₁, frame₁, returned, opened, rest) = main_thread_step s.0 tid addr pkey s.1 ready in
    let (marks, register, cleared, idle, count) = rest flags in
    let maps = marks.same_maps in
    (
      trapped tid flags (rt₁, frame₁),
      rw returned refl,
      record {
        tracked = rw maps.allocation_map i.tracked;
        idle = idle;
        count = count ∙ i.count;
        live = i.live;
        chains = λ k chain e. i.chains k chain (rw maps.fm at e);
        marked =
            violated-Agrees (handler s.0) (handler (trapped tid flags (rt₁, frame₁)).0) v addr m own
              marks i.marked;
        register = register ∙ i.register;
      },
    )

session-Sound :
    (tid : ℤ) (n word : ℕ) (s : State) (v w : View) (m : Marks) (es : List Event)
    → word < 2 ^ 32
    → Sound tid n word s v m
    → (events : Events n v es w)
    → (s' : State) × (session tid s es ≡ ok s') × Sound tid n word s' w (after events m)
unfolding session after
session-Sound tid n word s v w m es small i ends = (s, refl, i)
session-Sound tid n word s v w m es small i (called {c} {es = rest} {u = u} step own later) =
    let (s₁, first, i₁) = called-Sound tid n word s v u m c i step own in
    let (s', returned, i') =
      session-Sound tid n word s₁ u w (after_call step m) rest small i₁ later in
    (s', rw first returned, i')
session-Sound tid n word s v w m es small i (violated {addr} {pkey} {flags} {es = rest} key later) =
    let (s₁, first, i₁) = violated-Sound tid n word s v m addr pkey flags small i key in
    let (s', returned, i') =
      session-Sound tid n word s₁ v w (fault (v addr) m) rest small i₁ later in
    (s', rw first returned, i')

start-Sound :
    (rt : Runtime) (frame : Frame) (tid : ℤ)
    → rt.handle ≡ none
    → Sound tid rt.alloc_site_total frame.pkru (rt, frame) no_heap no_marks
unfolding get_or_init init count_sites sites owner find is_valid contains
start-Sound rt frame tid fresh = record {
  tracked = rw fresh (record { packed = tt; owners = λ p. refl });
  idle = rw fresh refl;
  count = rw fresh refl;
  live = λ p valid. absurd cc;
  chains = λ key chain e. absurd (no_entry key chain (rw fresh at e));
  marked = rw fresh (record { grown = λ key. refl; chain = λ key x. refl; faulty = λ x. refl });
  register = refl;
}
  where
    no_entry :
        (key : AllocSite) (chain : List AllocSite)
        → find same_site {V = List AllocSite} [] key ≡ some chain
        → ⊥
    no_entry key chain e = cc

pub session_marks :
    (rt : Runtime) (frame : Frame) (tid : ℤ) (es : List Event) (w : View)
    → rt.handle ≡ none
    → frame.pkru < 2 ^ 32
    → (events : Events rt.alloc_site_total no_heap es w)
    → (rt' : Runtime) × (frame' : Frame) × (session tid (rt, frame) es ≡ ok (rt', frame'))
      × (frame'.pkru ≡ frame.pkru)
      × (pending (handler rt') tid ≡ none)
      × ((p : ℕ) → get_alloc_site (handler rt') p ≡ ok (w p))
      × ((x : AllocSite)
          → contains same_site (handler rt').fault_set x ≡ (after events no_marks).faulty x)
session_marks rt frame tid es w fresh small events =
    let (s', returned, i) =
      session-Sound tid rt.alloc_site_total frame.pkru (rt, frame) no_heap w no_marks es small
        (start-Sound rt frame tid fresh) events in
    (
      s'.0,
      s'.1,
      returned,
      i.register,
      i.idle,
      λ p. search_sites s'.0 w p i.tracked,
      i.marked.faulty,
    )
