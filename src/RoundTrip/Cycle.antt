-- ===== src/RoundTrip/Cycle.antt =====
-- The whole cycle: a build for profiling, a history of its program in the runtime, and the calls
-- that a build with the profile takes for faulty.
use ia2_provsan.Base.{
  ℕ, ◌^◌, ◌+◌, ◌<◌, ◌≡◌, ◌↔◌, refl, sym, ◌∙◌, String, Bool, true, false, ◌&&◌, Option, none, some,
  List, [], ◌∷◌, arith, ◌==◌, str_eq, str_eq_iff, Bool-cases, inl, inr,
}
use ia2_provsan.Base.Int.{ℤ, magnitude}
use ia2_provsan.Base.Lists.{get_elem?}
use ia2_provsan.Base.Outcome.{ok}
use ia2_provsan.Containers.Hashed.{contains}
use ia2_provsan.Site.{AllocSite, same_site}
use ia2_provsan.Site.Range.{same_site_refl, same_site_iff}
use ia2_provsan.Hooks.{Runtime}
use ia2_provsan.Hooks.Heap.{View, no_heap}
use ia2_provsan.Fault.{Frame}
use ia2_provsan.Fault.Step.{handler}
use ia2_provsan.Fault.History.{Event, Events, Marks, no_marks, after}
use ia2_provsan.Fault.Session.{session, session_marks}
use ia2_provsan.Post.Profile.{Json, Files}
use ia2_provsan.Post.Ir.{
  Operand, number, text, CallBase, Instruction, call, plain, BasicBlock, Function,
}
use ia2_provsan.Post.Number.{Tally, alloc_inst}
use ia2_provsan.Post.Number.Ids.{number_position}
use ia2_provsan.Post.Patch.{any_inst, any_block, any_call}
use ia2_provsan.Post.Report.{DebugLoc}
use ia2_provsan.Post.Run.Ended.{FunctionHasSpace}
use ia2_provsan.Post.Run.{Flags, TestFlags, with_test_flags, run}
use ia2_provsan.Post.Run.Names.{All, AreNamed, AreEmpty}
use ia2_provsan.RoundTrip.Reports.{has_fault, is_number, is_faulty}
use ia2_provsan.RoundTrip.Profiling.{names_fault, passes_at, passes_fault}
use ia2_provsan.RoundTrip.Profiling.Build.{run-passes}

-- The operand that a hook is called with is the number, or the name.
abbrev is_id : Option Operand → ℕ → Bool
is_id (some (number i)) id = i == id
is_id _ id = false

abbrev is_literal : Option Operand → String → Bool
is_literal (some (text s)) name = str_eq s name
is_literal _ name = false

abbrev hands_at : ℕ → ℕ → String → CallBase → Option ℕ → Bool
hands_at k id name c none = false
hands_at k id name c (some p) =
    (is_id (get_elem? c.args p) id && is_literal (get_elem? c.args (p + 2)) name)
    && is_number (alloc_inst (get_elem? c.args 0)) k

-- A hook on the result of call `k` hands the number and the name to the runtime.
abbrev pub hands : ℕ → ℕ → String → CallBase → Bool
hands k id name c = hands_at k id name c (number_position c)

has_fault-contains :
    (faults : List AllocSite) (x : AllocSite)
    → contains same_site faults x ≡ true
    → has_fault faults x.func_name (magnitude x.local_id) ≡ true
unfolding contains same_site has_fault
has_fault-contains [] x h = absurd cc
has_fault-contains (s ∷ faults) x h = elim (Bool-cases (same_site s x)) [
  | inl same ↦
      let key = (same_site_iff s x).0 same in
      rw (key.func_name, key.local_id) (ground (arith, (str_eq_iff x.func_name x.func_name).1 refl))
  | inr other ↦ ground (arith, has_fault-contains faults x (rw other at h))
]

-- A fault is that of a site of the fault set.
fault_found :
    (faults : List AllocSite) (name : String) (id : ℕ)
    → has_fault faults name id ≡ true
    → (x : AllocSite) × (contains same_site faults x ≡ true)
      × ((str_eq x.func_name name && id == magnitude x.local_id) ≡ true)
unfolding contains has_fault
fault_found [] name id h = absurd cc
fault_found (s ∷ faults) name id h =
    elim (Bool-cases (str_eq s.func_name name && id == magnitude s.local_id)) [
      | inl own ↦ (s, ground (arith, same_site_refl s), own)
      | inr other ↦
          let (x, there, named) = fault_found faults name id (ground (arith, h, other)) in
          (x, ground (arith, there), named)
    ]

names_fault_handed :
    (faults : List AllocSite) (id : ℕ) (name : String) (i s : Option Operand)
    → has_fault faults name id ≡ true
    → (is_id i id && is_literal s name) ≡ true
    → names_fault faults i s ≡ true
names_fault_handed faults id name (some (number j)) (some (text f)) found h =
    ground (arith, found, str_eq_iff f name)
names_fault_handed faults id name (some (number j)) _ found h = absurd (ground (arith, h))
names_fault_handed faults id name _ _ found h = absurd (ground (arith, h))

hands-passes_fault :
    (faults : List AllocSite) (k id : ℕ) (name : String) (c : CallBase) (o : Option ℕ)
    → has_fault faults name id ≡ true
    → hands_at k id name c o ≡ true
    → passes_at faults k c o ≡ true
hands-passes_fault faults k id name c none found h = h
hands-passes_fault faults k id name c (some p) found h = ground (
  arith,
  h,
  names_fault_handed faults id name (get_elem? c.args p) (get_elem? c.args (p + 2)) found,
)

named_fault :
    (faults : List AllocSite) (i s : Option Operand)
    → names_fault faults i s ≡ true
    → (x : AllocSite) × (contains same_site faults x ≡ true)
      × ((is_id i (magnitude x.local_id) && is_literal s x.func_name) ≡ true)
named_fault faults (some (number id)) (some (text name)) h =
    let (x, there, named) = fault_found faults name id h in
    (x, there, ground (arith, named, str_eq_iff x.func_name name, str_eq_iff name x.func_name))
named_fault faults (some (number id)) _ h = absurd cc
named_fault faults _ _ h = absurd cc

-- What a hook passes is the number and the function of a site of the fault set.
passed_fault :
    (faults : List AllocSite) (k : ℕ) (c : CallBase) (o : Option ℕ)
    → passes_at faults k c o ≡ true
    → (x : AllocSite) × (contains same_site faults x ≡ true)
      × (hands_at k (magnitude x.local_id) x.func_name c o ≡ true)
passed_fault faults k c none h = absurd cc
passed_fault faults k c (some p) h =
    let (x, there, handed) =
      named_fault faults (get_elem? c.args p) (get_elem? c.args (p + 2)) (ground (arith, h)) in
    (x, there, ground (arith, h, handed))

-- A call with the property, and that it is one of the module's calls.
module _ (q : CallBase → Bool) where
  found_inst :
      (insts : List Instruction)
      → any_inst q insts ≡ true
      → (c : CallBase) × (q c ≡ true)
        × ((r : CallBase → Bool) → r c ≡ true → any_inst r insts ≡ true)
  unfolding any_inst
  found_inst [] h = absurd cc
  found_inst (plain k ∷ insts) h = found_inst insts h
  found_inst (call c ∷ insts) h = elim (Bool-cases (q c)) [
    | inl own ↦ (c, own, λ r e. ground (arith, e))
    | inr other ↦
        let (d, holds, among) = found_inst insts (rw other at h) in
        (d, holds, λ r e. ground (arith, among r e))
  ]

  found_block :
      (blocks : List BasicBlock)
      → any_block q blocks ≡ true
      → (c : CallBase) × (q c ≡ true)
        × ((r : CallBase → Bool) → r c ≡ true → any_block r blocks ≡ true)
  unfolding any_block
  found_block [] h = absurd cc
  found_block (b ∷ blocks) h = elim (Bool-cases (any_inst q b.insts)) [
    | inl own ↦
        let (c, holds, among) = found_inst b.insts own in
        (c, holds, λ r e. ground (arith, among r e))
    | inr other ↦
        let (c, holds, among) = found_block blocks (rw other at h) in
        (c, holds, λ r e. ground (arith, among r e))
  ]

  found_call :
      (m : List Function)
      → any_call q m ≡ true
      → (c : CallBase) × (q c ≡ true) × ((r : CallBase → Bool) → r c ≡ true → any_call r m ≡ true)
  unfolding any_call
  found_call [] h = absurd cc
  found_call (f ∷ m) h = elim (Bool-cases (any_block q f.blocks)) [
    | inl own ↦
        let (c, holds, among) = found_block f.blocks own in
        (c, holds, λ r e. ground (arith, among r e))
    | inr other ↦
        let (c, holds, among) = found_call m (rw other at h) in
        (c, holds, λ r e. ground (arith, among r e))
  ]

-- A call of the code has a hook on its result that passes the number and the function of a site
-- that was marked.
abbrev pub IsReached : Marks → List Function → ℕ → Type 0
IsReached marks n k =
    (x : AllocSite) × (marks.faulty x ≡ true)
    × (any_call (hands k (magnitude x.local_id) x.func_name) n ≡ true)

passes_fault-IsReached :
    (faults : List AllocSite) (marks : Marks) (n : List Function) (k : ℕ)
    → ((x : AllocSite) → contains same_site faults x ≡ marks.faulty x)
    → (any_call (passes_fault faults k) n ≡ true) ↔ IsReached marks n k
passes_fault-IsReached faults marks n k marked = (
  λ h.
      let (c, passes, among) = found_call (passes_fault faults k) n h in
      let (x, there, handed) = passed_fault faults k c (number_position c) passes in
      (x, sym (marked x) ∙ there, among (hands k (magnitude x.local_id) x.func_name) handed),
  λ (x, faulty, handed).
      let found = has_fault-contains faults x (marked x ∙ faulty) in
      let (c, hands_it, among) = found_call (hands k (magnitude x.local_id) x.func_name) n handed in
      among (passes_fault faults k) (
        hands-passes_fault faults k (magnitude x.local_id) x.func_name c (number_position c) found
          hands_it),
)

-- Let a module's functions have distinct names, declarations no blocks, and the alloc and realloc
-- hooks of reachable blocks the three arguments that the pass writes, at position 2 of allocHook's
-- arguments and 4 of reallocHook's, and let no failure be noted before. Then a build of it with no
-- profile that keeps the hooks returns code. Over any history of the main thread from the first
-- hook or violation on, with a 32-bit register, in which blocks are neither null nor empty, end
-- within the address space and overlap no live block, are freed and reallocated by their starts,
-- and numbers are not negative and have counters, or there are no counters, every hook and handler
-- returns. The history may bring any such numbers and names, also others than the built code
-- passes. With the fault set that the runtime has at the end, a call is faulty in the module, where
-- a definition has an alloc or realloc hook on the call's result whose place among the definition's
-- such hooks is the number of a site of the fault set with the definition's name, exactly when a
-- hook on its result in the code that was built passes the number and the function of a site that
-- the history marks: the site of a live block that has a violation, or a site of its realloc chain.
pub session-is_faulty :
    (json : Json) (temp_id temp_pkey : ℤ) (files : Files) (test : TestFlags) (flags : Flags)
    (idg : ℕ) (m : List Function) (t : Tally) (count : ℕ) (rt : Runtime) (frame : Frame) (tid : ℤ)
    (es : List Event) (w : View) (locs : ℕ → Option DebugLoc)
    → let flags' = with_test_flags test flags in
      str_eq flags'.mpk_profile_path "" ≡ true
      → flags'.remove_hooks ≡ false
      → t.ended ≡ none
      → AreNamed m
      → AreEmpty m
      → All FunctionHasSpace m
      → rt.handle ≡ none
      → frame.pkru < 2 ^ 32
      → (events : Events rt.alloc_site_total no_heap es w)
      → (n : List Function) × (t' : Tally) × (run json temp_id temp_pkey files locs test flags idg m
            t count
          ≡ ok (n, flags', t', count, idg))
        × (rt' : Runtime) × (frame' : Frame) × (session tid (rt, frame) es ≡ ok (rt', frame'))
        × ((k : ℕ)
            → (is_faulty (handler rt').fault_set m k ≡ true)
              ↔ IsReached (after events no_marks) n k)
session-is_faulty json temp_id temp_pkey files test flags idg m t count rt frame tid es w locs
      no_profile keeps running named empty space fresh small events =
    let (rt', frame', returned, register, idle, owners, marked) =
      session_marks rt frame tid es w fresh small events in
    let (n, t', emitted, agrees) =
      run-passes json temp_id temp_pkey files test flags idg m t count locs no_profile keeps running
        named empty space in
    let faults = (handler rt').fault_set in
    (
      n,
      t',
      emitted,
      rt',
      frame',
      returned,
      λ k.
          rw (sym (agrees faults k))
            (passes_fault-IsReached faults (after events no_marks) n k marked),
    )
