-- ===== src/Handler/Threads.antt =====
-- `addFaultAlloc` between other threads: it looks up under the mutex of the map and marks under
-- that of the fault set, and other methods of the handler run before, between and after.
use ia2_provsan.Base.{ℕ, ◌≡◌, refl, ◌∙◌, ap, Bool, true, false, ◌||◌, List, [], ◌∷◌, ◌++◌, arith}
use ia2_provsan.Base.Outcome.{ok}
use ia2_provsan.Containers.Hashed.{contains}
use ia2_provsan.Signals.{Stats}
use ia2_provsan.Site.{AllocSite, is_valid, same_site}
use ia2_provsan.Site.Range.{same_site_refl}
use ia2_provsan.Handler.{
  Handler, insert_alloc_site, remove_alloc_site, update_realloc_chain, get_alloc_site, mark_fault,
}
use ia2_provsan.Handler.Blocks.{Packed}
use ia2_provsan.Handler.Search.{owner, search_map-owner}
use ia2_provsan.Handler.Faults.{in_chain, mark_fault-contains}

-- `in_flight` are the copies `alloc`, with the key, of the threads that are between the two.
pub record State : Type 0 where
  pub handler : Handler
  pub stats : Stats
  pub in_flight : List (AllocSite × ℕ)

abbrev pub changed : State → Handler → State
changed s h = record s { handler = h }

abbrev pub looked_up : State → AllocSite → ℕ → State
looked_up s alloc pkey = record s { in_flight = (alloc, pkey) ∷ s.in_flight }

-- What one thread does while it holds a mutex.
pub data Step (s : State) : State → Type 0 where
  inserts : (ptr : ℕ) (site : AllocSite) → Step s (changed s (insert_alloc_site s.handler ptr site))
  removes : (ptr : ℕ) → Step s (changed s (remove_alloc_site s.handler ptr))
  chains :
      (old_site new_site : AllocSite)
      → Step s (changed s (update_realloc_chain s.handler old_site new_site))
  looks_up :
      (ptr pkey : ℕ) (alloc : AllocSite)
      → get_alloc_site s.handler ptr ≡ ok alloc
      → is_valid alloc ≡ true
      → Step s (looked_up s alloc pkey)
  marks :
      (before rest : List (AllocSite × ℕ)) (alloc : AllocSite) (pkey : ℕ) (h' : Handler)
      (st' : Stats)
      → s.in_flight ≡ before ++ ((alloc, pkey) ∷ rest)
      → mark_fault alloc pkey s.handler s.stats ≡ ok (h', st')
      → Step s (record { handler = h'; stats = st'; in_flight = before ++ rest })

pub data Steps : State → State → Type 0 where
  done : {s : State} → Steps s s
  after : {s t u : State} → Step s t → Steps t u → Steps s u

unfoldable holds : List (AllocSite × ℕ) → AllocSite → Bool
holds [] x = false
holds (entry ∷ entries) x = same_site entry.0 x || holds entries x

holds-append :
    (before rest : List (AllocSite × ℕ)) (x : AllocSite)
    → holds (before ++ rest) x ≡ (holds before x || holds rest x)
unfolding holds
holds-append [] rest x = refl
holds-append (entry ∷ before) rest x = rw (holds-append before rest x) (ground arith)

-- Marked, or found by a thread that has not marked it yet.
abbrev IsHeld : State → AllocSite → Type 0
IsHeld s x = (contains same_site s.handler.fault_set x || holds s.in_flight x) ≡ true

marks-IsHeld :
    (marked marked' before own rest chained : Bool)
    → marked' ≡ ((marked || own) || chained)
    → (marked || (before || (own || rest))) ≡ true
    → (marked' || (before || rest)) ≡ true
marks-IsHeld marked marked' before own rest chained e h = ground (arith, e, h)

Step-IsHeld : (s t : State) (x : AllocSite) → Step s t → IsHeld s x → IsHeld t x
unfolding insert_alloc_site remove_alloc_site update_realloc_chain
Step-IsHeld s t x (inserts ptr site) held = held
Step-IsHeld s t x (removes ptr) held = held
Step-IsHeld s t x (chains old_site new_site) held = held
Step-IsHeld s t x (looks_up ptr pkey alloc found valid) held = unfold holds in ground (arith, held)
Step-IsHeld s t x (marks before rest alloc pkey h' st' entry marked) held =
    let split : holds s.in_flight x ≡ (holds before x || (same_site alloc x || holds rest x)) =
      ap (λ l. holds l x) entry
      ∙ holds-append before ((alloc, pkey) ∷ rest) x
      ∙ (unfold holds in refl) in
    rw (holds-append before rest x) (
      marks-IsHeld (contains same_site s.handler.fault_set x) (contains same_site h'.fault_set x)
        (holds before x) (same_site alloc x) (holds rest x) (in_chain s.handler alloc x)
        (mark_fault-contains alloc pkey s.handler s.stats h' st' x marked) (rw split at held))

Steps-IsHeld : (s t : State) (x : AllocSite) → Steps s t → IsHeld s x → IsHeld t x
Steps-IsHeld s t x done held = held
Steps-IsHeld s t x (after {t = u} step steps) held =
    Steps-IsHeld u t x steps (Step-IsHeld s u x step held)

-- On a map of disjoint live sites, a lookup of an address in a live site finds this site. However
-- the steps of other threads come between, also if they remove the site before it is marked: when
-- no thread is between its lookup and its marking any more, the site is in the fault set.
pub interleaved_fault :
    (lo : ℕ) (s t : State) (ptr pkey : ℕ)
    → let alloc = owner s.handler.allocation_map ptr in
      Packed lo s.handler.allocation_map
      → is_valid alloc ≡ true
      → Steps (looked_up s alloc pkey) t
      → t.in_flight ≡ []
      → Step s (looked_up s alloc pkey) × (contains same_site t.handler.fault_set alloc ≡ true)
interleaved_fault lo s t ptr pkey packed valid steps idle =
    let alloc = owner s.handler.allocation_map ptr in
    let own = same_site_refl alloc in
    let first : IsHeld (looked_up s alloc pkey) alloc = unfold holds in ground (arith, own) in
    let held = Steps-IsHeld (looked_up s alloc pkey) t alloc steps first in
    let none_left : holds t.in_flight alloc ≡ false =
      ap (λ l. holds l alloc) idle ∙ (unfold holds in refl) in
    (
      looks_up ptr pkey alloc (search_map-owner lo s.handler.allocation_map ptr packed) valid,
      ground (arith, held, none_left),
    )
