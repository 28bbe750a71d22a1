-- ===== src/Handler/Faults.antt =====
-- `addFaultAlloc` and the realloc chains: which sites a fault marks.
use ia2_provsan.Base.{ℕ, ◌<◌, ◌≡◌, refl, ◌∙◌, Bool, true, false, ◌||◌, List, [], ◌∷◌, arith}
use ia2_provsan.Base.{Option, none, some, ◌⊎◌, inl, inr, ◌==◌, Bool-cases, Option-cases}
use ia2_provsan.Base.Outcome.{ok, >>=_returned}
use ia2_provsan.Containers.Hashed.{
  contains, insert, find, IsEquivalence, contains-insert, find_equal,
}
use ia2_provsan.Base.Int.{is_nonneg, to_u64}
use ia2_provsan.Base.{◌&&◌}
use ia2_provsan.Handler.Search.{owner, search_map-owner}
use ia2_provsan.Handler.Blocks.{Packed}
use ia2_provsan.Signals.{Stats}
use ia2_provsan.Site.{AllocSite, same_site, add_pkey, is_valid}
use ia2_provsan.Site.Range.{same_site_refl, same_site_symm, same_site_trans}
use ia2_provsan.Handler.{
  Handler, bumped, count_fault, mark_chain, mark_associated, mark_fault, add_fault_alloc,
}

pub same_site-IsEquivalence : IsEquivalence same_site
same_site-IsEquivalence = record {
  reflexive = same_site_refl;
  symmetric = same_site_symm;
  transitive = same_site_trans;
}

-- The pkey of a site does not count for `operator==`.
pub same_site-add_pkey :
    (a b : AllocSite) (pkey : ℕ) → same_site (add_pkey a pkey) b ≡ same_site a b
unfolding same_site
same_site-add_pkey a b pkey = refl

same_marked : (a : AllocSite) (pkey : ℕ) → same_site (add_pkey a pkey) a ≡ true
same_marked a pkey = same_site-add_pkey a a pkey ∙ same_site_refl a

mark_chain-contains :
    (chain : List AllocSite) (pkey : ℕ) (fs : List AllocSite) (st : Stats) (fs' : List AllocSite)
    (st' : Stats) (x : AllocSite)
    → mark_chain chain pkey fs st ≡ ok (fs', st')
    → contains same_site fs' x ≡ (contains same_site fs x || contains same_site chain x)
unfolding mark_chain contains
mark_chain-contains [] pkey fs st fs' st' x h = ground arith
mark_chain-contains (a ∷ chain) pkey fs st fs' st' x h =
    let (st₁, counted, rest) = >>=_returned _ (count_fault st a) h in
    ground (
      arith,
      mark_chain-contains chain pkey (insert same_site fs (add_pkey a pkey)) st₁ fs' st' x rest,
      contains-insert same_site same_site-IsEquivalence fs (add_pkey a pkey) x,
      same_site-add_pkey a x pkey,
    )

-- The sites that an entry of `FM` adds.
abbrev pub associated : Option (List AllocSite) → AllocSite → Bool
associated none x = false
associated (some chain) x = contains same_site chain x

mark_associated-contains :
    (o : Option (List AllocSite)) (pkey : ℕ) (h : Handler) (st : Stats) (h' : Handler) (st' : Stats)
    (x : AllocSite)
    → mark_associated o pkey h st ≡ ok (h', st')
    → contains same_site h'.fault_set x ≡ (contains same_site h.fault_set x || associated o x)
unfolding mark_associated
mark_associated-contains none pkey h st h' st' x e = ground arith
mark_associated-contains (some chain) pkey h st h' st' x e =
    let ((fs, st₁), marked, rest) = >>=_returned _ (mark_chain chain pkey h.fault_set st) e in
    let same : h'.fault_set ≡ fs = cc in
    rw same (mark_chain-contains chain pkey h.fault_set st fs st₁ x marked)

-- The realloc chain of a site, empty if it has none.
abbrev pub in_chain : Handler → AllocSite → AllocSite → Bool
in_chain h site x = associated (find same_site h.fm site) x

pub mark_fault-contains :
    (alloc : AllocSite) (pkey : ℕ) (h : Handler) (st : Stats) (h' : Handler) (st' : Stats)
    (x : AllocSite)
    → mark_fault alloc pkey h st ≡ ok (h', st')
    → contains same_site h'.fault_set x
      ≡ ((contains same_site h.fault_set x || same_site alloc x) || in_chain h alloc x)
unfolding mark_fault
mark_fault-contains alloc pkey h st h' st' x e =
    let (st₁, counted, rest) = >>=_returned _ (count_fault st alloc) e in
    let marked = add_pkey alloc pkey in
    let key : find same_site h.fm marked ≡ find same_site h.fm alloc =
      find_equal same_site same_site-IsEquivalence h.fm marked alloc (same_marked alloc pkey) in
    ground (
      arith,
      mark_associated-contains (find same_site h.fm marked) pkey
          (record h { fault_set = insert same_site h.fault_set marked }) st₁ h' st' x rest,
      key,
      contains-insert same_site same_site-IsEquivalence h.fault_set marked x,
      same_site-add_pkey alloc x pkey,
    )

-- What a fault leaves alone.
pub record SameMaps (h h' : Handler) : Type 0 where
  pub allocation_map : h'.allocation_map ≡ h.allocation_map
  pub pkey_by_tid_map : h'.pkey_by_tid_map ≡ h.pkey_by_tid_map
  pub fm : h'.fm ≡ h.fm

mark_associated-SameMaps :
    (o : Option (List AllocSite)) (pkey : ℕ) (h : Handler) (st : Stats) (h' : Handler) (st' : Stats)
    → mark_associated o pkey h st ≡ ok (h', st')
    → SameMaps h h'
unfolding mark_associated
mark_associated-SameMaps none pkey h st h' st' e = ground arith
mark_associated-SameMaps (some chain) pkey h st h' st' e =
    let ((fs, st₁), marked, rest) = >>=_returned _ (mark_chain chain pkey h.fault_set st) e in
    let same : h' ≡ record h { fault_set = fs } = cc in
    rw same (record { allocation_map = refl; pkey_by_tid_map = refl; fm = refl })

mark_fault-SameMaps :
    (alloc : AllocSite) (pkey : ℕ) (h : Handler) (st : Stats) (h' : Handler) (st' : Stats)
    → mark_fault alloc pkey h st ≡ ok (h', st')
    → SameMaps h h'
unfolding mark_fault
mark_fault-SameMaps alloc pkey h st h' st' e =
    let (st₁, counted, rest) = >>=_returned _ (count_fault st alloc) e in
    let marked = add_pkey alloc pkey in
    let kept =
      mark_associated-SameMaps (find same_site h.fm marked) pkey
        (record h { fault_set = insert same_site h.fault_set marked }) st₁ h' st' rest in
    record {
      allocation_map = kept.allocation_map;
      pkey_by_tid_map = kept.pkey_by_tid_map;
      fm = kept.fm;
    }

-- The fault set after a fault at address `p`: the sites of before and, if `p` lies in a live site,
-- that site and its realloc chain.
pub record FaultMarks (h h' : Handler) (p : ℕ) : Type 0 where
  pub same_maps : SameMaps h h'
  pub marked :
      (x : AllocSite)
      → let alloc = owner h.allocation_map p in
        contains same_site h'.fault_set x ≡ (
          contains same_site h.fault_set x
          || (is_valid alloc && (same_site alloc x || in_chain h alloc x)))

-- The assertion of the statistics holds for the site, or there are no counters.
abbrev pub IsCounted : ℕ → AllocSite → Type 0
IsCounted n s = (n ≡ 0) ⊎ ((is_nonneg s.local_id ≡ true) × (to_u64 s.local_id < n))

abbrev pub AllCounted : ℕ → List AllocSite → Type 0
AllCounted n [] = Unit {0}
AllCounted n (s ∷ chain) = IsCounted n s × AllCounted n chain

count_fault_total :
    (st : Stats) (s : AllocSite)
    → IsCounted st.alloc_site_count s
    → (st' : Stats) × (count_fault st s ≡ ok st') × (st'.alloc_site_count ≡ st.alloc_site_count)
unfolding count_fault
count_fault_total st s c = elim (Bool-cases (st.alloc_site_count == 0)) [
  | inl off ↦ (st, rw off, refl)
  | inr on ↦ (bumped st (to_u64 s.local_id), ground arith, refl)
]

mark_chain_total :
    (chain : List AllocSite) (pkey : ℕ) (fs : List AllocSite) (st : Stats)
    → AllCounted st.alloc_site_count chain
    → (r : List AllocSite × Stats) × (mark_chain chain pkey fs st ≡ ok r)
unfolding mark_chain
mark_chain_total [] pkey fs st c = ((fs, st), refl)
mark_chain_total (a ∷ chain) pkey fs st (first, rest) =
    let (st₁, counted, same) = count_fault_total st a first in
    let (r, found) =
      mark_chain_total chain pkey (insert same_site fs (add_pkey a pkey)) st₁ (rw same rest) in
    (r, rw counted found)

mark_fault_total :
    (alloc : AllocSite) (pkey : ℕ) (h : Handler) (st : Stats)
    → IsCounted st.alloc_site_count alloc
    → ((chain : List AllocSite)
        → find same_site h.fm alloc ≡ some chain
        → AllCounted st.alloc_site_count chain)
    → (r : Handler × Stats) × (mark_fault alloc pkey h st ≡ ok r)
unfolding mark_fault mark_associated
mark_fault_total alloc pkey h st own chains =
    let (st₁, counted, same) = count_fault_total st alloc own in
    let marked = add_pkey alloc pkey in
    let h₁ : Handler = record h { fault_set = insert same_site h.fault_set marked } in
    let key : find same_site h.fm marked ≡ find same_site h.fm alloc =
      find_equal same_site same_site-IsEquivalence h.fm marked alloc (same_marked alloc pkey) in
    elim (Option-cases (find same_site h.fm alloc)) [
      | inl absent ↦ ((h₁, st₁), rw (counted, key, absent))
      | inr (chain, present) ↦
          let (r, done) =
            mark_chain_total chain pkey h₁.fault_set st₁ (rw same (chains chain present)) in
          ((record h₁ { fault_set = r.0 }, r.1), rw (counted, key, present, done))
    ]

-- On a map of disjoint live sites whose statistics' assertions hold for the live owner of the
-- faulting address, if there is one, and for its realloc chain, `addFaultAlloc` returns. It adds the owner and its chain to
-- the fault set and nothing else, nothing at all if no live site has the address, and leaves the
-- three maps alone.
pub add_fault_alloc_marks :
    (lo : ℕ) (h : Handler) (st : Stats) (p pkey : ℕ)
    → Packed lo h.allocation_map
    → (is_valid (owner h.allocation_map p) ≡ true
        → IsCounted st.alloc_site_count (owner h.allocation_map p))
    → (is_valid (owner h.allocation_map p) ≡ true
        → (chain : List AllocSite) → find same_site h.fm (owner h.allocation_map p) ≡ some chain
        → AllCounted st.alloc_site_count chain)
    → (r : Handler × Stats) × (add_fault_alloc h st p pkey ≡ ok r) × FaultMarks h r.0 p
unfolding add_fault_alloc
add_fault_alloc_marks lo h st p pkey packed own chains =
    let alloc = owner h.allocation_map p in
    elim (Bool-cases (is_valid alloc)) [
      | inl valid ↦
          let ((h', st'), done) = mark_fault_total alloc pkey h st (own valid) (chains valid) in
          (
            (h', st'),
            rw (search_map-owner lo h.allocation_map p packed, valid) done,
            record {
              same_maps = mark_fault-SameMaps alloc pkey h st h' st' done;
              marked = λ x. ground (arith, mark_fault-contains alloc pkey h st h' st' x done);
            },
          )
      | inr invalid ↦ (
        (h, st),
        rw (search_map-owner lo h.allocation_map p packed, invalid),
        record {
          same_maps = record { allocation_map = refl; pkey_by_tid_map = refl; fm = refl };
          marked = λ x. ground arith;
        },
      )
    ]
