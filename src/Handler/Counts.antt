-- ===== src/Handler/Counts.antt =====
-- What `addFaultAlloc` leaves of the statistics: the number of counters.
use ia2_provsan.Base.{
  ℕ, ◌≡◌, sym, ap, ◌∙◌, Option, none, some, List, [], ◌∷◌, arith, inl, inr, Bool-cases,
}
use ia2_provsan.Base.Outcome.{ok, >>=_returned}
use ia2_provsan.Containers.Hashed.{insert, find}
use ia2_provsan.Signals.{Stats}
use ia2_provsan.Site.{AllocSite, same_site, add_pkey, is_valid}
use ia2_provsan.Handler.{
  Handler, get_alloc_site, count_fault, mark_chain, mark_associated, mark_fault, add_fault_alloc,
}

count_fault-keeps_count :
    (st : Stats) (s : AllocSite) (st' : Stats)
    → count_fault st s ≡ ok st'
    → st'.alloc_site_count ≡ st.alloc_site_count
unfolding count_fault
count_fault-keeps_count st s st' e = ground arith

mark_chain-keeps_count :
    (chain : List AllocSite) (pkey : ℕ) (fs : List AllocSite) (st : Stats)
    (r : List AllocSite × Stats)
    → mark_chain chain pkey fs st ≡ ok r
    → r.1.alloc_site_count ≡ st.alloc_site_count
unfolding mark_chain
mark_chain-keeps_count [] pkey fs st r e = ground arith
mark_chain-keeps_count (a ∷ chain) pkey fs st r e =
    let (st₁, counted, rest) = >>=_returned _ (count_fault st a) e in
    mark_chain-keeps_count chain pkey (insert same_site fs (add_pkey a pkey)) st₁ r rest
    ∙ count_fault-keeps_count st a st₁ counted

mark_associated-keeps_count :
    (o : Option (List AllocSite)) (pkey : ℕ) (h : Handler) (st : Stats) (r : Handler × Stats)
    → mark_associated o pkey h st ≡ ok r
    → r.1.alloc_site_count ≡ st.alloc_site_count
unfolding mark_associated
mark_associated-keeps_count none pkey h st r e = ground arith
mark_associated-keeps_count (some chain) pkey h st r e =
    let (r₁, marked, rest) = >>=_returned _ (mark_chain chain pkey h.fault_set st) e in
    let same : r.1 ≡ r₁.1 = cc in
    ap (λ (t : Stats). t.alloc_site_count) same
    ∙ mark_chain-keeps_count chain pkey h.fault_set st r₁ marked

mark_fault-keeps_count :
    (alloc : AllocSite) (pkey : ℕ) (h : Handler) (st : Stats) (r : Handler × Stats)
    → mark_fault alloc pkey h st ≡ ok r
    → r.1.alloc_site_count ≡ st.alloc_site_count
unfolding mark_fault
mark_fault-keeps_count alloc pkey h st r e =
    let (st₁, counted, rest) = >>=_returned _ (count_fault st alloc) e in
    let marked = add_pkey alloc pkey in
    mark_associated-keeps_count (find same_site h.fm marked) pkey
      (record h { fault_set = insert same_site h.fault_set marked }) st₁ r rest
    ∙ count_fault-keeps_count st alloc st₁ counted

pub add_fault_alloc-keeps_count :
    (h : Handler) (st : Stats) (p pkey : ℕ) (r : Handler × Stats)
    → add_fault_alloc h st p pkey ≡ ok r
    → r.1.alloc_site_count ≡ st.alloc_site_count
unfolding add_fault_alloc
add_fault_alloc-keeps_count h st p pkey r e =
    let (alloc, found, rest) = >>=_returned _ (get_alloc_site h p) e in
    elim (Bool-cases (is_valid alloc)) [
      | inl valid ↦ mark_fault-keeps_count alloc pkey h st r (rw valid at rest)
      | inr invalid ↦
          let same : ok (h, st) ≡ ok r = rw invalid at rest in
          let e' : (h, st) ≡ r = cc in ap (λ (t : Handler × Stats). t.1.alloc_site_count) (sym e')
    ]
