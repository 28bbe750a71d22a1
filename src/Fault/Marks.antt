-- ===== src/Fault/Marks.antt =====
-- `FM` and the fault set of Runtime/alloc_site_handler.cpp against the marks of a history.
use ia2_provsan.Base.{
  ℕ, ◌≡◌, refl, sym, ◌∙◌, ap, Bool, true, false, ◌||◌, if◌then◌else◌, Option, none, some, List,
}
use ia2_provsan.Containers.Hashed.{contains, find, find-emplace}
use ia2_provsan.Site.{AllocSite, same_site}
use ia2_provsan.Handler.{Handler, extended, update_realloc_chain}
use ia2_provsan.Handler.Faults.{same_site-IsEquivalence, associated, in_chain, FaultMarks}
use ia2_provsan.Handler.Search.{owner}
use ia2_provsan.Hooks.Sites.{made}
use ia2_provsan.Hooks.Heap.{
  View, Call, Step, alloc, realloc, realloc_foreign, dealloc, dealloc_foreign,
}
use ia2_provsan.Hooks.Reallocs.{inherits, or_first, in_chain-update_realloc_chain}
use ia2_provsan.Fault.Kept.{with_chain}
use ia2_provsan.Fault.History.{Marks, grow, after_call, fault}

abbrev has_entry : Option (List AllocSite) → Bool
has_entry none = false
has_entry (some chain) = true

-- The handler has the chains and the faults of the marks.
pub record Agrees (h : Handler) (m : Marks) : Type 0 where
  pub grown : (key : AllocSite) → has_entry (find same_site h.fm key) ≡ m.grown key
  pub chain : (key x : AllocSite) → in_chain h key x ≡ m.chain key x
  pub faulty : (x : AllocSite) → contains same_site h.fault_set x ≡ m.faulty x

has_entry_if :
    (b : Bool) (s : List AllocSite) (o : Option (List AllocSite))
    → has_entry (if b then some s else o) ≡ (b || has_entry o)
has_entry_if true s o = refl
has_entry_if false s o = refl

or_first_if :
    (o : Option (List AllocSite)) (first : Bool) (x : AllocSite)
    → or_first o first x ≡ (if has_entry o then associated o x else first)
or_first_if none first x = refl
or_first_if (some chain) first x = refl

update_realloc_chain_grown :
    (h : Handler) (old_site site key : AllocSite)
    → has_entry (find same_site (update_realloc_chain h old_site site).fm key)
      ≡ (same_site site key || has_entry (find same_site h.fm key))
unfolding update_realloc_chain
update_realloc_chain_grown h old_site site key =
    let new = extended (find same_site h.fm old_site) old_site in
    ap has_entry (find-emplace same_site same_site-IsEquivalence h.fm site key new)
    ∙ has_entry_if (same_site site key)
        (elim (find same_site h.fm site) [ none ↦ new | some older ↦ older ])
        (find same_site h.fm key)

update_realloc_chain-Agrees :
    (h : Handler) (m : Marks) (old_site site : AllocSite)
    → Agrees h m
    → Agrees (update_realloc_chain h old_site site) (grow old_site site m)
unfolding update_realloc_chain
update_realloc_chain-Agrees h m old_site site a = record {
  grown = λ key. rw (update_realloc_chain_grown h old_site site key, a.grown key) refl;
  chain = λ key x.
      in_chain-update_realloc_chain h old_site site key x
      ∙ rw
          (
            or_first_if (find same_site h.fm site) (inherits h old_site x) x,
            a.grown site,
            a.chain site x,
            a.chain old_site x,
            a.chain key x,
          )
          refl;
  faulty = a.faulty;
}

with_chain-Agrees :
    {v u : View} {c : Call} (step : Step v c u) (h : Handler) (m : Marks)
    → Agrees h m
    → Agrees (with_chain step h) (after_call step m)
unfolding with_chain after_call
with_chain-Agrees (alloc range vacant) h m a = a
with_chain-Agrees {v}
      (realloc {new_ptr} {n} {old_ptr} {id} {bb_name} {func_name} valid start range vacant) h m a =
    update_realloc_chain-Agrees h m (v old_ptr) (made new_ptr n id bb_name func_name true) a
with_chain-Agrees (realloc_foreign invalid range vacant) h m a = a
with_chain-Agrees (dealloc valid start) h m a = a
with_chain-Agrees (dealloc_foreign invalid) h m a = a

with_chain_fault_set :
    {v u : View} {c : Call} (step : Step v c u) (h : Handler)
    → (with_chain step h).fault_set ≡ h.fault_set
unfolding with_chain update_realloc_chain
with_chain_fault_set (alloc range vacant) h = refl
with_chain_fault_set (realloc valid start range vacant) h = refl
with_chain_fault_set (realloc_foreign invalid range vacant) h = refl
with_chain_fault_set (dealloc valid start) h = refl
with_chain_fault_set (dealloc_foreign invalid) h = refl

-- A hook takes the handler from the marks before it to those after it.
pub called-Agrees :
    {v u : View} {c : Call} (step : Step v c u) (h h' : Handler) (m : Marks)
    → h'.fm ≡ (with_chain step h).fm
    → h'.fault_set ≡ h.fault_set
    → Agrees h m
    → Agrees h' (after_call step m)
called-Agrees step h h' m chains same a =
    let b = with_chain-Agrees step h m a in
    record {
      grown = λ key. rw chains (b.grown key);
      chain = λ key x. rw chains (b.chain key x);
      faulty = λ x. rw (same, sym (with_chain_fault_set step h)) (b.faulty x);
    }

-- So does a violation, by the site of the live block that has its address.
pub violated-Agrees :
    (h h' : Handler) (v : View) (addr : ℕ) (m : Marks)
    → owner h.allocation_map addr ≡ v addr
    → FaultMarks h h' addr
    → Agrees h m
    → Agrees h' (fault (v addr) m)
violated-Agrees h h' v addr m own marks a =
    let maps = marks.same_maps in
    record {
      grown = λ key. rw maps.fm (a.grown key);
      chain = λ key x. rw maps.fm (a.chain key x);
      faulty = λ x. marks.marked x ∙ rw (own, a.faulty x, a.chain (v addr) x) refl;
    }
