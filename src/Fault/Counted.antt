-- ===== src/Fault/Counted.antt =====
-- The sites of the live blocks and of the realloc chains have counters, as the statistics of
-- `addFaultAlloc` assert.
use ia2_provsan.Base.{
  ℕ, ◌≡◌, refl, sym, ◌∙◌, subst, Bool, true, false, inl, inr, Option, none, some, List, arith,
  if◌then◌else◌, Bool-cases,
}
use ia2_provsan.Containers.Hashed.{contains, insert, find, find-emplace}
use ia2_provsan.Site.{AllocSite, same_site, is_valid, contains_ptr}
use ia2_provsan.Handler.{Handler, extended, update_realloc_chain}
use ia2_provsan.Handler.Faults.{IsCounted, AllCounted, same_site-IsEquivalence}
use ia2_provsan.Hooks.Sites.{made}
use ia2_provsan.Hooks.Heap.{
  View, place, drop, Call, Step, alloc, realloc, realloc_foreign, dealloc, dealloc_foreign,
}
use ia2_provsan.Fault.Kept.{CallCounted, with_chain}

some_same {ℓ} : {A : Type ℓ} {a b : A} → some a ≡ some b → a ≡ b
some_same e = cc

place_counted :
    (n : ℕ) (v : View) (s : AllocSite)
    → IsCounted n s
    → ((p : ℕ) → is_valid (v p) ≡ true → IsCounted n (v p))
    → (p : ℕ) → is_valid (place v s p) ≡ true
    → IsCounted n (place v s p)
place_counted n v s own live p valid = elim (Bool-cases (contains_ptr s p)) [
  | inl inside ↦ rw inside own
  | inr outside ↦ rw outside (live p (rw outside at valid))
]

drop_counted :
    (n : ℕ) (v : View) (s : AllocSite)
    → ((p : ℕ) → is_valid (v p) ≡ true → IsCounted n (v p))
    → (p : ℕ) → is_valid (drop v s p) ≡ true
    → IsCounted n (drop v s p)
unfolding is_valid
drop_counted n v s live p valid = elim (Bool-cases (contains_ptr s p)) [
  | inl inside ↦ absurd (ground (arith, inside))
  | inr outside ↦ rw outside (live p (rw outside at valid))
]

pub Step_counted :
    (n : ℕ) (v u : View) (c : Call)
    → Step v c u
    → CallCounted n c
    → ((p : ℕ) → is_valid (v p) ≡ true → IsCounted n (v p))
    → (p : ℕ) → is_valid (u p) ≡ true
    → IsCounted n (u p)
Step_counted n v u c (alloc {ptr} {n = size} {id} {bb_name} {func_name} range vacant) own live =
    place_counted n v (made ptr size id bb_name func_name false) own live
Step_counted n v u c
      (realloc {new_ptr} {n = size} {old_ptr} {id} {old_size} {bb_name} {func_name} valid start
        range vacant)
      own live =
    place_counted n (drop v (v old_ptr)) (made new_ptr size id bb_name func_name true) own
      (drop_counted n v (v old_ptr) live)
Step_counted n v u c
      (realloc_foreign {new_ptr} {n = size} {old_ptr} {id} {old_size} {bb_name} {func_name} invalid
        range vacant)
      own live =
    place_counted n v (made new_ptr size id bb_name func_name false) own live
Step_counted n v u c (dealloc {ptr} valid start) own live = drop_counted n v (v ptr) live
Step_counted n v u c (dealloc_foreign invalid) own live = live

insert_counted :
    (n : ℕ) (chain : List AllocSite) (s : AllocSite)
    → IsCounted n s
    → AllCounted n chain
    → AllCounted n (insert same_site chain s)
unfolding insert
insert_counted n chain s own all = elim (Bool-cases (contains same_site chain s)) [
  | inl there ↦ rw there all
  | inr new ↦ rw new (own, all)
]

extended_counted :
    (n : ℕ) (o : Option (List AllocSite)) (s : AllocSite)
    → IsCounted n s
    → ((chain : List AllocSite) → o ≡ some chain → AllCounted n chain)
    → AllCounted n (extended o s)
extended_counted n none s own all = (own, tt)
extended_counted n (some chain) s own all = insert_counted n chain s own (all chain refl)

-- The entry of a key after `emplace`.
entry_counted :
    (n : ℕ) (same : Bool) (first other : Option (List AllocSite)) (new chain : List AllocSite)
    → AllCounted n new
    → ((c : List AllocSite) → first ≡ some c → AllCounted n c)
    → ((c : List AllocSite) → other ≡ some c → AllCounted n c)
    → (if same then some (elim first [ none ↦ new | some older ↦ older ]) else other) ≡ some chain
    → AllCounted n chain
entry_counted n true none other new chain fresh old rest e =
    subst (AllCounted n) (some_same e) fresh
entry_counted n true (some older) other new chain fresh old rest e =
    subst (AllCounted n) (some_same e) (old older refl)
entry_counted n false first other new chain fresh old rest e = rest chain e

update_realloc_chain_counted :
    (n : ℕ) (h : Handler) (old_site site : AllocSite)
    → IsCounted n old_site
    → ((key : AllocSite) (chain : List AllocSite)
        → find same_site h.fm key ≡ some chain
        → AllCounted n chain)
    → (key : AllocSite) (chain : List AllocSite)
    → find same_site (update_realloc_chain h old_site site).fm key ≡ some chain
    → AllCounted n chain
unfolding update_realloc_chain
update_realloc_chain_counted n h old_site site own all key chain e =
    let new = extended (find same_site h.fm old_site) old_site in
    entry_counted n (same_site site key) (find same_site h.fm site) (find same_site h.fm key) new
      chain (extended_counted n (find same_site h.fm old_site) old_site own (all old_site))
      (all site) (all key)
      (sym (find-emplace same_site same_site-IsEquivalence h.fm site key new) ∙ e)

pub with_chain_counted :
    {v u : View} {c : Call} (n : ℕ) (h : Handler) (step : Step v c u)
    → ((p : ℕ) → is_valid (v p) ≡ true → IsCounted n (v p))
    → ((key : AllocSite) (chain : List AllocSite)
        → find same_site h.fm key ≡ some chain
        → AllCounted n chain)
    → (key : AllocSite) (chain : List AllocSite)
    → find same_site (with_chain step h).fm key ≡ some chain
    → AllCounted n chain
unfolding with_chain
with_chain_counted n h (alloc range vacant) live all = all
with_chain_counted {v} n h
      (realloc {new_ptr} {n = size} {old_ptr} {id} {bb_name} {func_name} valid start range vacant)
      live all =
    update_realloc_chain_counted n h (v old_ptr) (made new_ptr size id bb_name func_name true)
      (live old_ptr valid) all
with_chain_counted n h (realloc_foreign invalid range vacant) live all = all
with_chain_counted n h (dealloc valid start) live all = all
with_chain_counted n h (dealloc_foreign invalid) live all = all
