-- ===== src/Fault/History.antt =====
-- Histories of the main thread, in which calls of the hooks of Runtime/alloc_site_handler.cpp and
-- violations come in any order, and what they come to, without maps: which sites have a realloc
-- chain, what the chains hold, and which sites are faulty.
use ia2_provsan.Base.{ℕ, ◌<◌, true, false, Bool, ◌&&◌, ◌||◌, if◌then◌else◌, List, [], ◌∷◌}
use ia2_provsan.Site.{AllocSite, same_site, is_valid}
use ia2_provsan.Hooks.Sites.{made}
use ia2_provsan.Hooks.Heap.{
  View, Call, Step, alloc, realloc, realloc_foreign, dealloc, dealloc_foreign,
}
use ia2_provsan.Fault.Kept.{CallCounted}

-- A call of a hook, or a violation: its address and its key, and the flags of the thread after the
-- instruction.
pub data Event : Type 0 where
  runs_hook : Call → Event
  violates : ℕ → ℕ → ℕ → Event

-- What a correct allocator and program do, with numbers that have counters, between violations at
-- any address of keys that there are.
pub data Events (n : ℕ) : View → List Event → View → Type 0 where
  ends : {v : View} → Events n v [] v
  called :
      {c : Call} {es : List Event} {v u w : View}
      → Step v c u
      → CallCounted n c
      → Events n u es w
      → Events n v (runs_hook c ∷ es) w
  violated :
      {addr pkey flags : ℕ} {es : List Event} {v w : View}
      → pkey < 16
      → Events n v es w
      → Events n v (violates addr pkey flags ∷ es) w

-- The sites that have a chain, the chains, and the faulty sites.
pub record Marks : Type 0 where
  pub grown : AllocSite → Bool
  pub chain : AllocSite → AllocSite → Bool
  pub faulty : AllocSite → Bool

abbrev pub no_marks : Marks
no_marks = record { grown = λ key. false; chain = λ key x. false; faulty = λ x. false }

-- A site that had no chain gets that of the old site and the old site; a chain stays as it is.
abbrev pub grow : AllocSite → AllocSite → Marks → Marks
grow old_site site m = record m {
  grown = λ key. same_site site key || m.grown key;
  chain = λ key x.
      if same_site site key
      then (if m.grown site then m.chain site x else m.chain old_site x || same_site old_site x)
      else m.chain key x;
}

-- Only the realloc of a live block adds to the chains.
unfoldable pub after_call : {v u : View} {c : Call} → Step v c u → Marks → Marks
after_call (alloc range vacant) m = m
after_call {v} (realloc {new_ptr} {n} {old_ptr} {id} {bb_name} {func_name} valid start range vacant)
      m =
    grow (v old_ptr) (made new_ptr n id bb_name func_name true) m
after_call (realloc_foreign invalid range vacant) m = m
after_call (dealloc valid start) m = m
after_call (dealloc_foreign invalid) m = m

-- A violation in a live block makes its site and the site's chain faulty.
abbrev pub fault : AllocSite → Marks → Marks
fault site m = record m {
  faulty = λ x. m.faulty x || (is_valid site && (same_site site x || m.chain site x));
}

-- The marks at the end of a history.
unfoldable pub after : {n : ℕ} {v w : View} {es : List Event} → Events n v es w → Marks → Marks
after ends m = m
after (called step counted rest) m = after rest (after_call step m)
after (violated {addr} {v = v} small rest) m = after rest (fault (v addr) m)
