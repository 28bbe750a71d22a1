-- ===== src/Formatter/Counts.antt =====
-- The statistics of `writeUniqueFile`: a line for each site that faulted, and their number.
use Prim.Native.String.{◌++◌ as ◌<>◌}
use mathlib.Core.List.{append_assoc}
use text.Mathlib.TextLemmas.{append-nil, nil-append}
use text.Mathlib.TextLemmas.{append_assoc as text_assoc}
use ia2_provsan.Base.{
  ℕ, suc, ◌+◌, ◌^◌, ◌<◌, String, List, [], ◌∷◌, ◌++◌, ◌≡◌, refl, sym, ◌∙◌, arith, some, ltb,
  if◌then◌else◌, Bool-cases, inl, inr,
}
use ia2_provsan.Base.{subst}
use ia2_provsan.Base.Lists.{length, get_elem?, length-append}
use ia2_provsan.Base.Render.{to_string}
use ia2_provsan.Signals.{Stats, increment}
use ia2_provsan.Formatter.{site_lines, stats_text}

-- The counters that are not zero.
unfoldable pub used : List ℕ → ℕ
used [] = 0
used (n ∷ counters) = if ltb 0 n then suc (used counters) else used counters

-- Their lines, where the first counter is that of site `i`.
unfoldable pub lines_from : ℕ → List ℕ → String
lines_from i [] = ""
lines_from i (n ∷ counters) =
    if ltb 0 n
    then ("AllocSite(" <> to_string i <> ") faults: " <> to_string n <> "\n")
      <> lines_from (suc i) counters
    else lines_from (suc i) counters

get_elem?-middle :
    (seen : List ℕ) (n : ℕ) (rest : List ℕ) → get_elem? (seen ++ (n ∷ rest)) (length seen) ≡ some n
get_elem?-middle [] n rest = refl
get_elem?-middle (m ∷ seen) n rest = get_elem?-middle seen n rest

-- The loop from the site behind `n` on.
abbrev Continues : List ℕ → List ℕ → ℕ → String → ℕ → Type 0
Continues all counters i lines found =
    site_lines all (length counters) i lines found
    ≡ (lines <> lines_from i counters, found + used counters)

Continues-moved :
    (seen : List ℕ) (n : ℕ) (counters : List ℕ) (lines : String) (found : ℕ)
    → Continues ((seen ++ (n ∷ [])) ++ counters) counters (length (seen ++ (n ∷ []))) lines found
    → Continues (seen ++ (n ∷ counters)) counters (suc (length seen)) lines found
Continues-moved seen n counters lines found h =
    let last : length (seen ++ (n ∷ [])) ≡ suc (length seen) =
      omega (arith, length-append seen (n ∷ [])) in
    subst (λ i. Continues (seen ++ (n ∷ counters)) counters i lines found) last
      (subst (λ all. Continues all counters (length (seen ++ (n ∷ []))) lines found)
        (append_assoc seen (n ∷ []) counters) h)

site_lines-from :
    (seen counters : List ℕ) (lines : String) (found : ℕ)
    → found + used counters < 2 ^ 64
    → site_lines (seen ++ counters) (length counters) (length seen) lines found
      ≡ (lines <> lines_from (length seen) counters, found + used counters)
unfolding site_lines used lines_from
site_lines-from seen [] lines found few =
    let none_left : found + 0 ≡ found = omega arith in rw (append-nil lines, none_left)
site_lines-from seen (n ∷ counters) lines found few = elim (Bool-cases (ltb 0 n)) [
  | inl hit ↦
      let one : used (n ∷ counters) ≡ suc (used counters) = rw hit in
      let line = "AllocSite(" <> to_string (length seen) <> ") faults: " <> to_string n <> "\n" in
      let sum : increment found + used counters ≡ found + suc (used counters) = omega arith in
      rw (site_lines, get_elem?-middle seen n counters, lines_from, used, hit)
        (Continues-moved seen n counters (lines <> line) (increment found) (
            site_lines-from (seen ++ (n ∷ [])) counters (lines <> line) (increment found)
              (omega arith))
          ∙ rw (sum, text_assoc lines line (lines_from (suc (length seen)) counters)))
  | inr zero_count ↦
      let same : used (n ∷ counters) ≡ used counters = rw zero_count in
      rw (site_lines, get_elem?-middle seen n counters, lines_from, used, zero_count)
        (Continues-moved seen n counters lines found
          (site_lines-from (seen ++ (n ∷ [])) counters lines found (omega arith)))
]

-- With a counter for each site, fewer than 2 ^ 64 of them not zero, the statistics hold the three
-- counts of calls, a line with its number and its counter for each site whose counter is not zero,
-- in order, and the number of these sites.
pub stats_text_lines :
    (st : Stats)
    → length st.alloc_site_use_counter ≡ st.alloc_site_count
    → used st.alloc_site_use_counter < 2 ^ 64
    → stats_text st
      ≡ "Number of Times allocHook Called: "
        <> to_string st.alloc_hook_calls
        <> "\n"
        <> "Number of Times reallocHook Called: "
        <> to_string st.realloc_hook_calls
        <> "\n"
        <> "Number of Times deallocHook Called: "
        <> to_string st.dealloc_hook_calls
        <> "\n"
        <> lines_from 0 st.alloc_site_use_counter
        <> "Number of Unique AllocSites Found: "
        <> to_string (used st.alloc_site_use_counter)
        <> "\n"
unfolding stats_text
stats_text_lines st sized few =
    let start : 0 + used st.alloc_site_use_counter ≡ used st.alloc_site_use_counter = omega arith in
    rw (
      sym sized,
      site_lines-from [] st.alloc_site_use_counter "" 0 (omega arith),
      start,
      nil-append (lines_from 0 st.alloc_site_use_counter),
    )
