-- ===== src/Formatter/Json.antt =====
-- `writeJSON`: the loop that counts the items down writes the array with its commas in between.
use Prim.Native.String.{◌++◌ as ◌<>◌}
use text.Mathlib.TextLemmas.{append_assoc}
use ia2_provsan.Base.{ℕ, suc, ◌-◌, ◌==◌, false, List, [], ◌∷◌, map, ◌≡◌, refl, sym, ◌∙◌, ap, arith}
use ia2_provsan.Base.Lists.{length}
use ia2_provsan.Base.Render.{join}
use ia2_provsan.Site.{AllocSite}
use ia2_provsan.Formatter.{json_item, json_items, write_json}

-- Before an item that is not the last.
json_items-more :
    (fault : AllocSite) (faults : List AllocSite) (n : ℕ)
    → json_items (fault ∷ faults) (suc (suc n))
      ≡ json_item fault <> ",\n" <> json_items faults (suc n)
unfolding json_items
json_items-more fault faults n =
    let left : suc (suc n) - 1 ≡ suc n = omega arith in
    let more : (suc n == 0) ≡ false = ground arith in
    rw (left, more) (ap (λ t. json_item fault <> t) (sym (append_assoc "," "\n" _)))

json_items-join :
    (fault : AllocSite) (faults : List AllocSite)
    → json_items (fault ∷ faults) (length (fault ∷ faults))
      ≡ join ",\n" (json_item fault) (map json_item faults) <> "\n"
unfolding join
json_items-join fault [] = unfold json_items in refl
json_items-join fault (next ∷ faults) =
    json_items-more fault (next ∷ faults) (length faults)
    ∙ ap (λ t. json_item fault <> ",\n" <> t) (json_items-join next faults)
    ∙ ap (λ t. json_item fault <> t) (sym (append_assoc ",\n" _ "\n"))
    ∙ sym (append_assoc (json_item fault) _ "\n")

-- The profile of a fault set that is not empty is an array of its items in their order, with a
-- comma after each but the last.
pub write_json-join :
    (fault : AllocSite) (faults : List AllocSite)
    → write_json (fault ∷ faults)
      ≡ "[\n" <> join ",\n" (json_item fault) (map json_item faults) <> "\n]\n"
unfolding write_json
write_json-join fault faults =
    let more : (suc (length faults) == 0) ≡ false = ground arith in
    rw (more, json_items-join fault faults)
      (ap (λ t. "[\n" <> t) (append_assoc (join ",\n" (json_item fault) _) "\n" "]\n"))
