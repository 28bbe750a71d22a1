-- ===== src/Formatter/Fields.antt =====
-- The text of a profile as JSON: what `writeJSON` writes for a site is an object with the site's
-- fields, and what it writes for a fault set an array of these.
use Prim.Native.String.{◌++◌ as ◌<>◌}
use mathlib.Core.Path.{fun_ext}
use text.Mathlib.TextLemmas.{append_assoc}
use ia2_provsan.Base.{String, Bool, if◌then◌else◌, List, [], ◌∷◌, map, ◌≡◌, refl, sym, ◌∙◌, ap}
use ia2_provsan.Base.Int.{ℤ, pos}
use ia2_provsan.Base.Render.{join, to_string, int_to_string}
use ia2_provsan.Site.{AllocSite}
use ia2_provsan.Formatter.{json_item, write_json}
use ia2_provsan.Formatter.Json.{write_json-join}

-- A string stands for itself: it has no character that JSON escapes.
pub data Field : Type 0 where
  integer : ℤ → Field
  string : String → Field
  boolean : Bool → Field

abbrev pub Fields : Type 0
Fields = List (String × Field)

abbrev key_text : String → String
key_text key = "\"" <> key <> "\": "

abbrev value_then : Field → String → String
value_then (integer n) rest = int_to_string n <> rest
value_then (string s) rest = "\"" <> s <> "\"" <> rest
value_then (boolean b) rest = (if b then "true" else "false") <> rest

abbrev members_then : Fields → String → String
members_then [] rest = rest
members_then ((key, value) ∷ []) rest = key_text key <> value_then value rest
members_then ((key, value) ∷ next ∷ members) rest =
    key_text key <> value_then value (", " <> members_then (next ∷ members) rest)

-- An object, and an array of objects that is not empty, a line for each.
abbrev pub object_text : Fields → String
object_text members = "{ " <> members_then members " }"

abbrev pub array_text : Fields → List Fields → String
array_text first rest = "[\n" <> join ",\n" (object_text first) (map object_text rest) <> "\n]\n"

abbrev pub site_fields : AllocSite → Fields
site_fields s =
    ("id", integer s.local_id)
    ∷ ("pkey", integer (pos s.pkey))
    ∷ ("bbName", string s.bb_name)
    ∷ ("funcName", string s.func_name)
    ∷ ("isRealloc", boolean s.is_realloc)
    ∷ []

glue : (a b rest : String) → a <> (b <> rest) ≡ (a <> b) <> rest
glue a b rest = sym (append_assoc a b rest)

-- The text between two strings, in one piece.
glue_three : (a b c rest : String) → a <> (b <> (c <> rest)) ≡ (a <> b <> c) <> rest
glue_three a b c rest = ap (λ t. a <> t) (glue b c rest) ∙ glue a (b <> c) rest

json_item-object_text : (s : AllocSite) → object_text (site_fields s) ≡ json_item s
unfolding json_item int_to_string
json_item-object_text s =
    let last = (if s.is_realloc then "true" else "false") <> " }" in
    let in_func : String = s.func_name <> "\"" <> ", \"isRealloc\": " <> last in
    let in_block : String = s.bb_name <> "\", \"funcName\": \"" <> in_func in
    let e₅ : ", " <> ("\"isRealloc\": " <> last) ≡ ", \"isRealloc\": " <> last =
      glue ", " "\"isRealloc\": " last in
    let e₄ : "\"" <> (", " <> ("\"funcName\": " <> ("\"" <> in_func)))
        ≡ "\", \"funcName\": \"" <> in_func =
      ap (λ t. "\"" <> t) (glue_three ", " "\"funcName\": " "\"" in_func)
      ∙ glue "\"" ", \"funcName\": \"" in_func in
    let e₃ : ", " <> ("\"bbName\": " <> ("\"" <> in_block)) ≡ ", \"bbName\": \"" <> in_block =
      glue_three ", " "\"bbName\": " "\"" in_block in
    let pkey = to_string s.pkey in
    let after_id = pkey <> ", \"bbName\": \"" <> in_block in
    ap
      (λ t.
        "{ "
        <> "\"id\": "
        <> int_to_string s.local_id
        <> ", "
        <> "\"pkey\": "
        <> pkey
        <> ", "
        <> "\"bbName\": "
        <> "\""
        <> s.bb_name
        <> "\""
        <> ", "
        <> "\"funcName\": "
        <> "\""
        <> s.func_name
        <> "\""
        <> t)
      e₅
    ∙ ap
        (λ t.
          "{ "
          <> "\"id\": "
          <> int_to_string s.local_id
          <> ", "
          <> "\"pkey\": "
          <> pkey
          <> ", "
          <> "\"bbName\": "
          <> "\""
          <> s.bb_name
          <> t)
        e₄
    ∙ ap (λ t. "{ " <> "\"id\": " <> int_to_string s.local_id <> ", " <> "\"pkey\": " <> pkey <> t)
        e₃
    ∙ ap (λ t. "{ " <> "\"id\": " <> int_to_string s.local_id <> t)
        (glue ", " "\"pkey\": " after_id)
    ∙ glue "{ " "\"id\": " (int_to_string s.local_id <> ", \"pkey\": " <> after_id)

pub write_json-array_text :
    (fault : AllocSite) (faults : List AllocSite)
    → write_json (fault ∷ faults) ≡ array_text (site_fields fault) (map site_fields faults)
write_json-array_text fault faults =
    write_json-join fault faults
    ∙ ap (λ item. "[\n" <> join ",\n" (item fault) (map item faults) <> "\n]\n")
        (sym (fun_ext json_item-object_text))
    ∙ ap (λ texts. "[\n" <> join ",\n" (object_text (site_fields fault)) texts <> "\n]\n")
        (map_twice faults)
  where
    map_twice :
        (l : List AllocSite)
        → map (λ s. object_text (site_fields s)) l ≡ map object_text (map site_fields l)
    map_twice [] = refl
    map_twice (s ∷ l) = ap (λ rest. object_text (site_fields s) ∷ rest) (map_twice l)
