-- ===== src/Pre/Env.antt =====
-- `str_to_vec`, `populateFromEnv` and `GetTargetFunctionSet` of DynUntrustedAllocPre.cpp. The
-- positions `start` and `end` are the texts from there on; the delimiter is a character's code. The
-- environment is a parameter.
pub mod Tokens
pub mod Targets
use Prim.Native.Char.{Char, code}
use Prim.Native.String.{String, [], ◌∷◌, count}
use ia2_provsan.Base.{
  ℕ, zero, suc, Bool, true, false, Option, none, some, List, ◌++◌, ◌==◌, if◌then◌else◌, str_eq, map,
  ◌||◌,
}
use mathlib.Core.List
use ia2_provsan.Base.Outcome.{Outcome, ok, fails, unfinished, ◌>>=◌}
use ia2_provsan.Post.Ir.{Function}
use ia2_provsan.Post.Patch.{has_function}

-- `find_first_not_of(delim, end)`
unfoldable pub skip : ℕ → String → String
skip delim [] = []
skip delim (c ∷ s) = if code c == delim then skip delim s else c ∷ s

-- `substr(start, end - start)` and the text from `end = find(delim, start)` on.
unfoldable pub token : ℕ → String → String × String
token delim [] = ([], [])
token delim (c ∷ s) =
    let (t, rest) = token delim s in if code c == delim then ([], c ∷ s) else (c ∷ t, rest)

-- The loop, with the text from `end` on; it has as many rounds as it is given.
unfoldable pub next_tokens : ℕ → ℕ → String → List String → Outcome (List String)
next_tokens zero delim text ret = fails unfinished
next_tokens (suc rounds) delim text ret = elim (skip delim text) [
  | [] ↦ ok ret
  | c ∷ s ↦
      let (t, rest) = token delim (c ∷ s) in
      next_tokens rounds delim rest (ret ++ List.◌∷◌ t List.[])
]

unfoldable pub str_to_vec : ℕ → String → ℕ → Outcome (List String)
str_to_vec rounds str delim = next_tokens rounds delim str List.[]

-- `getenv`, with the empty text where it gives null.
abbrev pub value_or_empty : Option String → String
value_or_empty none = ""
value_or_empty (some value) = value

-- `populateFromEnv`, whose loop `str_to_vec` ends, as a text has fewer tokens than characters.
unfoldable pub populate_from_env :
    (String → Option String) → List String → String → String → Outcome (List String)
populate_from_env getenv ins env_var fallback =
    let a = value_or_empty (getenv env_var) in
    if str_eq a ""
    then ok (ins ++ List.◌∷◌ fallback List.[])
    else do v ← str_to_vec (suc (count a)) a b','; ok (ins ++ v)

abbrev pub found_function : Bool → String → Option String
found_function true name = some name
found_function false name = none

-- `GetTargetFunctionSet`: a name that the module does not have puts the null pointer in the set.
unfoldable pub get_target_function_set : List Function → List String → List (Option String)
get_target_function_set m targets = map (λ name. found_function (has_function m name) name) targets

-- `contains`, for a function of the module.
unfoldable pub contains : List (Option String) → String → Bool
contains List.[] name = false
contains (List.◌∷◌ none set) name = contains set name
contains (List.◌∷◌ (some target) set) name = str_eq target name || contains set name
