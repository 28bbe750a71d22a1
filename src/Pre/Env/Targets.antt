-- ===== src/Pre/Env/Targets.antt =====
-- What the environment makes the pass track.
use Prim.Native.String.{String, count}
use ia2_provsan.Base.{
  suc, Bool, true, false, Option, List, ◌++◌, str_eq, ◌≡◌, refl, ◌∙◌, arith, ◌||◌, ◌&&◌, str_eq_iff,
  Bool-cases, inl, inr,
}
use ia2_provsan.Base.Outcome.{ok}
use ia2_provsan.Post.Ir.{Function}
use ia2_provsan.Post.Patch.{has_function}
use ia2_provsan.Pre.Env.{
  value_or_empty, populate_from_env, found_function, get_target_function_set, contains,
}
use ia2_provsan.Pre.Env.Tokens.{split, filled, str_to_vec-split}

abbrev pub names_or : Bool → String → String → List String
names_or true value fallback = List.◌∷◌ fallback List.[]
names_or false value fallback = filled (split b',' value)

-- `populateFromEnv` returns, and adds to the list: the fallback if the variable is unset or empty,
-- and else the parts of its value between commas that are not empty, which may be none.
pub populate_from_env-split :
    (getenv : String → Option String) (ins : List String) (env_var fallback : String)
    → let value = value_or_empty (getenv env_var) in
      populate_from_env getenv ins env_var fallback
      ≡ ok (ins ++ names_or (str_eq value "") value fallback)
unfolding populate_from_env
populate_from_env-split getenv ins env_var fallback =
    let value = value_or_empty (getenv env_var) in
    elim (Bool-cases (str_eq value "")) [
      | inl empty ↦ rw empty
      | inr filled_value ↦
          rw (filled_value, str_to_vec-split (suc (count value)) value b',' (omega arith))
    ]

unfoldable pub is_listed : List String → String → Bool
is_listed List.[] name = false
is_listed (List.◌∷◌ target targets) name = str_eq target name || is_listed targets name

pub contains-found :
    (found : Bool) (target name : String) (set : List (Option String))
    → contains (List.◌∷◌ (found_function found target) set) name
      ≡ ((found && str_eq target name) || contains set name)
unfolding contains
contains-found true target name set = refl
contains-found false target name set = refl

found_or :
    (m : List Function) (target name : String) (rest listed : Bool)
    → has_function m name ≡ true
    → rest ≡ listed
    → ((has_function m target && str_eq target name) || rest) ≡ (str_eq target name || listed)
found_or m target name rest listed there same = elim (Bool-cases (str_eq target name)) [
  | inl equal ↦
      let e = (str_eq_iff target name).0 equal in
      let known : has_function m target ≡ true = rw e there in rw (known, equal)
  | inr other ↦ rw (same, other) (ground arith)
]

-- A function of the module is in the target set exactly when its name is listed.
pub contains-get_target_function_set :
    (m : List Function) (targets : List String) (name : String)
    → has_function m name ≡ true
    → contains (get_target_function_set m targets) name ≡ is_listed targets name
unfolding get_target_function_set is_listed
contains-get_target_function_set m List.[] name there = unfold contains in refl
contains-get_target_function_set m (List.◌∷◌ target targets) name there =
    let ih = contains-get_target_function_set m targets name there in
    contains-found (has_function m target) target name (get_target_function_set m targets)
    ∙ found_or m target name _ _ there ih
