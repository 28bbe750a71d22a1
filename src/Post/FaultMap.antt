-- ===== src/Post/FaultMap.antt =====
-- What the fault map holds: for a function and a number, the first site of the profile with both.
use ia2_provsan.Base.{
  ℕ, ◌≡◌, ◌≢◌, refl, sym, ◌∙◌, String, Option, none, some, List, [], ◌∷◌, ◌++◌, arith,
}
use ia2_provsan.Base.{
  str_eq, str_eq_iff, if◌then◌else◌, ◌==◌, ◌&&◌, not, ◌%◌, ◌^◌, Bool-cases, inl, inr,
}
use ia2_provsan.Base.{Bool, true, false, ap, ◌⊎◌}
use mathlib.Core.Path.{fun_ext}
use ia2_provsan.Base.Int.{ℤ, pos, negsuc}
use ia2_provsan.Base.Outcome.{ok, fails, null_dereferenced, ◌>>=◌}
use ia2_provsan.Containers.Sorted.{
  Sorted, lookup, Ascending, older_or, lookup-emplace-Ascending, emplace-Ascending,
}
use ia2_provsan.Post.Profile.{
  FaultingSite, FaultMap, find_function, add_site, Json, from_json, Files, get_fault_paths,
  parse_json_array_file, array_or_nil, add_read, add_values, add_files, get_faulting_alloc_map,
}

abbrev pub in_function : Option (Sorted FaultingSite) → ℕ → Option FaultingSite
in_function none i = none
in_function (some sites) i = lookup i sites

-- What the pass looks up for hook `i` of a function.
abbrev pub site_at : FaultMap → String → ℕ → Option FaultingSite
site_at m f i = in_function (find_function m f) i

abbrev AllAscending : FaultMap → Type 0
AllAscending [] = Unit {0}
AllAscending ((f, sites) ∷ m) = Ascending sites × AllAscending m

add_site-AllAscending :
    (m : FaultMap) (fs : FaultingSite) → AllAscending m → AllAscending (add_site m fs)
unfolding add_site
add_site-AllAscending [] fs a = (emplace-Ascending fs.local_id fs [] tt, tt)
add_site-AllAscending ((f, sites) ∷ m) fs a =
    ground (arith, emplace-Ascending fs.local_id fs sites a.0, add_site-AllAscending m fs a.1)

site_at-add_site :
    (m : FaultMap) (fs : FaultingSite) (f : String) (i : ℕ)
    → AllAscending m
    → site_at (add_site m fs) f i ≡ (
        if str_eq fs.func_name f && i == fs.local_id
        then some (older_or (site_at m f i) fs)
        else site_at m f i)
unfolding add_site find_function lookup
site_at-add_site [] fs f i a = ground (arith, lookup-emplace-Ascending i fs.local_id fs [] tt)
site_at-add_site ((g, sites) ∷ m) fs f i a = ground (
  arith,
  lookup-emplace-Ascending i fs.local_id fs sites a.0,
  site_at-add_site m fs f i a.1,
  str_eq_iff g fs.func_name,
  str_eq_iff g f,
  str_eq_iff fs.func_name f,
)

-- The first site of a list with a function and a number.
unfoldable pub first_site : List FaultingSite → String → ℕ → Option FaultingSite
first_site [] f i = none
first_site (fs ∷ rest) f i =
    if str_eq fs.func_name f && i == fs.local_id then some fs else first_site rest f i

abbrev or_later : Option FaultingSite → Option FaultingSite → Option FaultingSite
or_later none later = later
or_later (some fs) later = some fs

abbrev push_read : Option FaultingSite → List FaultingSite → List FaultingSite
push_read none rest = rest
push_read (some fs) rest = fs ∷ rest

or_later-add_read :
    (o : Option FaultingSite) (m : FaultMap) (rest : List FaultingSite) (f : String) (i : ℕ)
    → AllAscending m
    → or_later (site_at (add_read m o) f i) (first_site rest f i)
      ≡ or_later (site_at m f i) (first_site (push_read o rest) f i)
unfolding first_site
or_later-add_read none m rest f i a = refl
or_later-add_read (some fs) m rest f i a = ground (arith, site_at-add_site m fs f i a)

add_read-AllAscending :
    (o : Option FaultingSite) (m : FaultMap) → AllAscending m → AllAscending (add_read m o)
add_read-AllAscending none m a = a
add_read-AllAscending (some fs) m a = add_site-AllAscending m fs a

or_later-none : (o : Option FaultingSite) → or_later o none ≡ o
or_later-none none = refl
or_later-none (some fs) = refl

module _ (J : Json) where
  -- A value's four fields have their types and are in range, and its numbers are those of the site.
  abbrev pub read_site :
      J.Value → Option ℤ → Option ℤ → Option String → Option String → Option FaultingSite
  read_site v (some (pos id)) (some (pos pkey)) (some bb_name) (some func_name) =
      if J.is_object v && not (str_eq bb_name "") && not (str_eq func_name "")
      then some (record {
        local_id = id % 2 ^ 64;
        pkey = pkey % 2 ^ 32;
        bb_name = bb_name;
        func_name = func_name;
      })
      else none
  read_site v _ _ _ _ = none

  -- The site that a value is, if it is one.
  abbrev pub site_of : J.Value → Option FaultingSite
  site_of v =
      read_site v (J.map_int v "id") (J.map_int v "pkey") (J.map_string v "bbName")
        (J.map_string v "funcName")

  -- The values that are sites, in order.
  unfoldable pub read_sites : List J.Value → List FaultingSite
  read_sites [] = []
  read_sites (v ∷ vs) = push_read (site_of v) (read_sites vs)

  from_json_cases :
      (junk_id junk_pkey : ℤ) (v : J.Value) (id pkey : Option ℤ) (bb_name func_name : Option String)
      → J.is_object v ≡ true
      → J.map_int v "id" ≡ id
      → J.map_int v "pkey" ≡ pkey
      → J.map_string v "bbName" ≡ bb_name
      → J.map_string v "funcName" ≡ func_name
      → from_json J junk_id junk_pkey v ≡ ok (read_site v id pkey bb_name func_name)
  unfolding from_json
  from_json_cases junk_id junk_pkey v (some (pos id)) (some (pos pkey)) (some b) (some f) o p q r
        s =
      rw (o, p, q, r, s) (ground arith)
  from_json_cases junk_id junk_pkey v (some (negsuc n)) pkey b f o p q r s = rw (o, p)
  from_json_cases junk_id junk_pkey v (some (pos n)) (some (negsuc k)) b f o p q r s = rw (o, p, q)
  from_json_cases junk_id junk_pkey v _ _ _ _ o p q r s = ground arith

  from_json_other :
      (junk_id junk_pkey : ℤ) (v : J.Value)
      → J.is_object v ≡ false
      → from_json J junk_id junk_pkey v ≡ fails null_dereferenced
  unfolding from_json
  from_json_other junk_id junk_pkey v other = rw other refl

  -- Whatever the uninitialised variables hold, `fromJSON` accepts an object exactly when its four
  -- fields have their types, the numbers are not negative and the names not empty, and then gives
  -- these fields. For a value that is no object it dereferences a null pointer.
  pub from_json-read_site :
      (junk_id junk_pkey : ℤ) (v : J.Value)
      → from_json J junk_id junk_pkey v
        ≡ (if J.is_object v then ok (site_of v) else fails null_dereferenced)
  from_json-read_site junk_id junk_pkey v = elim (Bool-cases (J.is_object v)) [
    | inl object ↦
        from_json_cases junk_id junk_pkey v _ _ _ _ object refl refl refl refl ∙ rw object refl
    | inr other ↦ from_json_other junk_id junk_pkey v other ∙ rw other refl
  ]

  unfoldable pub all_objects : List J.Value → Bool
  all_objects [] = true
  all_objects (v ∷ vs) = J.is_object v && all_objects vs

  -- The values of all the files of a profile, in the order in which they are read.
  unfoldable pub all_values : Files → List String → List J.Value
  all_values fs [] = []
  all_values fs (path ∷ paths) =
      array_or_nil J (parse_json_array_file J (fs.get_file path)) ++ all_values fs paths

  module _ (fs : Files) (junk_id junk_pkey : ℤ) where
    -- The map with the sites among the values.
    loaded : FaultMap → List J.Value → FaultMap
    loaded m [] = m
    loaded m (v ∷ vs) = loaded (add_read m (site_of v)) vs

    add_values-loaded :
        (m : FaultMap) (vs : List J.Value)
        → add_values J junk_id junk_pkey m vs
          ≡ (if all_objects vs then ok (loaded m vs) else fails null_dereferenced)
    unfolding add_values all_objects loaded
    add_values-loaded m [] = refl
    add_values-loaded m (v ∷ vs) = elim (Bool-cases (J.is_object v)) [
      | inl object ↦
          rw (from_json-read_site junk_id junk_pkey v, object)
            (add_values-loaded (add_read m (site_of v)) vs)
      | inr other ↦ rw (from_json-read_site junk_id junk_pkey v, other) refl
    ]

    add_values-append :
        (m : FaultMap) (vs ws : List J.Value)
        → add_values J junk_id junk_pkey m (vs ++ ws)
          ≡ (add_values J junk_id junk_pkey m vs >>= λ m'. add_values J junk_id junk_pkey m' ws)
    unfolding add_values
    add_values-append m [] ws = refl
    add_values-append m (v ∷ vs) ws = elim (Bool-cases (J.is_object v)) [
      | inl object ↦
          rw (from_json-read_site junk_id junk_pkey v, object)
            (add_values-append (add_read m (site_of v)) vs ws)
      | inr other ↦ rw (from_json-read_site junk_id junk_pkey v, other) refl
    ]

    add_files-all_values :
        (m : FaultMap) (paths : List String)
        → add_files J junk_id junk_pkey fs m paths
          ≡ add_values J junk_id junk_pkey m (all_values fs paths)
    unfolding add_files all_values
    add_files-all_values m [] = unfold add_values in refl
    add_files-all_values m (path ∷ paths) =
        let vs = array_or_nil J (parse_json_array_file J (fs.get_file path)) in
        ap (λ next. add_values J junk_id junk_pkey m vs >>= next)
          (fun_ext (λ m'. add_files-all_values m' paths))
        ∙ sym (add_values-append m vs (all_values fs paths))

    site_at-loaded :
        (m : FaultMap) (vs : List J.Value) (f : String) (i : ℕ)
        → AllAscending m
        → site_at (loaded m vs) f i ≡ or_later (site_at m f i) (first_site (read_sites vs) f i)
    unfolding loaded read_sites
    site_at-loaded m [] f i a = unfold first_site in sym (or_later-none (site_at m f i))
    site_at-loaded m (v ∷ vs) f i a =
        site_at-loaded (add_read m (site_of v)) vs f i (add_read-AllAscending (site_of v) m a)
        ∙ or_later-add_read (site_of v) m (read_sites vs) f i a

    start :
        (f : String) (i : ℕ) (later : Option FaultingSite) → or_later (site_at [] f i) later ≡ later
    unfolding find_function
    start f i later = refl

    -- For a profile path that is not empty, let the arrays of the files hold objects only: then the
    -- pass makes a fault map, and it has for a function and a number the first acceptable value, in
    -- the files in their order, with both, and nothing if there is none. Otherwise the pass
    -- dereferences a null pointer. What the uninitialised variables hold does not matter.
    pub site_at-get_faulting_alloc_map :
        (profile_path : String)
        → profile_path ≢ ""
        → let values = all_values fs (get_fault_paths fs profile_path) in
          ((all_objects values ≡ true)
            × (m : FaultMap) × (get_faulting_alloc_map J junk_id junk_pkey fs profile_path ≡ ok m)
            × ((f : String) (i : ℕ) → site_at m f i ≡ first_site (read_sites values) f i))
          ⊎ ((all_objects values ≡ false)
              × (get_faulting_alloc_map J junk_id junk_pkey fs profile_path
                  ≡ fails null_dereferenced))
    unfolding get_faulting_alloc_map
    site_at-get_faulting_alloc_map profile_path given =
        let paths = get_fault_paths fs profile_path in
        let values = all_values fs paths in
        let loads = add_files-all_values [] paths ∙ add_values-loaded [] values in
        elim (Bool-cases (str_eq profile_path "")) [
          | inl empty ↦ absurd (given ((str_eq_iff profile_path "").0 empty))
          | inr path ↦ elim (Bool-cases (all_objects values)) [
            | inl objects ↦ inl (
              objects,
              loaded [] values,
              rw (path, loads, objects) refl,
              λ f i. site_at-loaded [] values f i tt ∙ start f i _,
            )
            | inr others ↦ inr (others, rw (path, loads, others) refl)
          ]
        ]
