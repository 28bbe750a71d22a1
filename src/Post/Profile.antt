-- ===== src/Post/Profile.antt =====
-- Reading profiles: `fromJSON`, `getFaultPaths`, `parseJSONArrayFile` and `getFaultingAllocMap` of
-- DynUntrustedAllocPost.cpp. LLVM's JSON values with their ObjectMapper and the file system are
-- parameters.
use ia2_provsan.Base.{
  ℕ, ◌%◌, ◌^◌, String, Bool, true, false, ◌&&◌, Option, none, some, List, [], ◌∷◌,
}
use ia2_provsan.Base.{str_eq, if◌then◌else◌, not}
use ia2_provsan.Base.Int.{ℤ, is_nonneg, to_u64, magnitude}
use ia2_provsan.Base.Outcome.{Outcome, ok, fails, null_dereferenced, ◌>>=◌}
use ia2_provsan.Containers.Sorted
use ia2_provsan.Containers.Sorted.{Sorted}

pub record FaultingSite : Type 0 where
  pub local_id : ℕ
  pub pkey : ℕ
  pub bb_name : String
  pub func_name : String

-- `std::map<std::string, std::map<uint64_t, FaultingSite>>`
abbrev pub FaultMap : Type 0
FaultMap = List (String × Sorted FaultingSite)

-- `find(name)`
unfoldable pub find_function : FaultMap → String → Option (Sorted FaultingSite)
find_function [] name = none
find_function ((f, sites) ∷ m) name = if str_eq f name then some sites else find_function m name

-- The body of the loop: the function's map is made if it is missing, and a site of the same
-- number stays as it is.
unfoldable pub add_site : FaultMap → FaultingSite → FaultMap
add_site [] fs = (fs.func_name, Sorted.emplace fs.local_id fs []) ∷ []
add_site ((f, sites) ∷ m) fs =
    if str_eq f fs.func_name
    then (f, Sorted.emplace fs.local_id fs sites) ∷ m
    else (f, sites) ∷ add_site m fs

abbrev pub add_read : FaultMap → Option FaultingSite → FaultMap
add_read m none = m
add_read m (some site) = add_site m site

-- LLVM's JSON: `parse` with its errors, the array that a value is, and `map` of an ObjectMapper,
-- which gives a field if it has the type that is asked for.
pub record Json : Type 1 where
  pub Value : Type 0
  pub parse : String → Option Value
  pub get_as_array : Value → Option (List Value)
  pub is_object : Value → Bool
  pub map_int : Value → String → Option ℤ
  pub map_string : Value → String → Option String

abbrev is_some {ℓ} : {A : Type ℓ} → Option A → Bool
is_some none = false
is_some (some a) = true

-- A local variable that `map` leaves as it was where it fails.
abbrev or_left {ℓ} : {A : Type ℓ} → Option A → A → A
or_left none a = a
or_left (some b) a = b

-- The file system: the directory test, the paths of a directory with their lower-case extensions,
-- and `getFile` of a MemoryBuffer, `none` for an error.
pub record Files : Type 0 where
  pub is_directory : String → Bool
  pub entries : String → List (String × String)
  pub get_file : String → Option String

json_paths : List (String × String) → List String
json_paths [] = []
json_paths ((path, extension) ∷ rest) =
    if str_eq extension ".json" then path ∷ json_paths rest else json_paths rest

unfoldable pub get_fault_paths : Files → String → List String
unfolding json_paths
get_fault_paths fs profile_path =
    if fs.is_directory profile_path then json_paths (fs.entries profile_path) else profile_path ∷ []

module _ (J : Json) where
  -- `fromJSON`; the two numbers are what the uninitialised `temp_id` and `temp_pkey` hold. The
  -- ObjectMapper of a value that is no object has a null object, which `map` dereferences.
  unfoldable pub from_json : ℤ → ℤ → J.Value → Outcome (Option FaultingSite)
  from_json junk_id junk_pkey v =
      let temp_id = or_left (J.map_int v "id") junk_id in
      let temp_pkey = or_left (J.map_int v "pkey") junk_pkey in
      let temp_bb_name = or_left (J.map_string v "bbName") "" in
      let temp_func_name = or_left (J.map_string v "funcName") "" in
      if not (J.is_object v)
      then fails null_dereferenced
      else if not (is_nonneg temp_id)
      then ok none
      else if not (is_nonneg temp_pkey)
      then ok none
      else if str_eq temp_bb_name ""
      then ok none
      else if str_eq temp_func_name ""
      then ok none
      else if J.is_object v
          && is_some (J.map_int v "id")
          && is_some (J.map_int v "pkey")
          && is_some (J.map_string v "bbName")
          && is_some (J.map_string v "funcName")
      then ok (
          some (record {
            local_id = to_u64 temp_id;
            pkey = magnitude temp_pkey % 2 ^ 32;
            bb_name = temp_bb_name;
            func_name = temp_func_name;
          }))
      else ok none

  -- `getAsArray`, where the text parses.
  abbrev array_in : Option J.Value → Option (List J.Value)
  array_in none = none
  array_in (some v) = J.get_as_array v

  -- `parseJSONArrayFile`, of the buffer that `getFile` gives: it gives none on an error of the file,
  -- on one of the parser, and for a value that is no array.
  unfoldable pub parse_json_array_file : Option String → Option (List J.Value)
  parse_json_array_file none = none
  parse_json_array_file (some buffer) = array_in (J.parse buffer)

  -- A file that does not parse is skipped.
  abbrev pub array_or_nil : Option (List J.Value) → List J.Value
  array_or_nil none = []
  array_or_nil (some vs) = vs

  module _ (junk_id junk_pkey : ℤ) where
    unfoldable pub add_values : FaultMap → List J.Value → Outcome FaultMap
    add_values m [] = ok m
    add_values m (v ∷ vs) =
        from_json junk_id junk_pkey v >>= λ read. add_values (add_read m read) vs

    module _ (fs : Files) where
      unfoldable pub add_files : FaultMap → List String → Outcome FaultMap
      add_files m [] = ok m
      add_files m (path ∷ paths) =
          add_values m (array_or_nil (parse_json_array_file (fs.get_file path))) >>= λ m'.
          add_files m' paths

      unfoldable pub get_faulting_alloc_map : String → Outcome FaultMap
      get_faulting_alloc_map profile_path =
          if str_eq profile_path "" then ok [] else add_files [] (get_fault_paths fs profile_path)
