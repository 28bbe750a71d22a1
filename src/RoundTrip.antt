-- ===== src/RoundTrip.antt =====
-- From the runtime to the pass: Runtime/provsan_formatter.cpp writes a profile that
-- Passes/DynUntrustedAllocPost reads. LLVM's JSON parser is a parameter, and so is the list of a
-- directory's entries.
pub mod Direct
pub mod Reports
pub mod Rebuild
pub mod Profiling
pub mod Cycle
use mathlib.Core.List.{append-nil}
use text.Mathlib.TextLemmas.{append-eq-nil_iff}
use ia2_provsan.Base.{
  ℕ, ◌^◌, ◌%◌, ◌<◌, String, true, false, ◌&&◌, Option, none, some, List, [], ◌∷◌, ◌≡◌, ◌≢◌, refl,
  ◌∙◌, ap, arith, ◌==◌, str_eq, if◌then◌else◌,
}
use ia2_provsan.Base.Int.{ℤ, pos, magnitude}
use ia2_provsan.Base.Outcome.{ok}
use ia2_provsan.Base.{map, inl, inr}
use ia2_provsan.Site.{AllocSite}
use ia2_provsan.Hooks.{Runtime, get_or_init}
use ia2_provsan.Formatter.{
  Host, attempts, test_directory, unique_name, is_directory, write_json, ensure_directory,
  flush_allocs,
}
use ia2_provsan.Formatter.Fields.{
  Field, integer, string, boolean, Fields, array_text, site_fields, write_json-array_text,
}
use ia2_provsan.Formatter.Files.{FileLaws}
use ia2_provsan.Formatter.Profile.{profile_name, flush_allocs-profile}
use ia2_provsan.Post.Profile.{
  FaultingSite, FaultMap, Json, Files, parse_json_array_file, get_fault_paths,
  get_faulting_alloc_map,
}
use ia2_provsan.Post.FaultMap.{
  site_at, site_at-get_faulting_alloc_map, first_site, read_sites, all_values, read_site,
  all_objects,
}

-- What the pass keeps of a site.
abbrev pub faulting : AllocSite → FaultingSite
faulting s = record {
  local_id = magnitude s.local_id;
  pkey = s.pkey;
  bb_name = s.bb_name;
  func_name = s.func_name;
}

-- The first site of a fault set with a function and a number.
unfoldable pub first_fault : List AllocSite → String → ℕ → Option FaultingSite
first_fault [] f i = none
first_fault (s ∷ rest) f i =
    if str_eq s.func_name f && i == magnitude s.local_id
    then some (faulting s)
    else first_fault rest f i

-- The ranges of the machine types, and names that are not empty.
abbrev pub InRange : AllocSite → Type 0
InRange s =
    ((n : ℕ) × (s.local_id ≡ pos n) × (n < 2 ^ 63))
    × (s.pkey < 2 ^ 32)
    × (str_eq s.bb_name "" ≡ false)
    × (str_eq s.func_name "" ≡ false)

abbrev pub AllInRange : List AllocSite → Type 0
AllInRange [] = Unit {0}
AllInRange (s ∷ rest) = InRange s × AllInRange rest

module _ (J : Json) where
  -- A value is an object with the fields that `writeJSON` writes for a site.
  abbrev pub Describes : J.Value → AllocSite → Type 0
  Describes v s =
      (J.is_object v ≡ true)
      × (J.map_int v "id" ≡ some s.local_id)
      × (J.map_int v "pkey" ≡ some (pos s.pkey))
      × (J.map_string v "bbName" ≡ some s.bb_name)
      × (J.map_string v "funcName" ≡ some s.func_name)

  -- A value has a field, and all the fields of an object.
  abbrev HasField : J.Value → String × Field → Type 0
  HasField v (key, integer n) = J.map_int v key ≡ some n
  HasField v (key, string s) = J.map_string v key ≡ some s
  HasField v (key, boolean b) = Unit {0}

  abbrev HasFields : J.Value → Fields → Type 0
  HasFields v [] = J.is_object v ≡ true
  HasFields v (field ∷ fields) = HasField v field × HasFields v fields

  -- The values are objects with the fields of the list, one for one.
  abbrev pub AllHave : List J.Value → List Fields → Type 0
  AllHave [] [] = Unit {0}
  AllHave (v ∷ vs) (fields ∷ rest) = HasFields v fields × AllHave vs rest
  AllHave _ _ = ⊥

  abbrev AllDescribe : List J.Value → List AllocSite → Type 0
  AllDescribe [] [] = Unit {0}
  AllDescribe (v ∷ vs) (s ∷ rest) = Describes v s × AllDescribe vs rest
  AllDescribe _ _ = ⊥

  AllHave-AllDescribe :
      (vs : List J.Value) (sites : List AllocSite)
      → AllHave vs (map site_fields sites)
      → AllDescribe vs sites
  AllHave-AllDescribe [] [] h = tt
  AllHave-AllDescribe (v ∷ vs) (s ∷ rest) ((id, (pkey, (bb, (func, (realloc, object))))), h) =
      ((object, id, pkey, bb, func), AllHave-AllDescribe vs rest h)
  AllHave-AllDescribe [] (s ∷ rest) h = elim h [ ]
  AllHave-AllDescribe (v ∷ vs) [] h = elim h [ ]

  described-all_objects :
      (vs : List J.Value) (sites : List AllocSite) → AllDescribe vs sites → all_objects J vs ≡ true
  unfolding all_objects
  described-all_objects [] [] d = refl
  described-all_objects (v ∷ vs) (s ∷ rest) (d, ds) =
      rw (d.0, described-all_objects vs rest ds) refl
  described-all_objects [] (s ∷ rest) d = elim d [ ]
  described-all_objects (v ∷ vs) [] d = elim d [ ]

  read_site_written :
      (v : J.Value) (s : AllocSite)
      → Describes v s
      → InRange s
      → read_site J v
          (J.map_int v "id")
          (J.map_int v "pkey")
          (J.map_string v "bbName")
          (J.map_string v "funcName")
        ≡ some (faulting s)
  read_site_written v s (object, id, pkey, bb, func) ((n, nonneg, small), key, named, in_func) =
      let whole : n % 2 ^ 64 ≡ n = omega arith in
      let fits : s.pkey % 2 ^ 32 ≡ s.pkey = omega arith in
      rw (id, pkey, bb, func, nonneg, object, named, in_func, whole, fits)

  first_site-read_sites :
      (vs : List J.Value) (sites : List AllocSite) (f : String) (i : ℕ)
      → AllDescribe vs sites
      → AllInRange sites
      → first_site (read_sites J vs) f i ≡ first_fault sites f i
  unfolding first_site read_sites first_fault
  first_site-read_sites [] [] f i d r = refl
  first_site-read_sites (v ∷ vs) (s ∷ rest) f i (d, ds) (r, rs) =
      rw (read_site_written v s d r) (ground (arith, first_site-read_sites vs rest f i ds rs))
  first_site-read_sites [] (s ∷ rest) f i d r = elim d [ ]
  first_site-read_sites (v ∷ vs) [] f i d r = elim d [ ]

test_path : ◌≢◌ {A = String} test_directory ""
unfolding str_eq
test_path e = cc

module _ (host : Host) (laws : FileLaws host) where
  profile_name-nonempty :
      (w : host.World) (draw : ℕ → ℕ) (j : ℕ) → profile_name host laws w draw j ≢ ""
  unfolding unique_name
  profile_name-nonempty w draw j e = test_path (append-eq-nil_iff.0 e).0

  module _ (J : Json) (entries : String → List (String × String)) where
    -- The files of a world, as the pass sees them.
    abbrev pub files_in : host.World → Files
    files_in w = record {
      is_directory = is_directory host w;
      entries = entries;
      get_file = laws.contents w;
    }

    all_values-file :
        (w : host.World) (name text : String) (root : J.Value) (vs : List J.Value)
        → laws.contents w name ≡ some text
        → J.parse text ≡ some root
        → J.get_as_array root ≡ some vs
        → all_values J (files_in w) (get_fault_paths (files_in w) name) ≡ vs
    unfolding all_values get_fault_paths parse_json_array_file is_directory
    all_values-file w name text root vs holds reads is_array =
        rw (laws.stat_file w name text holds, holds, reads, is_array) (append-nil vs)

    -- On a host whose calls behave, let the directory be there or be made, one of the 128 names be
    -- free, and a stream open at every free name. Let the parser read the JSON text of an array of
    -- objects with the sites' fields, for the sites of the runtime's fault set, which is not empty,
    -- to objects with these fields, and let the sites' numbers be in range and their names not
    -- empty. Then a flush leaves a profile under a name that was free, from which the pass makes a
    -- fault map that has, for a function and a number, the first site of the fault set with both,
    -- and nothing if there is none.
    pub flush_then_load :
        (rt : Runtime) (w w₁ : host.World) (draw stats_draw : ℕ → ℕ) (k : ℕ) (fault : AllocSite)
        (faults : List AllocSite) (root : J.Value) (vs : List J.Value) (junk_id junk_pkey : ℤ)
        → (get_or_init rt).0.fault_set ≡ fault ∷ faults
        → ensure_directory host w ≡ some w₁
        → k < attempts
        → host.stat w₁ (profile_name host laws w₁ draw k) ≡ none
        → ((name : String)
            → host.stat w₁ name ≡ none
            → (w₂ : host.World) × (host.open_stream w₁ name ≡ some w₂))
        → J.parse (array_text (site_fields fault) (map site_fields faults)) ≡ some root
        → J.get_as_array root ≡ some vs
        → AllHave J vs (map site_fields (fault ∷ faults))
        → AllInRange (fault ∷ faults)
        → (j : ℕ) × (host.stat w₁ (profile_name host laws w₁ draw j) ≡ none)
          × (fm : FaultMap) × (get_faulting_alloc_map J junk_id junk_pkey
                (files_in (flush_allocs host rt w draw stats_draw).1)
                (profile_name host laws w₁ draw j)
              ≡ ok fm)
          × ((f : String) (i : ℕ) → site_at fm f i ≡ first_fault (fault ∷ faults) f i)
    flush_then_load rt w w₁ draw stats_draw k fault faults root vs junk_id junk_pkey set made below
          free opens reads is_array fields in_range =
        let (j, unused, holds) =
          flush_allocs-profile host laws rt w w₁ draw stats_draw k fault faults set made below free
            opens in
        let name = profile_name host laws w₁ draw j in
        let w' = (flush_allocs host rt w draw stats_draw).1 in
        let described = AllHave-AllDescribe J vs (fault ∷ faults) fields in
        let parsed : J.parse (write_json (fault ∷ faults)) ≡ some root =
          ap J.parse (write_json-array_text fault faults) ∙ reads in
        let values =
          all_values-file w' name (write_json (fault ∷ faults)) root vs holds parsed is_array in
        let objects = described-all_objects J vs (fault ∷ faults) described in
        elim (site_at-get_faulting_alloc_map J (files_in w') junk_id junk_pkey name
          (profile_name-nonempty w₁ draw j)) [
            | inl (all, fm, loads, agrees) ↦ (
              j,
              unused,
              fm,
              loads,
              λ f i.
                  agrees f i
                  ∙ ap (λ l. first_site (read_sites J l) f i) values
                  ∙ first_site-read_sites J vs (fault ∷ faults) f i described in_range,
            )
            | inr (others, ended) ↦ absurd (ground (arith, rw values at others, objects))
          ]
