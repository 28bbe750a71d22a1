-- ===== src/Tests/Profiles.antt =====
-- A host with a list of files, a fault set of two sites, and the profile that goes from the
-- runtime to the pass.
use ia2_provsan.Base.{map}
use ia2_provsan.Base.Outcome.{ok}
use ia2_provsan.Formatter.Fields.{array_text, site_fields}
use ia2_provsan.Post.Profile.{FaultMap}
use ia2_provsan.Base.{
  ℕ, ◌<◌, ◌≡◌, refl, String, Bool, true, false, Option, none, some, List, [], ◌∷◌, ◌⊎◌, arith,
  str_eq, str_eq_iff, if◌then◌else◌, Bool-cases, inl, inr, map,
}
use ia2_provsan.Base.Render.{join, to_string, int_to_string, hex_digits}
use ia2_provsan.Base.Int.{ℤ, pos, negsuc}
use Prim.Native.String.{◌++◌ as ◌<>◌}
use ia2_provsan.Base.{◌^◌}
use ia2_provsan.Formatter.{site_lines, stats_text}
use ia2_provsan.Formatter.Counts.{used, lines_from, stats_text_lines}
use ia2_provsan.Signals.{Stats, no_stats, SigAction, sig_dfl}
use ia2_provsan.Site.{AllocSite}
use ia2_provsan.Handler.{Handler, new_handler}
use ia2_provsan.Hooks.{Runtime, get_or_init}
use ia2_provsan.Formatter.{
  Host, attempts, test_directory, next_name, unique_name, is_directory, json_item, json_items,
  write_json, make_unique_filename, ensure_directory, flush_allocs,
}
use ia2_provsan.Formatter.Names.{candidate, Taken, make_unique_filename_first}
use ia2_provsan.Formatter.Json.{write_json-join}
use ia2_provsan.Formatter.Files.{FileLaws, flush_allocs-Keeps}
use ia2_provsan.Formatter.Profile.{profile_name, flush_allocs-profile}
use ia2_provsan.Post.Profile.{Json, get_faulting_alloc_map}
use ia2_provsan.Post.FaultMap.{site_at}
use ia2_provsan.RoundTrip.{first_fault, AllInRange, AllHave, files_in, flush_then_load}

abbrev pub file : List (String × String) → String → Option String
file [] p = none
file ((name, text) ∷ w) p = if str_eq p name then some text else file w p

abbrev pub regular : Option String → Option Bool
regular none = none
regular (some text) = some false

-- The one directory is there from the start.
abbrev pub host : Host
host = record {
  World = List (String × String);
  pid = 4242;
  stat = λ w p. if str_eq p test_directory then some true else regular (file w p);
  mkdir = λ w p. none;
  open_stream = λ w p. if str_eq p test_directory then none else some ((p, "") ∷ w);
  write = λ w p text. if str_eq p test_directory then w else (p, text) ∷ w;
}

abbrev pub host_contents : List (String × String) → String → Option String
host_contents w p = if str_eq p test_directory then none else file w p

pub host_laws : FileLaws host
host_laws = record {
  contents = host_contents;
  stat_file = λ w p text h. ground arith;
  open_elsewhere = λ w w' name p apart e. ground (arith, str_eq_iff p name);
  write_elsewhere = λ w name p text apart. ground (arith, str_eq_iff p name);
  mkdir_keeps = λ w w' d p text e h. cc;
  write_opened = λ w w' name text e. ground (arith, str_eq_iff name name);
}

abbrev pub first_fault_site : AllocSite
first_fault_site = record {
  ptr = 4096;
  size = pos 64;
  local_id = pos 3;
  bb_name = "block1";
  func_name = "main";
  pkey = 1;
  is_realloc = false;
}

abbrev pub second_fault_site : AllocSite
second_fault_site = record {
  ptr = 8192;
  size = pos 16;
  local_id = pos 0;
  bb_name = "entry";
  func_name = "grow";
  pkey = 1;
  is_realloc = true;
}

abbrev pub faulted : Handler
faulted = record new_handler { fault_set = first_fault_site ∷ second_fault_site ∷ [] }

abbrev pub default_action : SigAction
default_action = record { siginfo = false; entry = sig_dfl }

abbrev pub runtime : Runtime
runtime = record {
  handle = some faulted;
  stats = no_stats;
  signals = record {
    on_segv = default_action;
    on_trap = default_action;
    prev_action = none;
    segv_action = none;
    sigt_action = none;
  };
  alloc_site_total = 0;
}

abbrev pub sites : List AllocSite
sites = first_fault_site ∷ second_fault_site ∷ []

abbrev pub older_file : List (String × String)
older_file = ("TestResults/faulting-allocs-4242-0000000000000000.json", "old") ∷ []

abbrev pub draws : ℕ → ℕ
draws i = i

-- The text of the profile.
written_text :
    write_json sites
    ≡ "[\n{ \"id\": 3, \"pkey\": 1, \"bbName\": \"block1\", \"funcName\": \"main\", \"isRealloc\": false },\n{ \"id\": 0, \"pkey\": 1, \"bbName\": \"entry\", \"funcName\": \"grow\", \"isRealloc\": true }\n]\n"
unfolding write_json json_items json_item int_to_string to_string
written_text = refl

-- The first name is taken, so the second is chosen.
second_name :
    make_unique_filename host older_file draws test_directory "faulting-allocs" "json"
    ≡ some "TestResults/faulting-allocs-4242-0000000000000001.json"
unfolding make_unique_filename next_name unique_name hex_digits to_string str_eq
second_name = refl

write_json-join_example :
    write_json (first_fault_site ∷ second_fault_site ∷ [])
    ≡ "[\n"
      <> join ",\n" (json_item first_fault_site) (map json_item (second_fault_site ∷ []))
      <> "\n]\n"
write_json-join_example = write_json-join first_fault_site (second_fault_site ∷ [])

flush_allocs-Keeps_example :
    host_contents
      (flush_allocs host runtime older_file draws draws).1
      "TestResults/faulting-allocs-4242-0000000000000000.json"
    ≡ some "old"
unfolding str_eq host_laws
flush_allocs-Keeps_example =
    flush_allocs-Keeps host host_laws runtime older_file draws draws
      "TestResults/faulting-allocs-4242-0000000000000000.json" "old" refl

-- A value is an object, known by the site that it describes, or an array of objects.
pub data Value : Type 0 where
  object : AllocSite → Value
  array : List AllocSite → Value

abbrev pub site_field : Value → String → Option ℤ
site_field (object s) key = if str_eq key "id" then some s.local_id else some (pos s.pkey)
site_field (array l) key = none

abbrev pub site_name : Value → String → Option String
site_name (object s) key = if str_eq key "bbName" then some s.bb_name else some s.func_name
site_name (array l) key = none

abbrev pub objects : List AllocSite → List Value
objects [] = []
objects (s ∷ l) = object s ∷ objects l

abbrev pub elements : Value → Option (List Value)
elements (object s) = none
elements (array l) = some (objects l)

abbrev pub is_site : Value → Bool
is_site (object s) = true
is_site (array l) = false

-- The text of the array of two objects.
abbrev text_of_sites : String
text_of_sites = array_text (site_fields first_fault_site) (site_fields second_fault_site ∷ [])

abbrev pub read_value : String → Option Value
read_value text = if str_eq text text_of_sites then some (array sites) else none

abbrev pub json : Json
json = record {
  Value = Value;
  parse = read_value;
  get_as_array = elements;
  is_object = is_site;
  map_int = site_field;
  map_string = site_name;
}

pub opens :
    (name : String)
    → host.stat older_file name ≡ none
    → (w₂ : List (String × String)) × (host.open_stream older_file name ≡ some w₂)
opens name free = elim (Bool-cases (str_eq name test_directory)) [
  | inl same ↦ absurd (ground arith)
  | inr other ↦ ((name, "") ∷ older_file, rw other)
]

pub free_name : host.stat older_file (profile_name host host_laws older_file draws 1) ≡ none
unfolding unique_name hex_digits to_string str_eq
free_name = refl

pub there : ensure_directory host older_file ≡ some older_file
unfolding ensure_directory is_directory str_eq
there = refl

pub reads : read_value text_of_sites ≡ some (array sites)
reads = rw ((str_eq_iff text_of_sites text_of_sites).1 refl) refl

pub described : AllHave json (objects sites) (map site_fields sites)
unfolding str_eq
described =
    ((refl, (refl, (refl, (refl, (tt, refl))))), ((refl, (refl, (refl, (refl, (tt, refl))))), tt))

pub in_range : AllInRange sites
unfolding str_eq
in_range = (
  ((3, refl, omega arith), omega arith, refl, refl),
  (((0, refl, omega arith), omega arith, refl, refl), tt),
)

make_unique_filename_first_example :
    ((k : ℕ) × (k < attempts)
      × (make_unique_filename host older_file draws test_directory "faulting-allocs" "json"
          ≡ some (candidate host older_file draws test_directory "faulting-allocs" "json" k))
      × (host.stat older_file
            (candidate host older_file draws test_directory "faulting-allocs" "json" k)
          ≡ none)
      × ((j : ℕ) → j < k → Taken host older_file draws test_directory "faulting-allocs" "json" j))
    ⊎ ((make_unique_filename host older_file draws test_directory "faulting-allocs" "json" ≡ none)
        × ((j : ℕ)
            → j < attempts
            → Taken host older_file draws test_directory "faulting-allocs" "json" j))
make_unique_filename_first_example =
    make_unique_filename_first host older_file draws test_directory "faulting-allocs" "json"

flush_allocs-profile_example :
    (j : ℕ) × (host.stat older_file (profile_name host host_laws older_file draws j) ≡ none)
    × (host_laws.contents
          (flush_allocs host runtime older_file draws draws).1
          (profile_name host host_laws older_file draws j)
        ≡ some (write_json sites))
unfolding get_or_init
flush_allocs-profile_example =
    flush_allocs-profile host host_laws runtime older_file older_file draws draws 1 first_fault_site
      (second_fault_site ∷ []) refl there (omega arith) free_name opens

flush_then_load_example :
    (j : ℕ) × (host.stat older_file (profile_name host host_laws older_file draws j) ≡ none)
    × (fm : FaultMap) × (get_faulting_alloc_map json
          (negsuc 0)
          (negsuc 0)
          (files_in host host_laws json
            (λ path. [])
            (flush_allocs host runtime older_file draws draws).1)
          (profile_name host host_laws older_file draws j)
        ≡ ok fm)
    × ((f : String) (i : ℕ) → site_at fm f i ≡ first_fault sites f i)
unfolding get_or_init
flush_then_load_example =
    flush_then_load host host_laws json (λ path. []) runtime older_file older_file draws draws 1
      first_fault_site (second_fault_site ∷ []) (array sites) (objects sites) (negsuc 0) (negsuc 0)
      refl there (omega arith) free_name opens reads refl described in_range

abbrev counted_stats : Stats
counted_stats = record no_stats {
  alloc_site_use_counter = 0 ∷ 2 ∷ 1 ∷ [];
  alloc_site_count = 3;
  alloc_hook_calls = 12;
}

-- The first of three sites did not fault.
counted_text :
    stats_text counted_stats
    ≡ "Number of Times allocHook Called: 12\nNumber of Times reallocHook Called: 0\nNumber of Times deallocHook Called: 0\nAllocSite(1) faults: 2\nAllocSite(2) faults: 1\nNumber of Unique AllocSites Found: 2\n"
unfolding stats_text site_lines to_string
counted_text = refl

few_used : used counted_stats.alloc_site_use_counter < 2 ^ 64
unfolding used
few_used = omega arith

stats_text_lines_example :
    stats_text counted_stats
    ≡ "Number of Times allocHook Called: "
      <> to_string 12
      <> "\n"
      <> "Number of Times reallocHook Called: "
      <> to_string 0
      <> "\n"
      <> "Number of Times deallocHook Called: "
      <> to_string 0
      <> "\n"
      <> lines_from 0 counted_stats.alloc_site_use_counter
      <> "Number of Unique AllocSites Found: "
      <> to_string (used counted_stats.alloc_site_use_counter)
      <> "\n"
stats_text_lines_example = stats_text_lines counted_stats refl few_used
