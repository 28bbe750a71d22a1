-- ===== src/Formatter.antt =====
-- Runtime/provsan_formatter.cpp: the profile and the statistics that the runtime writes when the
-- process exits. The host's calls are parameters; messages on stderr are not modelled.
pub mod Names
pub mod Counts
pub mod Json
pub mod Fields
pub mod Files
pub mod Profile
use Prim.Native.String.{◌++◌ as ◌<>◌}
use ia2_provsan.Base.{
  ℕ, zero, suc, ◌+◌, ◌-◌, String, Bool, true, false, Option, none, some, List, [], ◌∷◌,
}
use ia2_provsan.Base.{◌==◌, ltb, if◌then◌else◌}
use ia2_provsan.Base.Lists.{length, get_elem?}
use ia2_provsan.Base.Render.{to_string, int_to_string, hex_digits}
use ia2_provsan.Signals.{Stats, increment}
use ia2_provsan.Site.{AllocSite}
use ia2_provsan.Hooks.{Runtime, get_or_init}
use ia2_provsan.Handler.{faulting_allocs}

-- `stat` gives nothing for -1, and else whether S_IFDIR is set. `mkdir` and the opening of a
-- stream give nothing where they fail.
pub record Host : Type 1 where
  pub World : Type 0
  pub pid : ℕ
  pub stat : World → String → Option Bool
  pub mkdir : World → String → Option World
  pub open_stream : World → String → Option World
  pub write : World → String → String → World

abbrev pub attempts : ℕ
attempts = 128

abbrev pub entropy : ℕ
entropy = 16

-- The text of one fault.
unfoldable pub json_item : AllocSite → String
json_item fault =
    "{ \"id\": "
    <> int_to_string fault.local_id
    <> ", \"pkey\": "
    <> to_string fault.pkey
    <> ", \"bbName\": \""
    <> fault.bb_name
    <> "\", \"funcName\": \""
    <> fault.func_name
    <> "\""
    <> ", \"isRealloc\": "
    <> (if fault.is_realloc then "true" else "false")
    <> " }"

unfoldable pub json_items : List AllocSite → ℕ → String
json_items [] items_remaining = ""
json_items (fault ∷ faults) items_remaining =
    let left = items_remaining - 1 in
    json_item fault <> (if left == 0 then "" else ",") <> "\n" <> json_items faults left

unfoldable pub write_json : List AllocSite → String
write_json fault_set =
    if length fault_set == 0 then "" else "[\n" <> json_items fault_set (length fault_set) <> "]\n"

abbrev is_used : Option ℕ → Bool
is_used none = false
is_used (some n) = ltb 0 n

abbrev uses : Option ℕ → ℕ
uses none = 0
uses (some n) = n

-- The loop over the counters, from number `i` on with `left` numbers to go. The array has
-- `AllocSiteCount` elements, so the missing one is never read.
unfoldable pub site_lines : List ℕ → ℕ → ℕ → String → ℕ → String × ℕ
site_lines counters zero i lines found = (lines, found)
site_lines counters (suc left) i lines found =
    let used = is_used (get_elem? counters i) in
    let line =
      "AllocSite("
      <> to_string i
      <> ") faults: "
      <> to_string (uses (get_elem? counters i))
      <> "\n" in
    site_lines counters left (suc i) (if used then lines <> line else lines)
      (if used then increment found else found)

unfoldable pub stats_text : Stats → String
stats_text st =
    let (lines, found) = site_lines st.alloc_site_use_counter st.alloc_site_count 0 "" 0 in
    "Number of Times allocHook Called: "
    <> to_string st.alloc_hook_calls
    <> "\n"
    <> "Number of Times reallocHook Called: "
    <> to_string st.realloc_hook_calls
    <> "\n"
    <> "Number of Times deallocHook Called: "
    <> to_string st.dealloc_hook_calls
    <> "\n"
    <> lines
    <> "Number of Unique AllocSites Found: "
    <> to_string found
    <> "\n"

abbrev pub test_directory : String
test_directory = "TestResults"

module _ (host : Host) where
  -- `draw i` is what the generator gives at attempt `i`.
  unfoldable pub unique_name : (ℕ → ℕ) → String → String → String → ℕ → String
  unique_name draw path base_name extension attempt =
      path
      <> "/"
      <> base_name
      <> "-"
      <> to_string host.pid
      <> "-"
      <> hex_digits entropy (draw attempt)
      <> "."
      <> extension

  abbrev pub choose : String → Option Bool → Option String → Option String
  choose name none rest = some name
  choose name (some is_dir) rest = rest

  -- The loop, from an attempt on with `left` attempts to go.
  unfoldable pub next_name : host.World → (ℕ → ℕ) → String → String → String → ℕ → ℕ → Option String
  next_name w draw path base_name extension zero attempt = none
  next_name w draw path base_name extension (suc left) attempt =
      let name = unique_name draw path base_name extension attempt in
      choose name (host.stat w name) (next_name w draw path base_name extension left (suc attempt))

  unfoldable pub make_unique_filename :
      host.World → (ℕ → ℕ) → String → String → String → Option String
  make_unique_filename w draw path base_name extension =
      next_name w draw path base_name extension attempts 0

  abbrev opened : String → Option host.World → Option (String × host.World)
  opened name none = none
  opened name (some w) = some (name, w)

  abbrev open_named : host.World → Option String → Option (String × host.World)
  open_named w none = none
  open_named w (some name) = opened name (host.open_stream w name)

  -- A stream is known by the name of its file.
  unfoldable pub make_unique_stream :
      host.World → (ℕ → ℕ) → String → String → String → Option (String × host.World)
  make_unique_stream w draw path base_name extension =
      open_named w (make_unique_filename w draw path base_name extension)

  abbrev is_dir : Option Bool → Bool
  is_dir none = false
  is_dir (some flag) = flag

  unfoldable pub is_directory : host.World → String → Bool
  is_directory w directory = is_dir (host.stat w directory)

  abbrev pub written : host.World → Option (String × host.World) → String → Bool × host.World
  written w none content = (false, w)
  written w (some (name, w')) content = (true, host.write w' name content)

  -- The file of the statistics, which is written last.
  unfoldable pub write_stats : host.World → (ℕ → ℕ) → Stats → Bool × host.World
  write_stats w draw st =
      if st.alloc_site_count == 0
      then (true, w)
      else written w (make_unique_stream w draw test_directory "runtime-stats" "stat")
          (stats_text st)

  abbrev pub then_stats : Bool × host.World → (ℕ → ℕ) → Stats → Bool × host.World
  then_stats (true, w) draw st = write_stats w draw st
  then_stats (false, w) draw st = (false, w)

  -- The files of the directory, the profile first.
  unfoldable pub write_files :
      host.World → (ℕ → ℕ) → (ℕ → ℕ) → Stats → List AllocSite → Bool × host.World
  write_files w draw stats_draw st fault_set =
      let stream = make_unique_stream w draw test_directory "faulting-allocs" "json" in
      then_stats (written w stream (write_json fault_set)) stats_draw st

  -- The world in which the directory exists, if it does or can be made.
  unfoldable pub ensure_directory : host.World → Option host.World
  ensure_directory w = if is_directory w test_directory then some w else host.mkdir w test_directory

  abbrev pub write_in :
      host.World
      → Option host.World
      → (ℕ → ℕ)
      → (ℕ → ℕ)
      → Stats
      → List AllocSite
      → Bool × host.World
  write_in w none draw stats_draw st fault_set = (false, w)
  write_in w (some w') draw stats_draw st fault_set = write_files w' draw stats_draw st fault_set

  unfoldable pub write_unique_file :
      host.World → (ℕ → ℕ) → (ℕ → ℕ) → Stats → List AllocSite → Bool × host.World
  write_unique_file w draw stats_draw st fault_set =
      write_in w (ensure_directory w) draw stats_draw st fault_set

  abbrev pub flush_set : List AllocSite → host.World → (ℕ → ℕ) → (ℕ → ℕ) → Stats → host.World
  flush_set [] w draw stats_draw st = w
  flush_set (fault ∷ faults) w draw stats_draw st =
      (write_unique_file w draw stats_draw st (fault ∷ faults)).1

  -- `flush_allocs`, which makes a handler if there is none.
  unfoldable pub flush_allocs : Runtime → host.World → (ℕ → ℕ) → (ℕ → ℕ) → Runtime × host.World
  flush_allocs rt w draw stats_draw =
      let (h, rt') = get_or_init rt in
      (rt', flush_set (faulting_allocs h) w draw stats_draw rt'.stats)
