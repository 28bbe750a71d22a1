-- ===== src/Post/Report.antt =====
-- `getDiagMessage` and `PrintFaultingLocation` of DynUntrustedAllocPost.cpp, as the text that they
-- print; colours are not modelled. The file name of a location is that of its scope.
use Prim.Native.String.{◌++◌ as ◌<>◌}
use text.Mathlib.TextLemmas.{append_assoc, nil-append, append-nil}
use ia2_provsan.Base.{ℕ, String, Bool, true, false, List, [], ◌∷◌, ◌≡◌, refl, sym, ◌∙◌, ap, ◌==◌}
use ia2_provsan.Base.{if◌then◌else◌, Option, none, some}
use ia2_provsan.Base.Outcome.{Outcome, ok, fails, null_dereferenced}
use ia2_provsan.Base.Render.{to_string}

-- A location, with the one that it is inlined at, if any.
pub data DebugLoc : Type 0 where
  own : String → ℕ → ℕ → DebugLoc
  inlined : String → ℕ → ℕ → DebugLoc → DebugLoc

unfoldable pub position : String → ℕ → ℕ → String
position file line col =
    file <> ":" <> to_string line <> (if col == 0 then "" else ":" <> to_string col)

unfoldable pub get_diag_message : DebugLoc → Bool → String
get_diag_message (own file line col) first = position file line col
get_diag_message (inlined file line col at) first =
    let rest = get_diag_message at false in
    position file line col
    <> (if first then "" else " ]")
    <> "\n\tInlined @[ "
    <> rest
    <> (if first then " ]" else "")

-- An allocation with no location has a null scope, which `getDiagMessage` dereferences.
unfoldable pub print_faulting_location : Option DebugLoc → Outcome String
print_faulting_location none = fails null_dereferenced
print_faulting_location (some loc) = ok (
    "Error"
    <> ": Compartment Violation from memory originally allocated at "
    <> get_diag_message loc true
    <> "\n")

-- The position of a location itself, and those that it is inlined at, from the inside out.
unfoldable pub first_position : DebugLoc → String
first_position (own file line col) = position file line col
first_position (inlined file line col at) = position file line col

unfoldable pub sites : DebugLoc → List String
sites (own file line col) = []
sites (inlined file line col at) = first_position at ∷ sites at

unfoldable pub site_texts : List String → String
site_texts [] = ""
site_texts (p ∷ ps) = "\n\tInlined @[ " <> p <> " ]" <> site_texts ps

message_closed :
    (loc : DebugLoc)
    → get_diag_message loc false <> " ]" ≡ first_position loc <> " ]" <> site_texts (sites loc)
unfolding get_diag_message first_position sites site_texts
message_closed (own file line col) = refl
message_closed (inlined file line col at) =
    let message = get_diag_message at false in
    let opening : String = "\n\tInlined @[ " in
    let p = position file line col in
    ap (λ t. (p <> " ]" <> opening <> t) <> " ]") (append-nil message)
    ∙ append_assoc p (" ]" <> opening <> message) " ]"
    ∙ ap (λ t. p <> t) (append_assoc " ]" (opening <> message) " ]")
    ∙ ap (λ t. p <> " ]" <> t) (append_assoc opening message " ]")
    ∙ ap (λ t. p <> " ]" <> opening <> t) (message_closed at)

-- The message for an allocation has its position, and then a line for each place that it is inlined
-- at, from the inside out, each in brackets that are closed on its line.
pub get_diag_message-site_texts :
    (loc : DebugLoc) → get_diag_message loc true ≡ first_position loc <> site_texts (sites loc)
unfolding get_diag_message first_position sites site_texts
get_diag_message-site_texts (own file line col) = sym (append-nil (position file line col))
get_diag_message-site_texts (inlined file line col at) =
    let opening : String = "\n\tInlined @[ " in
    ap (λ t. position file line col <> t)
      (nil-append (opening <> get_diag_message at false <> " ]"))
    ∙ ap (λ t. position file line col <> opening <> t) (message_closed at)
