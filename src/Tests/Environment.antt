-- ===== src/Tests/Environment.antt =====
-- Lists of names in environment variables, and the first pass over a module with them.
use Prim.Native.String.{String}
use ia2_provsan.Base.{◌≡◌, refl, true, false, Option, none, some, List, [], ◌∷◌, arith, str_eq}
use ia2_provsan.Base.Outcome.{ok}
use ia2_provsan.Post.Ir.{Function}
use ia2_provsan.Post.Patch.{has_function}
use ia2_provsan.Post.Number.{hook_index}
use ia2_provsan.Pre.Env.{
  str_to_vec, populate_from_env, skip, token, next_tokens, contains, get_target_function_set,
}
use ia2_provsan.Pre.Env.Tokens.{split, filled, str_to_vec-split}
use ia2_provsan.Pre.Hooks.{hook_alloc, hook_realloc, hook_dealloc, hook_name}
use ia2_provsan.Pre.Hooks.Sound.{has_label}
use ia2_provsan.Pre.Run.{Options, find_targets}
use ia2_provsan.Pre.Run.Quiet.{LacksHooks, AllSound, options_from}
use ia2_provsan.Tests.Hooks.{hooked_function}

str_to_vec-split_example : str_to_vec 9 ",ab,,c" b',' ≡ ok (filled (split b',' ",ab,,c"))
str_to_vec-split_example = str_to_vec-split 9 ",ab,,c" b',' (omega arith)

-- What the two sides are.
two_names : str_to_vec 9 ",ab,,c" b',' ≡ ok ("ab" ∷ "c" ∷ [])
unfolding str_to_vec next_tokens skip token
two_names = refl

abbrev pub getenv : String → Option String
getenv name = elim (str_eq name "PROVSAN_ALLOC") [
  | true ↦ some "trusted_malloc,my_alloc"
  | false ↦ elim (str_eq name "PROVSAN_FREE") [ true ↦ some "," | false ↦ none ]
]

-- A value of commas only gives no target, and not the fallback either.
no_names : populate_from_env getenv [] "PROVSAN_FREE" "trusted_free" ≡ ok []
unfolding populate_from_env str_to_vec next_tokens skip token str_eq
no_names = refl

abbrev pub no_options : Options
no_options = record { provsan_alloc = []; provsan_realloc = []; provsan_free = [] }

abbrev malloc_declaration : Function
malloc_declaration = record {
  name = "trusted_malloc";
  is_declaration = true;
  blocks = [];
  unreachable = [];
}

abbrev pub program : List Function
program = hooked_function ∷ malloc_declaration ∷ []

pub program-LacksHooks : LacksHooks program
unfolding has_function str_eq
program-LacksHooks hook_alloc = refl
program-LacksHooks hook_realloc = refl
program-LacksHooks hook_dealloc = refl

pub program-AllSound : AllSound (find_targets program (options_from getenv no_options)) program
unfolding has_function str_eq find_targets options_from get_target_function_set split filled
    hook_name contains has_label hook_index
program-AllSound = (
  (
    record {
      ready = (omega arith, refl, (omega arith, tt, tt));
      filled = refl;
      room = (tt, (tt, tt));
      dests = (tt, (refl, tt));
    },
    (record { ready = tt; filled = refl; room = tt; dests = tt }, tt),
  ),
  (tt, tt),
)
