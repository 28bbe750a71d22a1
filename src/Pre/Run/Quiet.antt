-- ===== src/Pre/Run/Quiet.antt =====
-- The pass over a module that has no function with a hook's name.
use ia2_provsan.Base.{
  String, Bool, true, false, ◌||◌, ◌&&◌, Option, List, [], ◌∷◌, ◌++◌, ◌≡◌, refl, sym, ap, ◌∙◌,
  arith, str_eq, str_eq_iff, Bool-cases, inl, inr,
}
use ia2_provsan.Base.Outcome.{Outcome, ok}
use ia2_provsan.Post.Ir.{Function}
use ia2_provsan.Post.Number.Ids.{BlocksHaveSpace}
use ia2_provsan.Post.Patch.{has_function}
use ia2_provsan.Pre.Env.{value_or_empty, get_target_function_set, contains}
use ia2_provsan.Pre.Env.Targets.{names_or, populate_from_env-split, contains-found}
use ia2_provsan.Pre.Hooks.{
  Targets, Counters, HookName, hook_name, Graph, hook_function, hook_functions,
}
use ia2_provsan.Pre.Hooks.Behind.{hook_function as hook_function_name, IsQuiet}
use ia2_provsan.Pre.Hooks.Sound.{IsSound, has_label, AllGood-BlocksHaveSpace}
use ia2_provsan.Pre.Hooks.Placed.{IsLawful, hook_function-IsSound}
use ia2_provsan.Pre.Run.{
  Options, get_or_insert_function, declare_hooks, read_options, find_targets, run,
}

absent_or :
    (m : List Function) (target name : String) (rest : Bool)
    → has_function m name ≡ false
    → rest ≡ false
    → ((has_function m target && str_eq target name) || rest) ≡ false
absent_or m target name rest absent none_left = elim (Bool-cases (str_eq target name)) [
  | inl same ↦
      let e = (str_eq_iff target name).0 same in
      let unknown : has_function m target ≡ false = rw e absent in rw (unknown, none_left)
  | inr other ↦ rw (none_left, other) (ground arith)
]

-- A name that the module lacks is in no target set.
contains-absent :
    (m : List Function) (targets : List String) (name : String)
    → has_function m name ≡ false
    → contains (get_target_function_set m targets) name ≡ false
unfolding get_target_function_set
contains-absent m [] name absent = unfold contains in refl
contains-absent m (target ∷ targets) name absent =
    let ih = contains-absent m targets name absent in
    contains-found (has_function m target) target name (get_target_function_set m targets)
    ∙ absent_or m target name _ absent ih

-- The module has no function with the name of a hook.
abbrev pub LacksHooks : List Function → Type 0
LacksHooks m = (h : HookName) → has_function m (hook_function_name h) ≡ false

pub find_targets-IsQuiet :
    (m : List Function) (options : Options) → LacksHooks m → IsQuiet (find_targets m options)
unfolding find_targets hook_name
find_targets-IsQuiet m options lacks = record {
  quiet = λ h. rw (
    contains-absent m options.provsan_alloc (hook_function_name h) (lacks h),
    contains-absent m options.provsan_realloc (hook_function_name h) (lacks h),
    contains-absent m options.provsan_free (hook_function_name h) (lacks h),
  );
}

-- The three lists with what the environment adds.
abbrev added : (String → Option String) → List String → String → String → List String
added getenv ins env_var fallback =
    let value = value_or_empty (getenv env_var) in ins ++ names_or (str_eq value "") value fallback

unfoldable pub options_from : (String → Option String) → Options → Options
options_from getenv options = record {
  provsan_alloc = added getenv options.provsan_alloc "PROVSAN_ALLOC" "trusted_malloc";
  provsan_realloc = added getenv options.provsan_realloc "PROVSAN_REALLOC" "trusted_realloc";
  provsan_free = added getenv options.provsan_free "PROVSAN_FREE" "trusted_free";
}

read_options-from :
    (getenv : String → Option String) (options : Options)
    → read_options getenv options ≡ ok (options_from getenv options)
unfolding read_options options_from
read_options-from getenv options = rw (
  populate_from_env-split getenv options.provsan_alloc "PROVSAN_ALLOC" "trusted_malloc",
  populate_from_env-split getenv options.provsan_realloc "PROVSAN_REALLOC" "trusted_realloc",
  populate_from_env-split getenv options.provsan_free "PROVSAN_FREE" "trusted_free",
)

abbrev pub AllSound : Targets → List Function → Type 0
AllSound t [] = Unit {0}
AllSound t (f ∷ fs) = IsSound t f × AllSound t fs

-- A function after the pass: its hooks have the three arguments that assignLocalIDs writes.
pub record Hooked (f f' : Function) : Type 0 where
  pub named : f'.name ≡ f.name
  pub declared : f'.is_declaration ≡ f.is_declaration
  pub space : BlocksHaveSpace f'.blocks
  pub untouched : f.is_declaration ≡ true → f'.blocks ≡ f.blocks

abbrev pub AllHooked : List Function → List Function → Type 0
AllHooked [] [] = Unit {0}
AllHooked (f ∷ fs) (f' ∷ fs') = Hooked f f' × AllHooked fs fs'
AllHooked _ _ = ⊥

module _ (t : Targets) where
  AllSound-get_or_insert_function :
      (m : List Function) (name : String)
      → AllSound t m
      → AllSound t (get_or_insert_function m name)
  unfolding get_or_insert_function
  AllSound-get_or_insert_function m name a = elim (Bool-cases (has_function m name)) [
    | inl there ↦ rw there a
    | inr absent ↦ rw absent (AllSound-append m a)
  ]
    where
      AllSound-append :
          (fs : List Function)
          → AllSound t fs
          → AllSound t (
              fs
              ++ (record { name = name; is_declaration = true; blocks = []; unreachable = [] }
                  ∷ []))
      AllSound-append [] a' = (tt, tt)
      AllSound-append (f ∷ fs) (sound, a') = (sound, AllSound-append fs a')

  AllSound-declare_hooks : (m : List Function) → AllSound t m → AllSound t (declare_hooks m)
  AllSound-declare_hooks m a =
      let first = get_or_insert_function m "allocHook" in
      let second = get_or_insert_function first "reallocHook" in
      AllSound-get_or_insert_function second "deallocHook" (
        AllSound-get_or_insert_function first "reallocHook"
          (AllSound-get_or_insert_function m "allocHook" a))

  returned_same :
      {f f' : Function} {k k' : Counters}
      → ◌≡◌ {A = Outcome (Function × Counters)} (ok (f, k)) (ok (f', k'))
      → f ≡ f'
  returned_same e = cc

  hook_function_declared :
      (g : Graph) (f : Function) (k : Counters)
      → f.is_declaration ≡ true
      → hook_function g t f k ≡ ok (f, k)
  unfolding hook_function
  hook_function_declared g f k declared = simp declared

  hook_functions-AllHooked :
      (g : Graph) (fs : List Function) (k : Counters)
      → IsLawful g t
      → IsQuiet t
      → AllSound t fs
      → (fs' : List Function) × (k' : Counters) × (hook_functions g t fs k ≡ ok (fs', k'))
        × AllHooked fs fs'
  unfolding hook_functions
  hook_functions-AllHooked g [] k law q a = ([], k, refl, tt)
  hook_functions-AllHooked g (f ∷ fs) k law q (sound, a) =
      let (f', k₁, e, sound', i) = hook_function-IsSound g t law q f k sound in
      let (fs', k', e', rest) = hook_functions-AllHooked g fs k₁ law q a in
      (
        f' ∷ fs',
        k',
        rw (e, e'),
        (
          record {
            named = i.named;
            declared = i.declared;
            space = AllGood-BlocksHaveSpace t (has_label f'.blocks) f'.blocks sound';
            untouched = λ declared.
                ap (λ (h : Function). h.blocks)
                  (sym (returned_same (sym (hook_function_declared g f k declared) ∙ e)));
          },
          rest,
        ),
      )

-- For a module without functions of the hooks' names, whose functions are sound with respect to
-- the allocation functions that the environment names, the pass returns, for every value of the
-- environment's variables, and every hook in the module has the arguments for its
-- number and its names, while names and declarations stay as they are.
pub run-AllHooked :
    (g : Graph) (getenv : String → Option String) (options : Options) (m : List Function)
    (k : Counters)
    → let t = find_targets m (options_from getenv options) in
      IsLawful g t
      → LacksHooks m
      → AllSound t m
      → (m' : List Function) × (k' : Counters) × (run g getenv options m k
          ≡ ok (m', options_from getenv options, k'))
        × AllHooked (declare_hooks m) m'
unfolding run
run-AllHooked g getenv options m k law lacks a =
    let options' = options_from getenv options in
    let t = find_targets m options' in
    let (m', k', e, rest) =
      hook_functions-AllHooked t g (declare_hooks m) k law (find_targets-IsQuiet m options' lacks)
        (AllSound-declare_hooks t m a) in
    (m', k', rw (read_options-from getenv options, e), rest)
