-- ===== src/Post/Patch/Replaced.antt =====
-- The loop over the patch list gives each listed call its replacement, once, and changes no other.
use ia2_provsan.Base.{
  ℕ, String, Bool, true, false, ◌||◌, Option, none, some, List, [], ◌∷◌, ◌≡◌, refl, sym, ◌∙◌, ap,
  ◌==◌, if◌then◌else◌, str_eq, subst, Bool-cases, Option-cases, inl, inr,
}
use ia2_provsan.Base.Outcome.{ok}
use ia2_provsan.Post.Ir.{CallBase, Function}
use ia2_provsan.Post.Patch.{
  alloc_replacement, has_function, change_calls, any_call, is_indirect, lacks_callee, replaced,
  patch_call, patch_at, patch_instruction, patch_instructions,
}
use ia2_provsan.Post.Patch.Calls.{
  change_calls-twice, change_calls_none, has_function-change_calls, any_call-change_calls,
}

unfoldable pub listed : List ℕ → ℕ → Bool
listed [] identity = false
listed (k ∷ patches) identity = (identity == k) || listed patches identity

-- Every call with a listed identity has a callee.
abbrev pub AllDirect : List ℕ → List Function → Type 0
AllDirect [] m = Unit {0}
AllDirect (identity ∷ patches) m =
    (any_call (lacks_callee identity) m ≡ false) × AllDirect patches m

abbrev pub patch_listed : List Function → List ℕ → CallBase → CallBase
patch_listed m patches c = if listed patches c.identity then patch_call m c else c

-- No replacement has a replacement.
abbrev IsFinal : Option String → Type 0
IsFinal none = Unit {0}
IsFinal (some replacement) = alloc_replacement replacement ≡ none

choice-IsFinal :
    (a b c : Bool)
    → IsFinal (
        if a
        then some "__rust_untrusted_alloc"
        else if b
        then some "untrusted_malloc"
        else if c
        then some "__rust_untrusted_alloc_zeroed"
        else none)
unfolding alloc_replacement str_eq
choice-IsFinal true b c = refl
choice-IsFinal false true c = refl
choice-IsFinal false false true = refl
choice-IsFinal false false false = tt

alloc_replacement-IsFinal : (name : String) → IsFinal (alloc_replacement name)
unfolding alloc_replacement
alloc_replacement-IsFinal name =
    choice-IsFinal (str_eq name "__rust_alloc") (str_eq name "trusted_malloc")
      (str_eq name "__rust_alloc_zeroed")

alloc_replacement-twice :
    (name replacement : String)
    → alloc_replacement name ≡ some replacement
    → alloc_replacement replacement ≡ none
alloc_replacement-twice name replacement e = subst IsFinal e (alloc_replacement-IsFinal name)

replaced-twice :
    (m : List Function) (called : Option String)
    → replaced m (replaced m called) ≡ replaced m called
replaced-twice m none = refl
replaced-twice m (some name) = elim (Option-cases (alloc_replacement name)) [
  | inl absent ↦ rw (absent, absent)
  | inr (r, present) ↦ elim (Bool-cases (has_function m r)) [
    | inl there ↦ rw (present, there, alloc_replacement-twice name r present)
    | inr missing ↦ rw (present, missing, present, missing)
  ]
]

replaced-change_calls :
    (g : CallBase → CallBase) (m : List Function) (called : Option String)
    → replaced (change_calls g m) called ≡ replaced m called
replaced-change_calls g m none = refl
replaced-change_calls g m (some name) = elim (Option-cases (alloc_replacement name)) [
  | inl absent ↦ rw absent
  | inr (r, present) ↦ rw (present, has_function-change_calls g m r)
]

patch_step :
    (m : List Function) (identity : ℕ) (patches : List ℕ) (c : CallBase)
    → patch_listed (change_calls (patch_at m identity) m) patches (patch_at m identity c)
      ≡ patch_listed m (identity ∷ patches) c
unfolding listed
patch_step m identity patches c =
    let m' = change_calls (patch_at m identity) m in
    let known : (o : Option String) → replaced m' o ≡ replaced m o =
      replaced-change_calls (patch_at m identity) m in
    elim (Bool-cases (c.identity == identity)) [
      | inl hit ↦ elim (Bool-cases (listed patches c.identity)) [
        | inl again ↦
            rw (hit, again)
              (ap (λ o. record c { called = o })
                (known (replaced m c.called) ∙ replaced-twice m c.called))
        | inr once ↦ rw (hit, once)
      ]
      | inr missed ↦ elim (Bool-cases (listed patches c.identity)) [
        | inl later ↦ rw (missed, later) (ap (λ o. record c { called = o }) (known c.called))
        | inr never ↦ rw (missed, never)
      ]
    ]

is_indirect-replaced :
    (m : List Function) (called : Option String)
    → is_indirect (replaced m called) ≡ is_indirect called
is_indirect-replaced m none = refl
is_indirect-replaced m (some name) = refl

lacks_callee-kept :
    (m : List Function) (identity other : ℕ) (c : CallBase)
    → lacks_callee other (patch_at m identity c) ≡ lacks_callee other c
lacks_callee-kept m identity other c = elim (Bool-cases (c.identity == identity)) [
  | inl hit ↦ rw (hit, is_indirect-replaced m c.called)
  | inr missed ↦ rw missed
]

AllDirect-change :
    (m : List Function) (identity : ℕ) (patches : List ℕ)
    → AllDirect patches m
    → AllDirect patches (change_calls (patch_at m identity) m)
AllDirect-change m identity [] d = tt
AllDirect-change m identity (k ∷ patches) (d, ds) = (
  any_call-change_calls (patch_at m identity) (lacks_callee k) (lacks_callee-kept m identity k) m
      ∙ d,
  AllDirect-change m identity patches ds,
)

-- If every call of the patch list is direct, the pass returns, and then each listed call of an
-- allocator that has a replacement in the module calls the replacement, also if it is listed
-- several times; every other call, and the rest of the code, are as before.
pub patch_instructions_listed :
    (m : List Function) (patches : List ℕ)
    → AllDirect patches m
    → patch_instructions m patches ≡ ok (change_calls (patch_listed m patches) m)
unfolding patch_instructions patch_instruction
patch_instructions_listed m [] d =
    unfold listed in ap ok (sym (change_calls_none (patch_listed m []) (λ c. refl) m))
patch_instructions_listed m (identity ∷ patches) (d, ds) = rw d (
    patch_instructions_listed (change_calls (patch_at m identity) m) patches
      (AllDirect-change m identity patches ds)
    ∙ ap ok (
        change_calls-twice (patch_listed (change_calls (patch_at m identity) m) patches)
          (patch_at m identity) (patch_listed m (identity ∷ patches))
          (patch_step m identity patches) m))
