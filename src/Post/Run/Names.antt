-- ===== src/Post/Run/Names.antt =====
-- Numbering in place: the module keeps its calls, where the functions' names are distinct.
use ia2_provsan.Base.{
  String, Bool, true, false, List, [], ◌∷◌, ◌++◌, ◌≡◌, refl, sym, ◌∙◌, ap, Bool-cases, inl, inr,
  if◌then◌else◌, str_eq, str_eq_iff, not,
}
use ia2_provsan.Post.Ir.{Function}
use ia2_provsan.Post.Profile.{FaultMap}
use ia2_provsan.Post.Number.{
  Config, Tally, number_function, number_functions, func_sort, insert_sorted, sort_functions,
  definitions, assign_local_ids,
}
use ia2_provsan.Post.Removal.{any_lost}
use ia2_provsan.Post.Removal.Keys.{block_keys, keys, is_hook}
use ia2_provsan.Post.Removal.Collected.{number_function-keys}
use ia2_provsan.Post.Run.{find_named, put_back, function_or}

abbrev pub All {ℓ κ} : {A : Type ℓ} → (A → Type κ) → List A → Type κ
All P [] = Unit
All P (x ∷ xs) = P x × All P xs

pub All-map {ℓ κ μ} :
    {A : Type ℓ} (P : A → Type κ) (Q : A → Type μ) (xs : List A)
    → ((x : A) → P x → Q x)
    → All P xs
    → All Q xs
All-map P Q [] f a = tt
All-map P Q (x ∷ xs) f (p, a) = (f x p, All-map P Q xs f a)

pub All-both {ℓ κ μ} :
    {A : Type ℓ} (P : A → Type κ) (Q : A → Type μ) (xs : List A)
    → All P xs
    → All Q xs
    → All (λ x. P x × Q x) xs
All-both P Q [] a b = tt
All-both P Q (x ∷ xs) (p, a) (q, b) = ((p, q), All-both P Q xs a b)

-- No two functions have one name.
abbrev pub AreNamed : List Function → Type 0
AreNamed [] = Unit {0}
AreNamed (f ∷ fs) = All (λ g. str_eq f.name g.name ≡ false) fs × AreNamed fs

-- A function of the same name has the same calls and unreachable blocks.
abbrev SameCalls : Function → Function → Type 0
SameCalls f g = (block_keys g.blocks ≡ block_keys f.blocks) × (g.unreachable ≡ f.unreachable)

clash : {b : Bool} → b ≡ false → b ≡ true → ⊥
clash e f = let g : true ≡ false = sym f ∙ e in cc

str_eq_other : (s t : String) → str_eq s t ≡ false → str_eq t s ≡ true → ⊥
str_eq_other s t other same =
    let e = (str_eq_iff t s).0 same in clash other ((str_eq_iff s t).1 (sym e))

-- In a module whose functions have distinct names, those of one name are related, by a relation in
-- which each function stands to itself.
module _ (R : Function → Function → Type 0) where
  abbrev pub Agrees : Function → Function → Type 0
  Agrees f g = str_eq g.name f.name ≡ true → R f g

  pub module-Agrees :
      (m : List Function) → ((f : Function) → R f f) → AreNamed m → All (λ f. All (Agrees f) m) m
  module-Agrees [] itself d = tt
  module-Agrees (h ∷ m) itself (apart, d) = (
    (
      λ same. itself h,
      All-map (λ g. str_eq h.name g.name ≡ false) (Agrees h) m
          (λ g other same. absurd (str_eq_other h.name g.name other same)) apart,
    ),
    All-map (λ f. (str_eq h.name f.name ≡ false) × All (Agrees f) m) (λ f. All (Agrees f) (h ∷ m)) m
        (λ f both. ((λ same. absurd (clash both.0 same)), both.1))
        (All-both (λ f. str_eq h.name f.name ≡ false) (λ f. All (Agrees f) m) m apart
          (module-Agrees m itself d)),
  )

module _ {κ} (P : Function → Type κ) where
  All-if :
      (b : Bool) (f : Function) (rest : List Function)
      → P f
      → All P rest
      → All P (if b then f ∷ rest else rest)
  All-if true f rest p a = (p, a)
  All-if false f rest p a = a

  pub All-definitions : (m : List Function) → All P m → All P (definitions m)
  unfolding definitions
  All-definitions [] a = tt
  All-definitions (f ∷ m) (p, a) =
      All-if (not f.is_declaration) f (definitions m) p (All-definitions m a)

  All-insert_sorted :
      (f : Function) (gs : List Function) → P f → All P gs → All P (insert_sorted f gs)
  unfolding insert_sorted
  All-insert_sorted f [] p a = (p, tt)
  All-insert_sorted f (g ∷ gs) p (q, a) = elim (Bool-cases (func_sort g f)) [
    | inl before ↦ rw before (q, All-insert_sorted f gs p a)
    | inr after ↦ rw after (p, (q, a))
  ]

  pub All-sort_functions : (fs : List Function) → All P fs → All P (sort_functions fs)
  unfolding sort_functions
  All-sort_functions [] a = tt
  All-sort_functions (f ∷ fs) (p, a) =
      All-insert_sorted f (sort_functions fs) p (All-sort_functions fs a)

module _ (cfg : Config) (removes : cfg.remove_hooks ≡ true) (fault_map : FaultMap) where
  All-number_functions :
      (f : Function) (fs : List Function) (t : Tally)
      → All (Agrees SameCalls f) fs
      → All (Agrees SameCalls f) (number_functions cfg fault_map fs t).0
  unfolding number_functions number_function
  All-number_functions f [] t a = tt
  All-number_functions f (g ∷ fs) t (p, a) = (
    λ same.
        let (calls, lost) = p same in
        (number_function-keys cfg removes fault_map g t ∙ calls, lost),
    All-number_functions f fs (number_function cfg fault_map g t).1 a,
  )

found-Agrees :
    (f : Function) (fs : List Function)
    → All (Agrees SameCalls f) fs
    → SameCalls f (function_or (find_named fs f.name) f)
unfolding find_named
found-Agrees f [] a = (refl, refl)
found-Agrees f (g ∷ fs) (p, a) = elim (Bool-cases (str_eq g.name f.name)) [
  | inl same ↦ rw same (p same)
  | inr other ↦ rw other (found-Agrees f fs a)
]

SameCalls-if : (b : Bool) (f g : Function) → SameCalls f g → SameCalls f (if b then f else g)
SameCalls-if true f g same = (refl, refl)
SameCalls-if false f g same = same

keys-put_back :
    (numbered fs : List Function)
    → All (λ f. All (Agrees SameCalls f) numbered) fs
    → (keys (put_back numbered fs) ≡ keys fs)
      × (any_lost is_hook (put_back numbered fs) ≡ any_lost is_hook fs)
unfolding put_back keys any_lost
keys-put_back numbered [] a = (refl, refl)
keys-put_back numbered (f ∷ fs) (p, a) =
    let ih = keys-put_back numbered fs a in
    let (calls, lost) =
      SameCalls-if f.is_declaration f (function_or (find_named numbered f.name) f)
        (found-Agrees f numbered p) in
    (rw (calls, ih.0), rw (lost, ih.1))

-- A declaration has no reachable blocks.
abbrev pub AreEmpty : List Function → Type 0
AreEmpty [] = Unit {0}
AreEmpty (f ∷ fs) = (f.is_declaration ≡ true → f.blocks ≡ []) × AreEmpty fs

keys_if :
    (b : Bool) (f : Function) (rest : List Function)
    → (b ≡ true → f.blocks ≡ [])
    → keys (if not b then f ∷ rest else rest) ≡ block_keys f.blocks ++ keys rest
unfolding keys block_keys
keys_if true f rest empty = rw (empty refl)
keys_if false f rest empty = refl

pub keys-definitions : (m : List Function) → AreEmpty m → keys (definitions m) ≡ keys m
unfolding definitions keys
keys-definitions [] a = refl
keys-definitions (f ∷ m) (empty, a) =
    keys_if f.is_declaration f (definitions m) empty
    ∙ ap (λ l. block_keys f.blocks ++ l) (keys-definitions m a)

-- After numbering, the calls of the module and its unreachable hooks are as before.
pub keys-assign_local_ids :
    (cfg : Config) (fault_map : FaultMap) (m : List Function) (t : Tally)
    → cfg.remove_hooks ≡ true
    → AreNamed m
    → let numbered = (assign_local_ids cfg fault_map m t).0 in
      (keys (put_back numbered m) ≡ keys m)
      × (any_lost is_hook (put_back numbered m) ≡ any_lost is_hook m)
unfolding assign_local_ids
keys-assign_local_ids cfg fault_map m t removes named =
    let sorted = sort_functions (definitions m) in
    let numbered = (number_functions cfg fault_map sorted t).0 in
    keys-put_back numbered m (
      All-map (λ f. All (Agrees SameCalls f) m) (λ f. All (Agrees SameCalls f) numbered) m
        (λ f a. All-number_functions cfg removes fault_map f sorted t (
          All-sort_functions (Agrees SameCalls f) (definitions m)
            (All-definitions (Agrees SameCalls f) m a)))
        (module-Agrees SameCalls m (λ f. (refl, refl)) named))
