-- ===== src/RoundTrip/Reports.antt =====
-- From a fault set to the calls that the Post pass patches: `assignLocalIDs` of
-- DynUntrustedAllocPost.cpp over a fault map that holds a fault set of the runtime.
use ia2_provsan.Base.{
  ℕ, ◌≡◌, refl, ◌∙◌, ap, String, Bool, true, false, not, ◌&&◌, ◌||◌, Option, none, some, List, [],
  ◌∷◌, arith, ◌==◌, str_eq, if◌then◌else◌, Bool-cases, inl, inr,
}
use ia2_provsan.Base.Int.{magnitude}
use ia2_provsan.Base.Lists.{get_elem?}
use ia2_provsan.Containers.Sorted.{Sorted}
use ia2_provsan.Signals.{increment}
use ia2_provsan.Site.{AllocSite}
use ia2_provsan.Post.Profile.{FaultingSite, FaultMap, find_function}
use ia2_provsan.Post.FaultMap.{site_at, in_function}
use ia2_provsan.Post.Ir.{CallBase, Function}
use ia2_provsan.Post.Number.{
  Config, Tally, fault_at, alloc_inst, push_patch, number_function, number_functions, func_sort,
  insert_sorted, sort_functions, definitions, assign_local_ids,
}
use ia2_provsan.Post.Number.Patches.{reported, block_hooks, number_function-reported}
use ia2_provsan.Post.Patch.Replaced.{listed}
use ia2_provsan.Post.Removal.Keys.{listed-append}
use ia2_provsan.RoundTrip.{first_fault}

-- A site of the fault set has the function's name and the number.
unfoldable pub has_fault : List AllocSite → String → ℕ → Bool
has_fault [] name id = false
has_fault (s ∷ faults) name id =
    (str_eq s.func_name name && id == magnitude s.local_id) || has_fault faults name id

abbrev pub is_number : Option ℕ → ℕ → Bool
is_number none k = false
is_number (some i) k = k == i

-- One of the hooks, which are numbered from `id` on, has the result of call `k` and a fault.
unfoldable pub has_faulty_hook : List AllocSite → String → ℕ → List CallBase → ℕ → Bool
has_faulty_hook faults name id [] k = false
has_faulty_hook faults name id (c ∷ cs) k =
    (has_fault faults name id && is_number (alloc_inst (get_elem? c.args 0)) k)
    || has_faulty_hook faults name (increment id) cs k

abbrev pub is_faulty_in : List AllocSite → Function → ℕ → Bool
is_faulty_in faults f k = has_faulty_hook faults f.name 0 (block_hooks f.blocks) k

-- One of the module's definitions has such a hook, where each numbers its own hooks from 0.
unfoldable pub is_faulty : List AllocSite → List Function → ℕ → Bool
is_faulty faults [] k = false
is_faulty faults (f ∷ fs) k =
    (not f.is_declaration && is_faulty_in faults f k) || is_faulty faults fs k

abbrev is_found : Option FaultingSite → Bool
is_found none = false
is_found (some site) = true

first_fault-has_fault :
    (faults : List AllocSite) (name : String) (id : ℕ)
    → is_found (first_fault faults name id) ≡ has_fault faults name id
unfolding first_fault has_fault
first_fault-has_fault [] name id = refl
first_fault-has_fault (s ∷ faults) name id = ground (arith, first_fault-has_fault faults name id)

fault_at-in_function :
    (o : Option (Sorted FaultingSite)) (id : ℕ) → fault_at o id ≡ in_function o id
fault_at-in_function none id = refl
fault_at-in_function (some sites) id = refl

listed_pushed :
    (o : Option FaultingSite) (a : Option ℕ) (k : ℕ)
    → listed (push_patch o a []) k ≡ (is_found o && is_number a k)
unfolding listed
listed_pushed (some site) (some i) k = ground arith
listed_pushed (some site) none k = refl
listed_pushed none a k = refl

-- A fault map that has the first sites of a fault set.
abbrev pub Holds : FaultMap → List AllocSite → Type 0
Holds fault_map faults =
    (name : String) (id : ℕ) → site_at fault_map name id ≡ first_fault faults name id

module _ (fault_map : FaultMap) (faults : List AllocSite) (holds : Holds fault_map faults) where
  listed-reported :
      (name : String) (id : ℕ) (cs : List CallBase) (k : ℕ)
      → listed (reported (find_function fault_map name) id cs) k
        ≡ has_faulty_hook faults name id cs k
  unfolding reported has_faulty_hook
  listed-reported name id [] k = unfold listed in refl
  listed-reported name id (c ∷ cs) k =
      let o = find_function fault_map name in
      let a = alloc_inst (get_elem? c.args 0) in
      let found : is_found (fault_at o id) ≡ has_fault faults name id =
        ap (λ s. is_found s) (fault_at-in_function o id ∙ holds name id)
        ∙ first_fault-has_fault faults name id in
      listed-append (push_patch (fault_at o id) a []) (reported o (increment id) cs) k
      ∙ rw (listed_pushed (fault_at o id) a k, found, listed-reported name (increment id) cs k) refl

  module _ (cfg : Config) (given : cfg.profile_path_empty ≡ false) where
    any_in : List Function → ℕ → Bool
    any_in [] k = false
    any_in (f ∷ fs) k = is_faulty_in faults f k || any_in fs k

    number_functions-listed :
        (fs : List Function) (t : Tally) (k : ℕ)
        → listed (number_functions cfg fault_map fs t).1.patch_list k
          ≡ (listed t.patch_list k || any_in fs k)
    unfolding number_functions any_in
    number_functions-listed [] t k = ground arith
    number_functions-listed (f ∷ fs) t k =
        let t₁ = (number_function cfg fault_map f t).1 in
        let hooks = block_hooks f.blocks in
        let first : listed t₁.patch_list k ≡ (listed t.patch_list k || is_faulty_in faults f k) =
          ap (λ l. listed l k) (number_function-reported cfg fault_map f t given)
          ∙ listed-append t.patch_list (reported (find_function fault_map f.name) 0 hooks) k
          ∙ ap (λ b. listed t.patch_list k || b) (listed-reported f.name 0 hooks k) in
        number_functions-listed fs t₁ k ∙ rw first (ground arith)

    any_in-insert_sorted :
        (f : Function) (gs : List Function) (k : ℕ)
        → any_in (insert_sorted f gs) k ≡ (is_faulty_in faults f k || any_in gs k)
    unfolding insert_sorted any_in
    any_in-insert_sorted f [] k = refl
    any_in-insert_sorted f (g ∷ gs) k = elim (Bool-cases (func_sort g f)) [
      | inl before ↦ rw (before, any_in-insert_sorted f gs k) (ground arith)
      | inr after ↦ rw after refl
    ]

    any_in-sort_functions :
        (fs : List Function) (k : ℕ) → any_in (sort_functions fs) k ≡ any_in fs k
    unfolding sort_functions any_in
    any_in-sort_functions [] k = refl
    any_in-sort_functions (f ∷ fs) k =
        any_in-insert_sorted f (sort_functions fs) k
        ∙ ap (λ b. is_faulty_in faults f k || b) (any_in-sort_functions fs k)

    any_in-if :
        (b : Bool) (f : Function) (rest : List Function) (k : ℕ)
        → any_in (if b then f ∷ rest else rest) k
          ≡ ((b && is_faulty_in faults f k) || any_in rest k)
    unfolding any_in
    any_in-if true f rest k = refl
    any_in-if false f rest k = refl

    any_in-definitions :
        (m : List Function) (k : ℕ) → any_in (definitions m) k ≡ is_faulty faults m k
    unfolding definitions is_faulty
    any_in-definitions [] k = unfold any_in in refl
    any_in-definitions (f ∷ m) k =
        any_in-if (not f.is_declaration) f (definitions m) k
        ∙ ap (λ b. (not f.is_declaration && is_faulty_in faults f k) || b) (any_in-definitions m k)

    -- The calls that the numbering reports, on top of those reported before, are those on whose
    -- result a definition has a numbered hook whose number and function a site of the fault set has.
    pub assign_local_ids-reports :
        (m : List Function) (t : Tally) (k : ℕ)
        → listed (assign_local_ids cfg fault_map m t).1.patch_list k
          ≡ (listed t.patch_list k || is_faulty faults m k)
    unfolding assign_local_ids
    assign_local_ids-reports m t k =
        number_functions-listed (sort_functions (definitions m)) t k
        ∙ ap (λ b. listed t.patch_list k || b)
            (any_in-sort_functions (definitions m) k ∙ any_in-definitions m k)
