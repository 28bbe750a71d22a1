-- ===== src/Containers/Hashed.antt =====
-- std::unordered_set and std::unordered_map over a key with its `operator==`. Their iteration
-- order is unspecified, so only statements that do not depend on it are made; here a new entry
-- stands first.
use ia2_provsan.Base.{◌≡◌, refl, Bool, true, false, ◌||◌, Option, none, some, List, [], ◌∷◌, arith}
use ia2_provsan.Base.{if◌then◌else◌, ◌⊎◌, inl, inr, Bool-cases}

module _ {ℓ} {K : Type ℓ} (beq : K → K → Bool) where
  unfoldable pub contains : List K → K → Bool
  contains [] k = false
  contains (j ∷ s) k = beq j k || contains s k

  -- `insert` and `emplace` of a set: an equal element stays as it is.
  unfoldable pub insert : List K → K → List K
  insert s k = if contains s k then s else k ∷ s

  module _ {κ} {V : Type κ} where
    -- `find`, with `none` for `end()`
    unfoldable pub find : List (K × V) → K → Option V
    find [] k = none
    find ((j, v) ∷ m) k = if beq j k then some v else find m k

    -- `emplace` of a map: an entry with an equal key stays as it is.
    unfoldable pub emplace : List (K × V) → K → V → List (K × V)
    emplace m k v = elim (find m k) [ none ↦ (k, v) ∷ m | some w ↦ m ]

    -- `erase(key)`
    unfoldable pub erase : List (K × V) → K → List (K × V)
    erase [] k = []
    erase ((j, v) ∷ m) k = if beq j k then m else (j, v) ∷ erase m k

-- `operator==` is an equivalence.
pub record IsEquivalence {ℓ} {K : Type ℓ} (beq : K → K → Bool) : Type ℓ where
  pub reflexive : (a : K) → beq a a ≡ true
  pub symmetric : (a b : K) → beq a b ≡ true → beq b a ≡ true
  pub transitive : (a b c : K) → beq a b ≡ true → beq b c ≡ true → beq a c ≡ true

module _ {ℓ} {K : Type ℓ} (beq : K → K → Bool) (laws : IsEquivalence beq) where
  pub contains-insert_self : (s : List K) (k : K) → contains beq (insert beq s k) k ≡ true
  unfolding insert contains
  contains-insert_self s k = ground (arith, laws.reflexive k)

  pub contains-insert_keep :
      (s : List K) (k j : K) → contains beq s j ≡ true → contains beq (insert beq s k) j ≡ true
  unfolding insert contains
  contains-insert_keep s k j h = ground arith

  pub contains-insert_cases :
      (s : List K) (k j : K)
      → contains beq (insert beq s k) j ≡ true
      → (contains beq s j ≡ true) ⊎ (beq k j ≡ true)
  unfolding insert contains
  contains-insert_cases s k j h = ground arith

  pub find_equal {κ} :
      {V : Type κ} (m : List (K × V)) (a b : K) → beq a b ≡ true → find beq m a ≡ find beq m b
  unfolding find
  find_equal [] a b h = refl
  find_equal ((j, v) ∷ m) a b h = ground (
    arith,
    find_equal m a b h,
    laws.transitive j a b,
    laws.transitive j b a,
    laws.symmetric a b h,
  )

  pub find-emplace {κ} :
      {V : Type κ} (m : List (K × V)) (k j : K) (v : V)
      → find beq (emplace beq m k v) j
        ≡ (if beq k j then some (elim (find beq m k) [ none ↦ v | some w ↦ w ]) else find beq m j)
  unfolding find emplace
  find-emplace m k j v = elim (Bool-cases (beq k j)) [
    | inl same ↦ ground (arith, find_equal m k j same)
    | inr other ↦ ground arith
  ]

  pub contains_equal : (s : List K) (a b : K) → beq a b ≡ true → contains beq s a ≡ contains beq s b
  unfolding contains
  contains_equal [] a b h = refl
  contains_equal (j ∷ s) a b h = ground (
    arith,
    contains_equal s a b h,
    laws.transitive j a b,
    laws.transitive j b a,
    laws.symmetric a b h,
  )

  pub contains-insert :
      (s : List K) (k x : K) → contains beq (insert beq s k) x ≡ (contains beq s x || beq k x)
  unfolding insert contains
  contains-insert s k x = ground (arith, contains_equal s k x)

  pub find-emplace_absent {κ} :
      {V : Type κ} (m : List (K × V)) (k : K) (v : V)
      → find beq m k ≡ none
      → find beq (emplace beq m k v) k ≡ some v
  unfolding find emplace
  find-emplace_absent m k v h = ground (arith, laws.reflexive k)

  pub erase-emplace {κ} :
      {V : Type κ} (m : List (K × V)) (k : K) (v : V)
      → find beq m k ≡ none
      → erase beq (emplace beq m k v) k ≡ m
  unfolding erase emplace
  erase-emplace m k v h = ground (arith, laws.reflexive k)

  pub emplace_present {κ} :
      {V : Type κ} (m : List (K × V)) (k : K) (v w : V)
      → find beq m k ≡ some w
      → emplace beq m k v ≡ m
  unfolding emplace
  emplace_present m k v w h = ground arith
