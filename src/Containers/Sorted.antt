-- ===== src/Containers/Sorted.antt =====
-- std::map from addresses: entries in ascending order of their keys. An iterator is a position,
-- the entries before it (nearest first) and those from it on.
use ia2_provsan.Base.{ℕ, ◌≤◌, ◌<◌, ◌≡◌, refl, Bool, true, false, Option, none, some, List, [], ◌∷◌}
use ia2_provsan.Base.{ltb, ◌==◌, if◌then◌else◌, arith}

abbrev pub Sorted {ℓ} : Type ℓ → Type ℓ
Sorted V = List (ℕ × V)

pub record Iter {ℓ} (V : Type ℓ) : Type ℓ where
  pub before : Sorted V
  pub after : Sorted V

module _ {ℓ} {V : Type ℓ} where
  -- `emplace`: an entry with the key stays as it is.
  unfoldable pub emplace : ℕ → V → Sorted V → Sorted V
  emplace k v [] = (k, v) ∷ []
  emplace k v ((j, w) ∷ m) =
      if k == j then (j, w) ∷ m else if ltb k j then (k, v) ∷ (j, w) ∷ m else (j, w) ∷ emplace k v m

  -- `erase(key)`
  unfoldable pub erase : ℕ → Sorted V → Sorted V
  erase k [] = []
  erase k ((j, w) ∷ m) = if k == j then m else (j, w) ∷ erase k m

  unfoldable pub lookup : ℕ → Sorted V → Option V
  lookup k [] = none
  lookup k ((j, w) ∷ m) = if k == j then some w else lookup k m

  -- The first position whose key is not below `k`.
  unfoldable pub lower_bound_from : Sorted V → Sorted V → ℕ → Iter V
  lower_bound_from before [] k = record { before = before; after = [] }
  lower_bound_from before ((j, w) ∷ m) k =
      let onward = lower_bound_from ((j, w) ∷ before) m k in
      if ltb j k then onward else record { before = before; after = (j, w) ∷ m }

  abbrev pub lower_bound : Sorted V → ℕ → Iter V
  lower_bound m k = lower_bound_from [] m k

  -- `*it`; `none` at `end()`.
  abbrev head : Sorted V → Option (ℕ × V)
  head [] = none
  head (e ∷ m) = some e

  abbrev pub deref : Iter V → Option (ℕ × V)
  deref it = head it.after

  abbrev null : Sorted V → Bool
  null [] = true
  null (e ∷ m) = false

  abbrev pub is_begin : Iter V → Bool
  is_begin it = null it.before

  -- `--it`
  abbrev move_back : Sorted V → Sorted V → Iter V
  move_back [] after = record { before = []; after = after }
  move_back (e ∷ before) after = record { before = before; after = e ∷ after }

  abbrev pub prev : Iter V → Iter V
  prev it = move_back it.before it.after

  -- Every key is greater than `k`, and they ascend.
  abbrev pub After : ℕ → Sorted V → Type 0
  After k [] = Unit {0}
  After k ((j, w) ∷ m) = (k < j) × After j m

  pub After-mono : (i k : ℕ) (m : Sorted V) → i ≤ k → After k m → After i m
  After-mono i k [] h a = tt
  After-mono i k ((j, w) ∷ m) h a = (omega arith, a.1)

  pub lookup_below : (i k : ℕ) (m : Sorted V) → i ≤ k → After k m → lookup i m ≡ none
  unfolding lookup
  lookup_below i k [] h a = refl
  lookup_below i k ((j, w) ∷ m) h a = ground (arith, lookup_below i j m)

  pub lookup-emplace :
      (b j k : ℕ) (v : V) (m : Sorted V)
      → After b m
      → lookup j (emplace k v m)
        ≡ (if j == k then some (elim (lookup k m) [ none ↦ v | some w ↦ w ]) else lookup j m)
  unfolding lookup emplace
  lookup-emplace b j k v [] a = refl
  lookup-emplace b j k v ((i, w) ∷ m) a =
      ground (arith, lookup-emplace i j k v m a.1, lookup_below k i m, lookup_below j i m)

  pub lookup-erase :
      (b j k : ℕ) (m : Sorted V)
      → After b m
      → lookup j (erase k m) ≡ (if j == k then none else lookup j m)
  unfolding lookup erase
  lookup-erase b j k [] a = ground arith
  lookup-erase b j k ((i, w) ∷ m) a = ground (arith, lookup-erase i j k m a.1, lookup_below j i m)

  -- The keys ascend.
  abbrev pub Ascending : Sorted V → Type 0
  Ascending [] = Unit {0}
  Ascending ((j, w) ∷ m) = After j m

  -- The value that an entry with the key has already, or the new one.
  abbrev pub older_or : Option V → V → V
  older_or none v = v
  older_or (some w) v = w

  emplace-After : (b k : ℕ) (v : V) (m : Sorted V) → b < k → After b m → After b (emplace k v m)
  unfolding emplace
  emplace-After b k v [] h a = (h, tt)
  emplace-After b k v ((i, w) ∷ m) h a = ground (arith, emplace-After i k v m, a.1)

  pub emplace-Ascending : (k : ℕ) (v : V) (m : Sorted V) → Ascending m → Ascending (emplace k v m)
  unfolding emplace
  emplace-Ascending k v [] a = tt
  emplace-Ascending k v ((i, w) ∷ m) a = ground (arith, emplace-After i k v m)

module _ {V : Type 0} where
  pub lookup-emplace-Ascending :
      (j k : ℕ) (v : V) (m : Sorted V)
      → Ascending m
      → lookup j (emplace k v m) ≡ (if j == k then some (older_or (lookup k m) v) else lookup j m)
  unfolding lookup emplace
  lookup-emplace-Ascending j k v [] a = ground arith
  lookup-emplace-Ascending j k v ((i, w) ∷ m) a =
      ground (arith, lookup-emplace i j k v m a, lookup_below k i m, lookup_below j i m)
