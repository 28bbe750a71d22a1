-- ===== src/Formatter/Names.antt =====
-- `makeUniqueFilename`: the name is the first candidate that no file has.
use ia2_provsan.Base.{
  ℕ, zero, suc, ◌+◌, ◌≤◌, ◌<◌, String, none, some, ◌≡◌, ◌≢◌, refl, ap, ◌⊎◌, inl, inr, arith, ◌==◌,
  ==_iff, Bool-cases, Option-cases, Bool,
}
use ia2_provsan.Formatter.{Host, attempts, unique_name, next_name, make_unique_filename}

module _ (host : Host) (w : host.World) (draw : ℕ → ℕ) (path base_name extension : String) where
  abbrev pub candidate : ℕ → String
  candidate attempt = unique_name host draw path base_name extension attempt

  -- A file, or a directory, has the name of the candidate.
  abbrev pub Taken : ℕ → Type 0
  Taken attempt = host.stat w (candidate attempt) ≢ none

  Taken-some : (i j : ℕ) (d : Bool) → host.stat w (candidate i) ≡ some d → j ≡ i → Taken j
  Taken-some i j d e same free = cc (ap (λ k. host.stat w (candidate k)) same)

  Taken-from :
      (i n : ℕ) (d : Bool)
      → host.stat w (candidate i) ≡ some d
      → ((j : ℕ) → suc i ≤ j → j < n → Taken j)
      → (j : ℕ) → i ≤ j
      → j < n
      → Taken j
  Taken-from i n d e rest j low high = elim (Bool-cases (j == i)) [
    | inl same ↦ Taken-some i j d e ((==_iff j i).0 same)
    | inr other ↦ rest j (ground arith) high
  ]

  next_name_cases :
      (left i : ℕ)
      → ((k : ℕ) × (i ≤ k)
          × (k < i + left)
          × (next_name host w draw path base_name extension left i ≡ some (candidate k))
          × (host.stat w (candidate k) ≡ none)
          × ((j : ℕ) → i ≤ j → j < k → Taken j))
        ⊎ ((next_name host w draw path base_name extension left i ≡ none)
            × ((j : ℕ) → i ≤ j → j < i + left → Taken j))
  unfolding next_name
  next_name_cases zero i = inr (refl, λ j low high. absurd (omega arith))
  next_name_cases (suc left) i = elim (Option-cases (host.stat w (candidate i))) [
    | inl free ↦
        inl (i, omega arith, omega arith, rw free, free, λ j low high. absurd (omega arith))
    | inr (d, busy) ↦ elim (next_name_cases left (suc i)) [
      | inl (k, low, high, found, free, before) ↦
          inl (k, omega arith, omega arith, rw busy found, free, Taken-from i k d busy before)
      | inr (failed, all) ↦ inr (
        rw busy failed,
        Taken-from i (i + suc left) d busy (λ j low high. all j low (omega arith)),
      )
    ]
  ]

  -- The name is the first of 128 candidates that nothing has in the file system; there is no name
  -- exactly when each of them is taken.
  pub make_unique_filename_first :
      ((k : ℕ) × (k < attempts)
        × (make_unique_filename host w draw path base_name extension ≡ some (candidate k))
        × (host.stat w (candidate k) ≡ none)
        × ((j : ℕ) → j < k → Taken j))
      ⊎ ((make_unique_filename host w draw path base_name extension ≡ none)
          × ((j : ℕ) → j < attempts → Taken j))
  unfolding make_unique_filename
  make_unique_filename_first = elim (next_name_cases attempts 0) [
    | inl (k, low, high, found, free, before) ↦
        inl (k, omega arith, found, free, λ j below. before j (omega arith) below)
    | inr (failed, all) ↦ inr (failed, λ j below. all j (omega arith) (omega arith))
  ]

  -- A name that is chosen is free.
  pub make_unique_filename_free :
      (name : String)
      → make_unique_filename host w draw path base_name extension ≡ some name
      → host.stat w name ≡ none
  make_unique_filename_free name chosen = elim make_unique_filename_first [
    | inl (k, below, found, free, before) ↦ cc
    | inr (failed, all) ↦ cc
  ]
