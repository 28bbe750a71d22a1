-- ===== src/Pkru/Slots.antt =====
-- The register as sixteen fields: what `store_rights` does to each of them.
use native.Mathlib.Nat.{pow-suc, div-div-eq-div-mul}
use ia2_provsan.Base.{ℕ, zero, suc, ◌+◌, ◌-◌, ◌*◌, ◌/◌, ◌%◌, ◌^◌, ◌≤◌, ◌<◌, bit_and, bit_or}
use ia2_provsan.Base.{◌≡◌, refl, ap, ◌≢◌, arith}
use ia2_provsan.Base.Words.{
  bit_and_pair, bit_and_pair_clear, bit_or_pair, bit_or_low, bit_and-zero, ones, bit_and-ones,
}
use ia2_provsan.Pkru.{store_rights}

-- The rights of key `k`, read off the low end of the register.
pub slot : ℕ → ℕ → ℕ
slot p zero = p % 4
slot p (suc k) = slot (p / 4) k

-- The register with the rights of key `k` replaced.
pub put_slot : ℕ → ℕ → ℕ → ℕ
put_slot p zero r = 4 * (p / 4) + r
put_slot p (suc k) r = 4 * put_slot (p / 4) k r + p % 4

-- `w` pairs of ones with a gap at pair `k`.
gap : ℕ → ℕ → ℕ
gap zero k = 0
gap (suc w) zero = 4 * ones w
gap (suc w) (suc k) = 4 * gap w k + 3

pow_pair : (k : ℕ) → 2 ^ (2 * suc k) ≡ 4 * 2 ^ (2 * k)
pow_pair k =
    let e : 2 * suc k ≡ suc (suc (2 * k)) = omega arith in
    rw e (omega (arith, pow-suc 2 (suc (2 * k)), pow-suc 2 (2 * k)))

gap-add_mask : (w k : ℕ) → k < w → gap w k + 3 * 2 ^ (2 * k) ≡ ones w
unfolding gap ones
gap-add_mask zero k h = absurd (omega arith)
gap-add_mask (suc w) zero h = omega arith
gap-add_mask (suc w) (suc k) h = omega (arith, gap-add_mask w k (omega arith), pow_pair k)

bit_or-gap :
    (w p k r : ℕ)
    → k < w
    → p ≤ ones w
    → r < 4
    → bit_or (bit_and p (gap w k)) (r * 2 ^ (2 * k)) ≡ put_slot p k r
unfolding gap put_slot ones
bit_or-gap zero p k r h bound small = absurd (omega arith)
bit_or-gap (suc w) p zero r h bound small =
    let unit : r * 2 ^ (2 * 0) ≡ r = omega arith in
    rw (unit, bit_and_pair_clear p (ones w), bit_and-ones w (p / 4) (omega arith))
      (bit_or_low (p / 4) r small)
bit_or-gap (suc w) p (suc k) r h bound small =
    let shifted : r * 2 ^ (2 * suc k) ≡ 4 * (r * 2 ^ (2 * k)) =
      omega (arith, ap (λ (t : ℕ). r * t) (pow_pair k)) in
    let x = bit_and (p / 4) (gap w k) in
    let back : (4 * x + p % 4) / 4 ≡ x = omega arith in
    rw (shifted, bit_and_pair p (gap w k), bit_or_pair (4 * x + p % 4) (r * 2 ^ (2 * k)), back)
      (omega (arith, bit_or-gap w (p / 4) k r (omega arith) (omega arith) small))

pow_pair-le : (k w : ℕ) → k < w → 3 * 2 ^ (2 * k) ≤ ones w
pow_pair-le k w h = omega (arith, gap-add_mask w k h)

ones_sixteen : ones 16 ≡ 2 ^ 32 - 1
unfolding ones
ones_sixteen = refl

-- For a key and rights in range, the register operation replaces the key's field.
pub store_rights-put_slot :
    (p k r : ℕ) → p < 2 ^ 32 → k < 16 → r < 4 → store_rights p k r ≡ put_slot p k r
unfolding store_rights
store_rights-put_slot p k r bound hk hr =
    let fits : 3 * 2 ^ (2 * k) < 2 ^ 32 = omega (arith, pow_pair-le k 16 hk, ones_sixteen) in
    let le : r * 2 ^ (2 * k) < 2 ^ 32 = grind arith in
    let m : 3 * 2 ^ (2 * k) % 2 ^ 32 ≡ 3 * 2 ^ (2 * k) = omega arith in
    let v : r * 2 ^ (2 * k) % 2 ^ 32 ≡ r * 2 ^ (2 * k) = omega arith in
    let g : 2 ^ 32 - 1 - 3 * 2 ^ (2 * k) ≡ gap 16 k =
      omega (arith, gap-add_mask 16 k hk, ones_sixteen) in
    rw (m, v, g) (bit_or-gap 16 p k r hk (omega (arith, ones_sixteen)) hr)

-- The field that is read by shifting and masking.
pub slot-shift : (p k : ℕ) → bit_and (p / 2 ^ (2 * k)) 3 ≡ slot p k
unfolding slot
slot-shift p zero =
    let unit : p / 2 ^ (2 * 0) ≡ p = omega arith in
    rw unit (omega (arith, bit_and_pair p 0, bit_and-zero (p / 4)))
slot-shift p (suc k) =
    rw (pow_pair k, ← div-div-eq-div-mul p 4 (2 ^ (2 * k))) (slot-shift (p / 4) k)

pub slot-lt : (p k : ℕ) → slot p k < 4
unfolding slot
slot-lt p zero = omega arith
slot-lt p (suc k) = slot-lt (p / 4) k

pub slot-put_slot_self : (p k r : ℕ) → r < 4 → slot (put_slot p k r) k ≡ r
unfolding slot put_slot
slot-put_slot_self p zero r h = omega arith
slot-put_slot_self p (suc k) r h =
    let e : (4 * put_slot (p / 4) k r + p % 4) / 4 ≡ put_slot (p / 4) k r = omega arith in
    rw e (slot-put_slot_self (p / 4) k r h)

pub slot-put_slot_ne : (p k j r : ℕ) → r < 4 → j ≢ k → slot (put_slot p k r) j ≡ slot p j
unfolding slot put_slot
slot-put_slot_ne p zero zero r h ne = absurd (ne refl)
slot-put_slot_ne p zero (suc j) r h ne = let e : (4 * (p / 4) + r) / 4 ≡ p / 4 = omega arith in rw e
slot-put_slot_ne p (suc k) zero r h ne = omega arith
slot-put_slot_ne p (suc k) (suc j) r h ne =
    let e : (4 * put_slot (p / 4) k r + p % 4) / 4 ≡ put_slot (p / 4) k r = omega arith in
    rw e (slot-put_slot_ne (p / 4) k j r h (λ q. ne (ap suc q)))

-- Writing back what was read, over any value, gives the old register.
pub put_slot-restore : (p k r : ℕ) → r < 4 → put_slot (put_slot p k r) k (slot p k) ≡ p
unfolding slot put_slot
put_slot-restore p zero r h = omega arith
put_slot-restore p (suc k) r h =
    let e : (4 * put_slot (p / 4) k r + p % 4) / 4 ≡ put_slot (p / 4) k r = omega arith in
    rw e (omega (arith, put_slot-restore (p / 4) k r h))

put_slot-lt : (w p k r : ℕ) → k < w → p ≤ ones w → r < 4 → put_slot p k r ≤ ones w
unfolding put_slot ones
put_slot-lt zero p k r h bound small = absurd (omega arith)
put_slot-lt (suc w) p zero r h bound small = omega arith
put_slot-lt (suc w) p (suc k) r h bound small =
    omega (arith, put_slot-lt w (p / 4) k r (omega arith) (omega arith) small)

pub put_slot-word : (p k r : ℕ) → p < 2 ^ 32 → k < 16 → r < 4 → put_slot p k r < 2 ^ 32
put_slot-word p k r bound hk hr =
    omega (arith, put_slot-lt 16 p k r hk (omega (arith, ones_sixteen)) hr, ones_sixteen)
