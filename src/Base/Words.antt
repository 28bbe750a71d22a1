-- ===== src/Base/Words.antt =====
-- Laws of the bitwise operations at variables, from the recursion on binary digits.
use Prim.Native.Nat.{ℕ, zero, suc, ◌+◌, ◌*◌, ◌/◌, ◌-◌, ◌%◌, ◌^◌, ◌≤◌, ◌<◌, min, max}
use Prim.Native.Nat.{bit_and, bit_or, digits, bitwise, bit_and-bitwise, bit_or-bitwise}
use mathlib.Core.Path.{◌≡◌, refl, ap}
use native.Mathlib.Omega.{arith}

-- The count of digits to go may be any number that is large enough.
module _ (last : ℕ → ℕ) (digit : ℕ → ℕ → ℕ) where
  one_more : (k x y : ℕ) → x ≤ k → digits last digit (suc k) x y ≡ digits last digit k x y
  one_more zero zero y h = refl
  one_more zero (suc x) y h = absurd (omega arith)
  one_more (suc k) zero y h = refl
  one_more (suc k) (suc x) y h = rw (one_more k (suc x / 2) (y / 2) (omega arith))

  many_more :
      (extra k x y : ℕ) → x ≤ k → digits last digit (k + extra) x y ≡ digits last digit k x y
  many_more zero k x y h = let none_left : k + 0 ≡ k = omega arith in rw none_left
  many_more (suc extra) k x y h =
      let moved : k + suc extra ≡ suc (k + extra) = omega arith in
      rw (moved, one_more (k + extra) x y (omega arith)) (many_more extra k x y h)

  lowest_apart :
      (x y : ℕ)
      → bitwise last digit (suc x) y
        ≡ digit (suc x % 2) (y % 2) + 2 * bitwise last digit (suc x / 2) (y / 2)
  lowest_apart x y = omega (arith, ap (λ k. digits last digit k (suc x / 2) (y / 2)) spare, enough)
    where
      spare : x ≡ suc x / 2 + (x - suc x / 2)
      spare = omega arith

      enough :
          digits last digit (suc x / 2 + (x - suc x / 2)) (suc x / 2) (y / 2)
          ≡ bitwise last digit (suc x / 2) (y / 2)
      enough = many_more (x - suc x / 2) (suc x / 2) (suc x / 2) (y / 2) (omega arith)

bit_or_digit : (x y : ℕ) → bit_or x y ≡ max (x % 2) (y % 2) + 2 * bit_or (x / 2) (y / 2)
bit_or_digit zero y = rw (bit_or-bitwise 0 y, bit_or-bitwise 0 (y / 2)) (omega arith)
bit_or_digit (suc x) y =
    rw (bit_or-bitwise (suc x) y, bit_or-bitwise (suc x / 2) (y / 2))
      (lowest_apart (λ t. t) max x y)

bit_and_digit : (x y : ℕ) → bit_and x y ≡ min (x % 2) (y % 2) + 2 * bit_and (x / 2) (y / 2)
bit_and_digit zero y = rw (bit_and-bitwise 0 y, bit_and-bitwise 0 (y / 2)) (omega arith)
bit_and_digit (suc x) y =
    rw (bit_and-bitwise (suc x) y, bit_and-bitwise (suc x / 2) (y / 2))
      (lowest_apart (λ t. 0) min x y)

bit_and-zero_below : (n a : ℕ) → a ≤ n → bit_and a 0 ≡ 0
bit_and-zero_below n zero h = refl
bit_and-zero_below zero (suc a) h = absurd (omega arith)
bit_and-zero_below (suc n) (suc a) h =
    omega (arith, bit_and_digit (suc a) 0, bit_and-zero_below n (suc a / 2) (omega arith))

pub bit_and-zero : (a : ℕ) → bit_and a 0 ≡ 0
bit_and-zero a = bit_and-zero_below a a (omega arith)

bit_or-zero_below : (n a : ℕ) → a ≤ n → bit_or a 0 ≡ a
bit_or-zero_below n zero h = refl
bit_or-zero_below zero (suc a) h = absurd (omega arith)
bit_or-zero_below (suc n) (suc a) h =
    omega (arith, bit_or_digit (suc a) 0, bit_or-zero_below n (suc a / 2) (omega arith))

pub bit_or-zero : (a : ℕ) → bit_or a 0 ≡ a
bit_or-zero a = bit_or-zero_below a a (omega arith)

-- Two binary digits at a time, as the fields of the PKRU register are.
pub bit_and_pair : (a b : ℕ) → bit_and a (4 * b + 3) ≡ 4 * bit_and (a / 4) b + a % 4
bit_and_pair a b =
    omega (arith, bit_and_digit a (4 * b + 3), bit_and_digit (a / 2) ((4 * b + 3) / 2), same_halves)
  where
    same_halves : bit_and (a / 2 / 2) ((4 * b + 3) / 2 / 2) ≡ bit_and (a / 4) b
    same_halves =
        let p : a / 2 / 2 ≡ a / 4 = omega arith in
        let q : (4 * b + 3) / 2 / 2 ≡ b = omega arith in rw (p, q)

pub bit_and_pair_clear : (a b : ℕ) → bit_and a (4 * b) ≡ 4 * bit_and (a / 4) b
bit_and_pair_clear a b =
    omega (arith, bit_and_digit a (4 * b), bit_and_digit (a / 2) (4 * b / 2), same_halves)
  where
    same_halves : bit_and (a / 2 / 2) (4 * b / 2 / 2) ≡ bit_and (a / 4) b
    same_halves =
        let p : a / 2 / 2 ≡ a / 4 = omega arith in
        let q : 4 * b / 2 / 2 ≡ b = omega arith in rw (p, q)

pub bit_or_pair : (a b : ℕ) → bit_or a (4 * b) ≡ 4 * bit_or (a / 4) b + a % 4
bit_or_pair a b =
    omega (arith, bit_or_digit a (4 * b), bit_or_digit (a / 2) (4 * b / 2), same_halves)
  where
    same_halves : bit_or (a / 2 / 2) (4 * b / 2 / 2) ≡ bit_or (a / 4) b
    same_halves =
        let p : a / 2 / 2 ≡ a / 4 = omega arith in
        let q : 4 * b / 2 / 2 ≡ b = omega arith in rw (p, q)

-- The same at the lowest pair of digits.
pub bit_or_low : (a r : ℕ) → r < 4 → bit_or (4 * a) r ≡ 4 * a + r
bit_or_low a r h = omega (arith, bit_or_digit (4 * a) r, bit_or_digit (4 * a / 2) (r / 2), rest)
  where
    rest : bit_or (4 * a / 2 / 2) (r / 2 / 2) ≡ a
    rest =
        let p : 4 * a / 2 / 2 ≡ a = omega arith in
        let q : r / 2 / 2 ≡ 0 = omega arith in rw (p, q) (bit_or-zero a)

-- `w` pairs of ones.
unfoldable pub ones : ℕ → ℕ
ones zero = 0
ones (suc w) = 4 * ones w + 3

pub bit_and-ones : (w q : ℕ) → q ≤ ones w → bit_and q (ones w) ≡ q
unfolding ones
bit_and-ones zero q h = omega (arith, bit_and-zero q)
bit_and-ones (suc w) q h =
    omega (arith, bit_and_pair q (ones w), bit_and-ones w (q / 4) (omega arith))

-- `2 ^ 54 - 1` is 27 pairs of ones, `2 ^ 52 - 1` is 26.
bit_and_wide : (q : ℕ) → q < 2 ^ 54 → bit_and q (2 ^ 54 - 1) ≡ q
unfolding ones
bit_and_wide q h = bit_and-ones 27 q (omega arith)

bit_and_page : (q : ℕ) → q < 2 ^ 52 → bit_and q (2 ^ 52 - 1) ≡ q
unfolding ones
bit_and_page q h = bit_and-ones 26 q (omega arith)

-- Setting bit 8.
pub bit_or_flag : (e : ℕ) → bit_or e 0x100 ≡ e / 512 * 512 + 256 + e % 256
bit_or_flag e = omega (
  arith,
  bit_or_pair e 64,
  bit_or_pair (e / 4) 16,
  bit_or_pair (e / 4 / 4) 4,
  bit_or_pair (e / 4 / 4 / 4) 1,
  bit_or_digit (e / 4 / 4 / 4 / 4) 1,
  bit_or-zero (e / 4 / 4 / 4 / 4 / 2),
)

-- Clearing bit 8 of a 64-bit word.
pub bit_and_flag : (e : ℕ) → e < 2 ^ 64 → bit_and e (2 ^ 64 - 1 - 0x100) ≡ e / 512 * 512 + e % 256
bit_and_flag e h = omega (
  arith,
  bit_and_pair e (2 ^ 62 - 65),
  bit_and_pair (e / 4) (2 ^ 60 - 17),
  bit_and_pair (e / 4 / 4) (2 ^ 58 - 5),
  bit_and_pair (e / 4 / 4 / 4) (2 ^ 56 - 2),
  bit_and_digit (e / 4 / 4 / 4 / 4) (2 ^ 56 - 2),
  bit_and_digit (e / 4 / 4 / 4 / 4 / 2) (2 ^ 55 - 1),
  bit_and_wide (e / 4 / 4 / 4 / 4 / 2 / 2) (omega arith),
)

-- Clearing the low twelve bits of a 64-bit word.
pub bit_and_high : (e : ℕ) → e < 2 ^ 64 → bit_and e (2 ^ 64 - 4096) ≡ e / 4096 * 4096
bit_and_high e h = omega (
  arith,
  bit_and_pair_clear e (2 ^ 62 - 1024),
  bit_and_pair_clear (e / 4) (2 ^ 60 - 256),
  bit_and_pair_clear (e / 4 / 4) (2 ^ 58 - 64),
  bit_and_pair_clear (e / 4 / 4 / 4) (2 ^ 56 - 16),
  bit_and_pair_clear (e / 4 / 4 / 4 / 4) (2 ^ 54 - 4),
  bit_and_pair_clear (e / 4 / 4 / 4 / 4 / 4) (2 ^ 52 - 1),
  bit_and_page (e / 4 / 4 / 4 / 4 / 4 / 4) (omega arith),
)
