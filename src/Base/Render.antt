-- ===== src/Base/Render.antt =====
-- Numbers as texts: `std::to_string`, the insertion of an integer into a stream, and the
-- hexadecimal digits of a 64-bit word with leading zeros.
use Prim.Native.Nat.{ℕ, zero, suc, ◌+◌, ◌/◌, ◌%◌}
use Prim.Native.String.{String, ◌++◌, slice}
use mathlib.Core.List.{List, [], ◌∷◌}
use ia2_provsan.Base.Tests.{ltb, if◌then◌else◌}
use ia2_provsan.Base.Int.{ℤ, pos, negsuc}

abbrev digit : ℕ → String
digit d = slice "0123456789abcdef" d (d + 1)

-- With as many rounds as the number is large, the digits suffice.
decimal : ℕ → ℕ → String
decimal zero n = digit n
decimal (suc rounds) n =
    let rest = decimal rounds (n / 10) ++ digit (n % 10) in if ltb n 10 then digit n else rest

unfoldable pub to_string : ℕ → String
unfolding decimal
to_string n = decimal n n

unfoldable pub int_to_string : ℤ → String
int_to_string (pos n) = to_string n
int_to_string (negsuc n) = "-" ++ to_string (suc n)

-- The lowest `width` hexadecimal digits.
unfoldable pub hex_digits : ℕ → ℕ → String
hex_digits zero n = ""
hex_digits (suc width) n = hex_digits width (n / 16) ++ digit (n % 16)

-- A text and others behind it, with a separator between each two.
unfoldable pub join : String → String → List String → String
join sep first [] = first
join sep first (next ∷ rest) = first ++ sep ++ join sep next rest
