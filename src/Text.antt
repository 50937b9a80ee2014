-- ===== src/Text.antt =====
-- What the programs use of Rust's text: printed numbers, `parse` and `split`. Text is a list of bytes.
pub mod RoundTrip
mod Tests
use Prim.Native.Char.{code}
use Prim.Native.String.{String}
use android_packages_modules.Common.{
  ℕ, zero, suc, ◌+◌, ◌-◌, ◌*◌, ◌/◌, ◌%◌, ◌^◌, ℤ, pos, negsuc, negate, Option, none, some, Bool,
  true, false, ◌&&◌, List, [], ◌∷◌, ◌++◌, leb, ◌==◌, if◌then◌else◌,
}

abbrev pub Bytes : Type 0
Bytes = List ℕ

-- The bytes of an ASCII literal.
abbrev pub codes : String → Bytes
codes String.[] = []
codes (String.◌∷◌ c s) = code c ∷ codes s

-- The digits of `n` before `out`; a number has no more digits than its value, which bounds the rounds.
unfoldable pub digits_on : ℕ → ℕ → Bytes → Bytes
digits_on zero n out = out
digits_on (suc fuel) zero out = out
digits_on (suc fuel) (suc n) out = digits_on fuel (suc n / 10) ((b'0' + suc n % 10) ∷ out)

unfoldable pub show_nat : ℕ → Bytes
unfolding digits_on
show_nat zero = b'0' ∷ []
show_nat (suc n) = digits_on (suc n) (suc n) []

unfoldable pub show_int : ℤ → Bytes
unfolding show_nat
show_int (pos n) = show_nat n
show_int (negsuc n) = b'-' ∷ show_nat (suc n)

abbrev pub is_digit : ℕ → Bool
is_digit c = leb b'0' c && leb c b'9'

-- A number above `limit` does not fit the type.
unfoldable pub scan : ℕ → Bytes → ℕ → Option ℕ
scan limit [] n = some n
scan limit (c ∷ rest) n =
    let more = scan limit rest (n * 10 + (c - b'0')) in
    if is_digit c && leb (n * 10 + (c - b'0')) limit then more else none

unfoldable pub parse_digits : ℕ → Bytes → Option ℕ
unfolding scan
parse_digits limit [] = none
parse_digits limit (c ∷ rest) = scan limit (c ∷ rest) 0

-- `parse` for an unsigned type takes a leading plus sign.
unfoldable pub parse_unsigned : ℕ → Bytes → Option ℕ
unfolding parse_digits
parse_unsigned limit [] = none
parse_unsigned limit (c ∷ rest) =
    if c == b'+' then parse_digits limit rest else parse_digits limit (c ∷ rest)

abbrev pub parse_u64 : Bytes → Option ℕ
parse_u64 = parse_unsigned (2 ^ 64 - 1)

abbrev as_int : (ℕ → ℤ) → Option ℕ → Option ℤ
as_int sign none = none
as_int sign (some n) = some (sign n)

unfoldable pub parse_i32 : Bytes → Option ℤ
unfolding parse_unsigned
parse_i32 [] = none
parse_i32 (c ∷ rest) =
    if c == b'-'
    then as_int negate (parse_digits (2 ^ 31) rest)
    else as_int pos (parse_unsigned (2 ^ 31 - 1) (c ∷ rest))

abbrev pub colon : ℕ
colon = b':'

abbrev push_front : ℕ → List Bytes → List Bytes
push_front c [] = (c ∷ []) ∷ []
push_front c (part ∷ parts) = (c ∷ part) ∷ parts

-- `split(':')`: one part more than there are colons.
unfoldable pub split_colon : Bytes → List Bytes
split_colon [] = [] ∷ []
split_colon (c ∷ rest) =
    let parts = split_colon rest in if c == colon then [] ∷ parts else push_front c parts
