-- ===== src/Text/Numeral.antt =====
-- Texts of integers: `BigInt(text)`, `toString`, `padStart` and the patterns of canonical decimals
-- and of hexadecimal float bits.
pub mod RoundTrip
pub mod ReadBack
pub mod Plain
use fram.Prelude.{
  ℕ, zero, suc, ◌+◌, ◌-◌, ◌*◌, ◌/◌, ◌%◌, Bool, true, false, ◌&&◌, ◌||◌, List, [], ◌∷◌, ◌++◌, leb,
  ltb, ◌==◌, if◌then◌else◌, length, replicate, ℤ, pos, negsuc,
}
use fram.Text.{Text}

abbrev pub digit : ℕ → ℕ
digit v = if ltb v 10 then 48 + v else 87 + v

abbrev pub digit_value : ℕ → ℕ
digit_value c = if leb c 57 then c - 48 else c - 87

-- The digits of `n`, most significant first. A digit is taken off each round, so a fuel above `n`
-- is enough.
unfoldable pub to_radix : ℕ → ℕ → ℕ → Text
to_radix zero base n = []
to_radix (suc fuel) base n =
    let front = to_radix fuel base (n / base) in
    if ltb n base then digit n ∷ [] else front ++ digit (n % base) ∷ []

-- `n.toString(base)` of a nonnegative integer.
unfoldable pub to_string : ℕ → ℕ → Text
unfolding to_radix
to_string base n = to_radix (suc n) base n

-- `value.toString()` of a BigInt.
unfoldable pub to_decimal : ℤ → Text
unfolding to_string
to_decimal (pos n) = to_string 10 n
to_decimal (negsuc n) = b'-' ∷ to_string 10 (suc n)

-- The number that digits stand for, behind those read so far.
unfoldable pub read_digits : ℕ → ℕ → Text → ℕ
read_digits base n [] = n
read_digits base n (c ∷ rest) = read_digits base (n * base + digit_value c) rest

abbrev pub negated : ℕ → ℤ
negated zero = pos 0
negated (suc n) = negsuc n

-- `BigInt(text)` of a decimal text.
unfoldable pub big_int : Text → ℤ
unfolding read_digits
big_int [] = pos 0
big_int (c ∷ rest) =
    if c == b'-' then negated (read_digits 10 0 rest) else pos (read_digits 10 0 (c ∷ rest))

-- `BigInt(`0x${text}`)`.
unfoldable pub hex_int : Text → ℕ
unfolding read_digits
hex_int text = read_digits 16 0 text

-- `text.padStart(width, '0')`.
unfoldable pub pad_start : ℕ → Text → Text
unfolding replicate
pad_start width text = replicate (width - length text) b'0' ++ text

abbrev pub is_digit : ℕ → Bool
is_digit c = leb b'0' c && leb c b'9'

abbrev pub is_hex_digit : ℕ → Bool
is_hex_digit c = is_digit c || (leb b'a' c && leb c b'f')

unfoldable pub every : (ℕ → Bool) → Text → Bool
every p [] = true
every p (c ∷ rest) = p c && every p rest

-- `[1-9][0-9]*`
unfoldable pub is_positive_decimal : Text → Bool
unfolding every
is_positive_decimal [] = false
is_positive_decimal (c ∷ rest) = (leb b'1' c && leb c b'9') && every is_digit rest

abbrev pub is_empty : Text → Bool
is_empty [] = true
is_empty (c ∷ rest) = false

abbrev pub starts_with_zero : Text → Bool
starts_with_zero [] = false
starts_with_zero (code ∷ text) = code == b'0'

-- `I64 = /^(?:0|-[1-9][0-9]*|[1-9][0-9]*)$/`
unfoldable pub is_canonical_decimal : Text → Bool
unfolding is_positive_decimal
is_canonical_decimal [] = false
is_canonical_decimal (c ∷ rest) =
    if c == b'0'
    then is_empty rest
    else if c == b'-'
    then is_positive_decimal rest
    else is_positive_decimal (c ∷ rest)

-- `FLOAT64 = /^[0-9a-f]{16}$/`
unfoldable pub is_float64_text : Text → Bool
unfolding every
is_float64_text text = (length text == 16) && every is_hex_digit text
