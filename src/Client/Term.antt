-- ===== src/Client/Term.antt =====
-- framrpc-core.mjs: Terms as tagged arrays, their constructors and `validateTerm`.
use fram.Prelude.{
  ℕ, ◌+◌, ◌-◌, ◌*◌, ◌/◌, ◌%◌, ◌^◌, max, Bool, not, ◌&&◌, List, ltb, leb, ◌==◌, if◌then◌else◌,
  length, same_elems, ℤ, pos, negsuc, leb_ℤ, ok, err, require, ◌>>=◌, ◌>>◌,
}
use fram.Text.{Text, codes, has_paired_surrogates}
use fram.Text.Utf8.{encode}
use fram.Text.Numeral.{
  to_string, to_decimal, big_int, hex_int, pad_start, is_canonical_decimal, is_float64_text,
}
use fram.Client.Codes.{
  Res, Code, invalid_integer, integer_range, invalid_utf8, string_limit, invalid_float,
  invalid_keyword, term_depth, term_nodes,
}

abbrev pub max_string_bytes : ℕ
max_string_bytes = 1024 * 1024

abbrev pub max_term_nodes : ℕ
max_term_nodes = 65536

abbrev pub max_term_depth : ℕ
max_term_depth = 256

abbrev pub i64_min : ℤ
i64_min = negsuc (2 ^ 63 - 1)

abbrev pub i64_max : ℤ
i64_max = pos (2 ^ 63 - 1)

abbrev pub u32_max : ℤ
u32_max = pos (2 ^ 32 - 1)

-- What a caller may hand over as an integer: a BigInt, an integral Number, a string, or anything
-- else.
pub data Scalar : Type 0 where
  bigint : ℤ → Scalar
  number : ℤ → Scalar
  text : Text → Scalar
  other : Scalar

-- `Number.isSafeInteger`
unfoldable pub is_safe_integer : ℤ → Bool
is_safe_integer n = leb_ℤ (negsuc (2 ^ 53 - 2)) n && leb_ℤ n (pos (2 ^ 53 - 1))

-- The text that `decimal` makes of its argument, by the argument's type.
unfoldable pub decimal_text : Scalar → Res Text
decimal_text (bigint n) = ok (to_decimal n)
decimal_text (number n) = if is_safe_integer n then ok (to_decimal n) else err invalid_integer
decimal_text (text t) = if is_canonical_decimal t then ok t else err invalid_integer
decimal_text other = err invalid_integer

unfoldable pub decimal : ℤ → ℤ → Scalar → Res Text
decimal low high value = do
  digits ← decimal_text value
  require (is_canonical_decimal digits) invalid_integer
  require (leb_ℤ low (big_int digits) && leb_ℤ (big_int digits) high) integer_range
  ok digits

unfoldable pub integer_bigint : ℤ → ℤ → Scalar → Res ℤ
integer_bigint low high value = do digits ← decimal low high value; ok (big_int digits)

-- The UTF-8 bytes of a text whose surrogates are paired and that is short enough.
unfoldable pub strict_utf8 : Text → ℕ → Res (List ℕ)
strict_utf8 value maximum = do
  require (has_paired_surrogates value) invalid_utf8
  let bytes = encode value
  require (leb (length bytes) maximum) string_limit
  ok bytes

abbrev pub nan_bits : Text
nan_bits = codes "7ff8000000000000"

-- Float bits of exponent 0x7ff with a fraction, which stand for NaN.
unfoldable pub is_nan_bits : ℕ → Bool
is_nan_bits raw = (raw / 2 ^ 52 % 2048 == 0x7ff) && not (raw % 2 ^ 52 == 0)

unfoldable pub canonical_float_bits : Text → Res Text
canonical_float_bits bits = do
  require (is_float64_text bits) invalid_float
  require (not (is_nan_bits (hex_int bits) && not (same_elems bits nan_bits))) invalid_float
  ok bits

-- A Number is the 64 bits that `setFloat64` writes for it.
unfoldable pub float_bits : ℕ → Text
float_bits value = if is_nan_bits value then nan_bits else pad_start 16 (to_string 16 value)

-- `malformed code` is a value that is no Term: no array with a string in front, an unknown tag, a
-- wrong arity, or a payload of a wrong type; `code` is what `validateTerm` throws for it.
pub data Term : Type 0 where
  string : Text → Term
  integer : Scalar → Term
  float64 : Text → Term
  boolean : Bool → Term
  keyword : Text → Term
  instant : Scalar → Scalar → Term
  triple : Term → Term → Term → Term
  malformed : Code → Term

pub record Budget : Type 0 where
  pub nodes : ℕ
  pub max_depth : ℕ

abbrev pub new_budget : Budget
new_budget = record { nodes = 0; max_depth = 0 }

-- The head of `validateTerm`: the depth, and one node more.
unfoldable pub enter : ℕ → Budget → Res Budget
enter depth budget =
    let budget' = record budget {
      nodes = budget.nodes + 1;
      max_depth = max budget.max_depth depth;
    } in
    if ltb max_term_depth depth
    then err term_depth
    else if ltb max_term_nodes budget'.nodes
    then err term_nodes
    else ok budget'

unfoldable pub keyword_term : Text → Res Term
keyword_term value = do
  bytes ← strict_utf8 value max_string_bytes
  require (not (length bytes == 0)) invalid_keyword
  ok (keyword value)

abbrev pub max_nanos : ℤ
max_nanos = pos 999999999

unfoldable pub validate_term : Term → ℕ → Budget → Res Budget
validate_term (string value) depth budget = do
  budget' ← enter depth budget
  _ ← strict_utf8 value max_string_bytes
  ok budget'
validate_term (integer value) depth budget = do
  budget' ← enter depth budget
  _ ← decimal i64_min i64_max value
  ok budget'
validate_term (float64 bits) depth budget = do
  budget' ← enter depth budget
  _ ← canonical_float_bits bits
  ok budget'
validate_term (boolean value) depth budget = enter depth budget
validate_term (keyword value) depth budget = do
  budget' ← enter depth budget
  _ ← keyword_term value
  ok budget'
validate_term (instant seconds nanos) depth budget = do
  budget' ← enter depth budget
  _ ← decimal i64_min i64_max seconds
  _ ← decimal (pos 0) max_nanos nanos
  ok budget'
validate_term (triple t1 t2 t3) depth budget = do
  budget' ← enter depth budget
  b1 ← validate_term t1 (depth + 1) budget'
  b2 ← validate_term t2 (depth + 1) b1
  validate_term t3 (depth + 1) b2
validate_term (malformed code) depth budget = do _ ← enter depth budget; err code
