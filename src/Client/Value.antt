-- ===== src/Client/Value.antt =====
-- framrpc-core.mjs: the Term constructors, and `term`, which makes a Term of a JavaScript value.
use fram.Prelude.{ℕ, suc, ◌+◌, ◌-◌, ◌*◌, ◌/◌, Bool, if◌then◌else◌, ℤ, pos, negsuc, ok, err, ◌>>=◌}
use fram.Text.{Text}
use fram.Client.Codes.{Res, invalid_term}
use fram.Client.Term.{
  Scalar, bigint, number, text, Term, string, integer, float64, boolean, instant, triple,
  new_budget, max_string_bytes, max_nanos, i64_min, i64_max, is_safe_integer, decimal, strict_utf8,
  float_bits, validate_term,
}

unfoldable pub string_term : Text → Res Term
string_term value = do _ ← strict_utf8 value max_string_bytes; ok (string value)

unfoldable pub integer_term : Scalar → Res Term
integer_term value = do digits ← decimal i64_min i64_max value; ok (integer (text digits))

unfoldable pub float64_term : ℕ → Res Term
float64_term value = ok (float64 (float_bits value))

unfoldable pub instant_term : Scalar → Scalar → Res Term
instant_term seconds nanos = do
  s ← decimal i64_min i64_max seconds
  n ← decimal (pos 0) max_nanos nanos
  ok (instant (text s) (text n))

-- What a caller may hand over as a Term: an array; a string; a BigInt; a Number, with its value if
-- that is integral, and its bits; a boolean; a valid Date by its milliseconds; or anything else.
pub data Value : Type 0 where
  array : Term → Value
  str : Text → Value
  big : ℤ → Value
  integral : ℤ → ℕ → Value
  fraction : ℕ → Value
  bool : Bool → Value
  date : ℤ → Value
  unknown : Value

-- `millis >= 0n ? millis / 1000n : (millis - 999n) / 1000n`, where the division drops the fraction.
unfoldable pub date_seconds : ℤ → ℤ
date_seconds (pos m) = pos (m / 1000)
date_seconds (negsuc m) = negsuc ((suc m + 999) / 1000 - 1)

-- `(millis - seconds * 1000n) * 1000000n`
unfoldable pub date_nanos : ℤ → ℤ
date_nanos (pos m) = pos ((m - m / 1000 * 1000) * 1000000)
date_nanos (negsuc m) = pos (((suc m + 999) / 1000 * 1000 - suc m) * 1000000)

unfoldable pub term : Value → Res Term
term (array value) = do _ ← validate_term value 0 new_budget; ok value
term (str value) = string_term value
term (big value) = integer_term (bigint value)
term (integral value bits) =
    if is_safe_integer value then integer_term (number value) else float64_term bits
term (fraction bits) = float64_term bits
term (bool value) = ok (boolean value)
term (date millis) = instant_term (bigint (date_seconds millis)) (bigint (date_nanos millis))
term unknown = err invalid_term

unfoldable pub triple_term : Value → Value → Value → Res Term
triple_term v1 v2 v3 = do t1 ← term v1; t2 ← term v2; t3 ← term v3; ok (triple t1 t2 t3)
