-- ===== src/Client/Bytes.antt =====
-- framrpc-core.mjs: class Writer and `writeTerm`. A writer is the bytes that its parts join to.
use fram.Prelude.{
  ℕ, zero, suc, ◌-◌, ◌/◌, ◌%◌, ◌^◌, List, [], ◌∷◌, ◌++◌, if◌then◌else◌, length, ℤ, pos, negsuc, ok,
  err, ◌>>=◌,
}
use fram.Text.{Text}
use fram.Text.Numeral.{big_int, hex_int}
use fram.Client.Codes.{Res, invalid_integer, invalid_term}
use fram.Client.Term.{
  Scalar, bigint, number, text, other, Term, string, integer, float64, boolean, keyword, instant,
  triple, malformed, Budget, max_string_bytes, strict_utf8, validate_term,
}

-- The low `count` bytes of a number, the least significant first.
unfoldable pub le_bytes : ℕ → ℕ → List ℕ
le_bytes zero n = []
le_bytes (suc count) n = (n % 256) ∷ le_bytes count (n / 256)

abbrev pub u8 : ℕ → List ℕ
u8 value = (value % 256) ∷ []

unfoldable pub u16 : ℕ → List ℕ
u16 value = le_bytes 2 value

unfoldable pub u32 : ℕ → List ℕ
u32 value = le_bytes 4 value

unfoldable pub u64 : ℕ → List ℕ
u64 value = le_bytes 8 value

-- An integer modulo 2^64, in two's complement.
unfoldable pub to_u64 : ℤ → ℕ
to_u64 (pos n) = n % 2 ^ 64
to_u64 (negsuc n) = 2 ^ 64 - 1 - n % 2 ^ 64

unfoldable pub i64 : ℤ → List ℕ
i64 value = u64 (to_u64 value)

unfoldable pub write_text : Text → ℕ → Res (List ℕ)
write_text value maximum = do bytes ← strict_utf8 value maximum; ok (u32 (length bytes) ++ bytes)

-- `BigInt(value)`. What is no integer throws here; `validateTerm` lets none through.
unfoldable pub scalar_int : Scalar → Res ℤ
scalar_int (bigint n) = ok n
scalar_int (number n) = ok n
scalar_int (text t) = ok (big_int t)
scalar_int other = err invalid_integer

unfoldable pub write_term_unchecked : Term → Res (List ℕ)
write_term_unchecked (string value) = do
  bytes ← write_text value max_string_bytes
  ok (u8 1 ++ bytes)
write_term_unchecked (integer value) = do n ← scalar_int value; ok (u8 2 ++ i64 n)
write_term_unchecked (float64 bits) = ok (u8 3 ++ u64 (hex_int bits))
write_term_unchecked (boolean value) = ok (u8 (if value then 5 else 4))
write_term_unchecked (keyword value) = do
  bytes ← write_text value max_string_bytes
  ok (u8 6 ++ bytes)
write_term_unchecked (triple t1 t2 t3) = do
  w1 ← write_term_unchecked t1
  w2 ← write_term_unchecked t2
  w3 ← write_term_unchecked t3
  ok (u8 7 ++ (w1 ++ (w2 ++ w3)))
write_term_unchecked (instant seconds nanos) = do
  s ← scalar_int seconds
  n ← scalar_int nanos
  ok (u8 8 ++ (i64 s ++ u32 (to_u64 n)))
write_term_unchecked (malformed code) = err invalid_term

unfoldable pub write_term : Term → Budget → Res (List ℕ × Budget)
write_term value budget = do
  budget' ← validate_term value 0 budget
  bytes ← write_term_unchecked value
  ok (bytes, budget')
