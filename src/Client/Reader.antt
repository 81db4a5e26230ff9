-- ===== src/Client/Reader.antt =====
-- framrpc-core.mjs: class Reader. A reader is the bytes from its offset on, and its node count.
use fram.Prelude.{
  ℕ, zero, suc, ◌+◌, ◌-◌, ◌*◌, ◌^◌, Bool, true, false, not, ◌||◌, Option, none, some, List, [], ◌∷◌,
  ltb, leb, ◌==◌, if◌then◌else◌, length, take, drop, ℤ, pos, negsuc, ok, err, ◌≡◌, ap,
}
use fram.Text.{Text}
use fram.Text.Utf8.{decode}
use fram.Text.Numeral.{to_string, to_decimal, hex_int, pad_start, is_empty}
use fram.Client.Codes.{
  Res, Code, truncated, invalid_presence, invalid_boolean, invalid_utf8, string_limit, term_depth,
  term_nodes, invalid_keyword, invalid_instant, bad_term_tag,
}
use fram.Client.Term.{
  text, Term, string, integer, float64, boolean, keyword, instant, triple, max_string_bytes,
  max_term_nodes, max_term_depth, nan_bits, is_nan_bits, canonical_float_bits,
}

pub record Reader : Type 0 where
  pub bytes : List ℕ
  pub nodes : ℕ

abbrev pub Read {ℓ} : Type ℓ → Type ℓ
Read A = Reader → Res (A × Reader)

module _ {ℓ κ} {A : Type ℓ} {B : Type κ} where
  abbrev continue : Res (A × Reader) → (A → Read B) → Res (B × Reader)
  continue (ok (a, r)) f = f a r
  continue (err code) f = err code

  infixl 5 ◌>>=◌
  abbrev pub ◌>>=◌ : Read A → (A → Read B) → Read B
  ◌>>=◌ m f r = continue (m r) f

  -- A read that succeeds is followed by the rest at the reader that it leaves.
  pub >>=-ok :
      (m : Read A) (f : A → Read B) {r r' : Reader} {a : A}
      → m r ≡ ok (a, r')
      → (m >>= f) r ≡ f a r'
  >>=-ok m f e = ap (λ x. continue x f) e

  pub >>=-err :
      (m : Read A) (f : A → Read B) {r : Reader} {code : Code}
      → m r ≡ err code
      → (m >>= f) r ≡ err code
  >>=-err m f e = ap (λ x. continue x f) e

module _ {ℓ} {A : Type ℓ} where
  abbrev pub pure : A → Read A
  pure a r = ok (a, r)

  abbrev pub lift : Res A → Read A
  lift m r = elim m [ ok a ↦ ok (a, r) | err code ↦ err code ]

infixl 5 ◌>>◌
abbrev pub ◌>>◌ {ℓ} : {B : Type ℓ} → Read (Unit {0}) → Read B → Read B
m >> k = m >>= λ _. k

abbrev pub check : Bool → Code → Read (Unit {0})
check true code r = ok (tt, r)
check false code r = err code

-- `ensure` and the bytes that every read takes after it.
unfoldable pub read_bytes : ℕ → Read (List ℕ)
read_bytes count r =
    if leb count (length r.bytes)
    then ok (take count r.bytes, record r { bytes = drop count r.bytes })
    else err truncated

unfoldable pub le_value : List ℕ → ℕ
le_value [] = 0
le_value (b ∷ bytes) = b + 256 * le_value bytes

-- A number below 2^64 as a two's complement integer.
unfoldable pub from_u64 : ℕ → ℤ
from_u64 n = if ltb n (2 ^ 63) then pos n else negsuc (2 ^ 64 - 1 - n)

unfoldable pub read_u8 : Read ℕ
read_u8 = do bytes ← read_bytes 1; pure (le_value bytes)

unfoldable pub read_u32 : Read ℕ
read_u32 = do bytes ← read_bytes 4; pure (le_value bytes)

unfoldable pub read_u64 : Read ℕ
read_u64 = do bytes ← read_bytes 8; pure (le_value bytes)

unfoldable pub read_i64 : Read ℤ
read_i64 = do n ← read_u64; pure (from_u64 n)

unfoldable pub read_presence : Read Bool
read_presence = do
  value ← read_u8
  check ((value == 0) || (value == 1)) invalid_presence
  pure (value == 1)

unfoldable pub read_bool : Read Bool
read_bool = do
  value ← read_u8
  check ((value == 0) || (value == 1)) invalid_boolean
  pure (value == 1)

pub check-ok {ℓ} :
    {B : Type ℓ} (test : Bool) (code : Code) (k : Read B) (r : Reader)
    → test ≡ true
    → (check test code >> k) r ≡ k r
check-ok test code k r e = rw e

pub lift-ok {ℓ} : {A : Type ℓ} (m : Res A) (r : Reader) {a : A} → m ≡ ok a → lift m r ≡ ok (a, r)
lift-ok m r e = rw e

pub lift-err {ℓ} :
    {A : Type ℓ} (m : Res A) (r : Reader) {code : Code} → m ≡ err code → lift m r ≡ err code
lift-err m r e = rw e

abbrev decoded : Option Text → Res Text
decoded none = err invalid_utf8
decoded (some t) = ok t

unfoldable pub read_text : ℕ → Read Text
read_text maximum = do
  size ← read_u32
  check (leb size maximum) string_limit
  bytes ← read_bytes size
  lift (decoded (decode bytes))

unfoldable pub read_float : Read Term
read_float = do
  raw ← read_u64
  let bits = pad_start 16 (to_string 16 raw)
  -- `float64Value` validates the Term that it is given
  _ ← lift (canonical_float_bits bits)
  pure (float64 (if is_nan_bits (hex_int bits) then nan_bits else bits))

unfoldable pub read_keyword : Read Term
read_keyword = do
  spelling ← read_text max_string_bytes
  check (not (is_empty spelling)) invalid_keyword
  pure (keyword spelling)

unfoldable pub read_instant : Read Term
read_instant = do
  seconds ← read_i64
  nanos ← read_u32
  check (ltb nanos 1000000000) invalid_instant
  pure (instant (text (to_decimal seconds)) (text (to_string 10 nanos)))

unfoldable pub read_atom : ℕ → Read Term
read_atom tag =
    if tag == 1
    then (do t ← read_text max_string_bytes; pure (string t))
    else if tag == 2
    then (do n ← read_i64; pure (integer (text (to_decimal n))))
    else if tag == 3
    then read_float
    else if tag == 4
    then pure (boolean false)
    else if tag == 5
    then pure (boolean true)
    else if tag == 6
    then read_keyword
    else if tag == 8
    then read_instant
    else λ r. err bad_term_tag

unfoldable pub count_node : Read (Unit {0})
count_node r =
    if ltb max_term_nodes (r.nodes + 1)
    then err term_nodes
    else ok (tt, record r { nodes = r.nodes + 1 })

-- The three parts of a Triple, each read one level deeper.
unfoldable pub read_triple : Read Term → Read Term
read_triple read_part = do t1 ← read_part; t2 ← read_part; t3 ← read_part; pure (triple t1 t2 t3)

-- `left` is the depths that are left, MAX_TERM_DEPTH + 1 - depth: at none the nesting limit is
-- passed.
unfoldable pub read_nested : ℕ → Read Term
read_nested zero r = err term_depth
read_nested (suc left) r =
    (count_node >> read_u8 >>= λ tag.
    if tag == 7 then read_triple (read_nested left) else read_atom tag)
      r

-- `reader.term()`
unfoldable pub read_term : Read Term
read_term = read_nested (max_term_depth + 1)

unfoldable pub done : Reader → Bool
done r = length r.bytes == 0
