-- ===== src/Client/ReadAtom.antt =====
-- framrpc-core.mjs: what `Reader.term` makes of a tag and of an atom's bytes.
use fram.Prelude.{
  ℕ, suc, ◌+◌, ◌≤◌, ◌<◌, ◌≡◌, refl, ap, ◌∙◌, true, false, not, List, [], ◌∷◌, ◌++◌, ltb, ◌==◌,
  if◌then◌else◌, All, same_elems, same_elems-eq, ℤ, ◌≤ℤ◌, arith, ok, append_assoc, inl, inr, ◌⊎◌,
}
use fram.Text.{Text}
use fram.Text.Numeral.{to_string, to_decimal, hex_int, is_empty, is_float64_text, read_digits}
use fram.Text.Numeral.RoundTrip.{pad_start-hex_int, hex_int-lt}
use fram.Text.RoundTrip.{IsUnit16, has_mark}
use fram.Client.Codes.{invalid_keyword, invalid_instant}
use fram.Client.Term.{
  text, string, integer, float64, keyword, instant, max_string_bytes, max_term_nodes, i64_min,
  i64_max, canonical_float_bits, is_nan_bits, nan_bits,
}
use fram.Client.Bytes.{i64, u32, u64, write_text}
use fram.Client.Reader.{
  Reader, ◌>>◌ as ◌>>ᵣ◌, pure, >>=-ok, check-ok, lift, lift-ok, read_bytes, le_value, read_u8,
  read_u32, read_u64, read_i64, read_text, read_float, read_keyword, read_instant, read_atom,
  read_triple, count_node, read_nested,
}
use fram.Client.WireNumbers.{
  read_text-write_text, read_i64-i64, read_u32-u32, read_u64-u64, read_bytes-append,
}

-- Every JavaScript string is made of 16-bit units, and none of the Term's starts with the byte
-- order mark, which the decoder would take away.
abbrev pub IsPlainText : Text → Type 0
IsPlainText t = All IsUnit16 t × (has_mark t ≡ false)

read_u8-cons :
    (b : ℕ) (rest : List ℕ) (nodes : ℕ)
    → read_u8 (record { bytes = b ∷ rest; nodes = nodes })
      ≡ ok (b, record { bytes = rest; nodes = nodes })
unfolding read_u8
read_u8-cons b rest nodes =
    >>=-ok (read_bytes 1) (λ bytes. pure (le_value bytes)) (read_bytes-append (b ∷ []) rest nodes)
    ∙ unfold le_value in
      ap (λ (n : ℕ). ok (n, record { bytes = rest; nodes = nodes })) (omega arith)

count_node-ok :
    (bytes : List ℕ) (nodes : ℕ)
    → nodes + 1 ≤ max_term_nodes
    → count_node (record { bytes = bytes; nodes = nodes })
      ≡ ok (tt, record { bytes = bytes; nodes = nodes + 1 })
unfolding count_node
count_node-ok bytes nodes h = ground arith

-- A node and its tag.
pub read_nested-tag :
    (left tag : ℕ) (bytes : List ℕ) (nodes : ℕ)
    → nodes + 1 ≤ max_term_nodes
    → read_nested (suc left) (record { bytes = tag ∷ bytes; nodes = nodes })
      ≡ (if tag == 7 then read_triple (read_nested left) else read_atom tag)
          (record { bytes = bytes; nodes = nodes + 1 })
unfolding read_nested
read_nested-tag left tag bytes nodes h = >>=-ok (count_node >>ᵣ read_u8) _ (
    >>=-ok count_node (λ _. read_u8) (count_node-ok (tag ∷ bytes) nodes h)
    ∙ read_u8-cons tag bytes (nodes + 1))

pub canonical_float_bits_self :
    (bits out : Text) → canonical_float_bits bits ≡ ok out → canonical_float_bits bits ≡ ok bits
unfolding canonical_float_bits
canonical_float_bits_self bits out e = ground arith

canonical_float_bits-eq-ok :
    (bits out : Text)
    → canonical_float_bits bits ≡ ok out
    → (is_float64_text bits ≡ true)
      × ((is_nan_bits (hex_int bits) ≡ false) ⊎ (same_elems bits nan_bits ≡ true))
unfolding canonical_float_bits
canonical_float_bits-eq-ok bits out e = ground arith

canonical_nan :
    (bits : Text)
    → (is_nan_bits (hex_int bits) ≡ false) ⊎ (same_elems bits nan_bits ≡ true)
    → (if is_nan_bits (hex_int bits) then nan_bits else bits) ≡ bits
canonical_nan bits (inl number_bits) = rw number_bits
canonical_nan bits (inr same) =
    rw (same_elems-eq bits nan_bits same) (unfold is_nan_bits hex_int read_digits in refl)

-- What follows each tag of an atom.
module _ (rest : List ℕ) (nodes : ℕ) where
  abbrev pub after : Reader
  after = record { bytes = rest; nodes = nodes }

  abbrev pub before : List ℕ → Reader
  before bytes = record { bytes = bytes ++ rest; nodes = nodes }

  pub read_string :
      (value : Text) (written : List ℕ)
      → IsPlainText value
      → write_text value max_string_bytes ≡ ok written
      → read_atom 1 (before written) ≡ ok (string value, after)
  unfolding read_atom
  read_string value written (units, unmarked) e = >>=-ok (read_text max_string_bytes) _ (
      read_text-write_text rest nodes value max_string_bytes written (omega arith) units unmarked e)

  pub read_integer :
      (n : ℤ)
      → i64_min ≤ℤ n
      → n ≤ℤ i64_max
      → read_atom 2 (before (i64 n)) ≡ ok (integer (text (to_decimal n)), after)
  unfolding read_atom
  read_integer n lo hi = >>=-ok read_i64 _ (read_i64-i64 rest nodes n lo hi)

  pub read_keyword_text :
      (value : Text) (written : List ℕ)
      → IsPlainText value
      → is_empty value ≡ false
      → write_text value max_string_bytes ≡ ok written
      → read_atom 6 (before written) ≡ ok (keyword value, after)
  unfolding read_atom read_keyword
  read_keyword_text value written (units, unmarked) filled e =
      >>=-ok (read_text max_string_bytes) _ (
        read_text-write_text rest nodes value max_string_bytes written (omega arith) units unmarked
          e)
      ∙ check-ok (not (is_empty value)) invalid_keyword _ _ (rw filled)

  pub read_instant_parts :
      (s : ℤ) (n : ℕ)
      → i64_min ≤ℤ s
      → s ≤ℤ i64_max
      → n < 1000000000
      → read_atom 8 (before (i64 s ++ u32 n))
        ≡ ok (instant (text (to_decimal s)) (text (to_string 10 n)), after)
  unfolding read_atom read_instant
  read_instant_parts s n lo hi fits = rw append_assoc (
      >>=-ok read_i64 _ (read_i64-i64 (u32 n ++ rest) nodes s lo hi)
      ∙ >>=-ok read_u32 _ (read_u32-u32 rest nodes n (omega arith))
      ∙ check-ok (ltb n 1000000000) invalid_instant _ _ (ground arith))

  pub read_float64 :
      (bits : Text)
      → canonical_float_bits bits ≡ ok bits
      → read_atom 3 (before (u64 (hex_int bits))) ≡ ok (float64 bits, after)
  unfolding read_atom read_float
  read_float64 bits e =
      let (digits, nan) = canonical_float_bits-eq-ok bits bits e in
      >>=-ok read_u64 _ (read_u64-u64 rest nodes (hex_int bits) (hex_int-lt bits digits))
      ∙ rw (pad_start-hex_int bits digits) (
          >>=-ok (lift (canonical_float_bits bits)) _ (lift-ok (canonical_float_bits bits) after e)
          ∙ ap (λ (t : Text). ok (float64 t, after)) (canonical_nan bits nan))
