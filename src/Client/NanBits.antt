-- ===== src/Client/NanBits.antt =====
-- framrpc-core.mjs: what the reader makes of the bits of a NaN.
use fram.Prelude.{
  ℕ, ◌≡◌, ◌≢◌, ◌∙◌, true, false, List, ◌++◌, same_elems, same_elems-eq, Bool-cases, inl, inr, arith,
  err,
}
use fram.Text.{Text}
use fram.Text.Numeral.{hex_int, is_float64_text}
use fram.Text.Numeral.RoundTrip.{pad_start-hex_int, hex_int-lt}
use fram.Client.Codes.{invalid_float}
use fram.Client.Term.{nan_bits, is_nan_bits, canonical_float_bits}
use fram.Client.Bytes.{u64}
use fram.Client.Reader.{read_u64, read_float, read_atom, lift, >>=-ok, >>=-err, lift-err}
use fram.Client.WireNumbers.{read_u64-u64}

canonical_float_bits_nan :
    (bits : Text)
    → is_nan_bits (hex_int bits) ≡ true
    → same_elems bits nan_bits ≡ false
    → canonical_float_bits bits ≡ err invalid_float
unfolding canonical_float_bits
canonical_float_bits_nan bits nan h = ground arith

-- A float on the wire whose bits, 16 hexadecimal digits, are those of a NaN but not the canonical ones
-- is not made canonical: the reader refuses it as an invalid float.
pub read_atom-nan_bits :
    (bits : Text) (rest : List ℕ) (nodes : ℕ)
    → is_float64_text bits ≡ true
    → is_nan_bits (hex_int bits) ≡ true
    → bits ≢ nan_bits
    → read_atom 3 (record { bytes = u64 (hex_int bits) ++ rest; nodes = nodes }) ≡ err invalid_float
unfolding read_atom read_float
read_atom-nan_bits bits rest nodes digits nan other = elim (Bool-cases (same_elems bits nan_bits)) [
  | inl same ↦ absurd (other (same_elems-eq bits nan_bits same))
  | inr differs ↦
      >>=-ok read_u64 _ (read_u64-u64 rest nodes (hex_int bits) (hex_int-lt bits digits))
      ∙ rw (pad_start-hex_int bits digits) (
          >>=-err (lift (canonical_float_bits bits)) _
            (lift-err (canonical_float_bits bits) _ (canonical_float_bits_nan bits nan differs)))
]
