-- ===== src/Examples/Terms.antt =====
-- A Triple of a string, an integer and an instant, written and read back.
use fram.Prelude.{
  ℕ, ◌≡◌, ◌≢◌, refl, ap, some, List, [], ◌∷◌, ◌++◌, arith, pos, negsuc, ok, err, same_elems,
}
use fram.Text.{Text, codes, has_paired_surrogates}
use fram.Text.Utf8.{encode_point, encode, decode, strip_mark}
use fram.Text.RoundTrip.{decode-encode}
use fram.Text.Numeral.{
  to_radix, to_string, to_decimal, read_digits, big_int, hex_int, every, is_positive_decimal,
  is_canonical_decimal, is_float64_text,
}
use fram.Text.Numeral.RoundTrip.{to_decimal-big_int}
use fram.Text.Numeral.ReadBack.{big_int-to_decimal}
use fram.Client.Codes.{invalid_float}
use fram.Client.Term.{
  text, bigint, Term, string, integer, instant, triple, Budget, new_budget, nan_bits, is_nan_bits,
  enter, strict_utf8, decimal_text, decimal, validate_term,
}
use fram.Client.Bytes.{
  le_bytes, u32, u64, to_u64, i64, scalar_int, write_text, write_term_unchecked, write_term,
}
use fram.Client.Reader.{read_term, read_atom}
use fram.Client.Atoms.{received}
use fram.Client.RoundTrip.{read_term-write_term}
use fram.Client.NanBits.{read_atom-nan_bits}
use fram.Client.Counts.{size, height, Counts, validate_term-Counts, write_term-total}

abbrev sample : Term
sample =
    triple (string (codes "a")) (integer (text (codes "-2")))
      (instant (text (codes "0")) (bigint (pos 7)))

abbrev sample_bytes : List ℕ
sample_bytes =
    7 ∷ 1 ∷ 1 ∷ 0 ∷ 0 ∷ 0 ∷ 97 ∷ 2 ∷ 254 ∷ 255 ∷ 255 ∷ 255 ∷ 255 ∷ 255 ∷ 255 ∷ 255 ∷ 8 ∷ 0 ∷ 0 ∷ 0
    ∷ 0 ∷ 0 ∷ 0 ∷ 0 ∷ 0 ∷ 7 ∷ 0 ∷ 0 ∷ 0 ∷ []

abbrev sample_budget : Budget
sample_budget = record { nodes = 4; max_depth = 1 }

validate_sample : validate_term sample 0 new_budget ≡ ok sample_budget
unfolding validate_term enter strict_utf8 decimal decimal_text is_canonical_decimal
    is_positive_decimal every big_int to_decimal to_string to_radix read_digits encode encode_point
    has_paired_surrogates
validate_sample = refl

write_sample : write_term sample new_budget ≡ ok (sample_bytes, sample_budget)
unfolding write_term validate_term enter strict_utf8 decimal decimal_text is_canonical_decimal
    is_positive_decimal every big_int to_decimal to_string to_radix read_digits encode encode_point
    has_paired_surrogates write_term_unchecked scalar_int write_text i64 u32 u64 to_u64 le_bytes
write_sample = refl

read_term-write_term_example :
    read_term (record { bytes = sample_bytes ++ (9 ∷ []); nodes = 0 })
    ≡ ok (received sample, record { bytes = 9 ∷ []; nodes = 4 })
read_term-write_term_example =
    read_term-write_term sample new_budget sample_budget sample_bytes (9 ∷ [])
      ((omega arith, refl), tt, tt) write_sample

validate_term-Counts_example : Counts (size sample) (height sample) 0 new_budget sample_budget
validate_term-Counts_example =
    validate_term-Counts sample 0 new_budget sample_budget validate_sample

write_term-total_example : (w : List ℕ) × (write_term sample new_budget ≡ ok (w, sample_budget))
write_term-total_example = write_term-total sample new_budget sample_budget validate_sample

decode-encode_example :
    decode (encode (0xfeff ∷ 0xd83d ∷ 0xde00 ∷ []))
    ≡ some (strip_mark (0xfeff ∷ 0xd83d ∷ 0xde00 ∷ []))
unfolding has_paired_surrogates
decode-encode_example =
    decode-encode (0xfeff ∷ 0xd83d ∷ 0xde00 ∷ []) (record { units16 = omega arith; paired = refl })

big_int-to_decimal_example : big_int (to_decimal (negsuc 41)) ≡ negsuc 41
big_int-to_decimal_example = big_int-to_decimal (negsuc 41)

to_decimal-big_int_example : to_decimal (big_int (codes "-42")) ≡ codes "-42"
unfolding is_canonical_decimal is_positive_decimal every
to_decimal-big_int_example = to_decimal-big_int (codes "-42") refl

other_nan : codes "7ff8000000000001" ≢ nan_bits
unfolding same_elems
other_nan p = cc (ap (λ (t : Text). same_elems t (codes "7ff8000000000001")) p)

read_atom-nan_bits_example :
    read_atom 3 (record { bytes = u64 (hex_int (codes "7ff8000000000001")) ++ []; nodes = 1 })
    ≡ err invalid_float
unfolding is_float64_text every is_nan_bits hex_int read_digits
read_atom-nan_bits_example = read_atom-nan_bits (codes "7ff8000000000001") [] 1 refl refl other_nan
