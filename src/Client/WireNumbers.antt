-- ===== src/Client/WireNumbers.antt =====
-- What the reader makes of the numbers and texts that the writer wrote, with any bytes behind them.
use fram.Prelude.{
  ℕ, zero, suc, ◌*◌, ◌/◌, ◌^◌, ◌≤◌, ◌<◌, ◌≡◌, refl, ap, ◌∙◌, true, false, List, ◌++◌, leb, length,
  All, ℤ, pos, negsuc, ◌≤ℤ◌, arith, take-length_append, drop-length_append, length-append, ok,
  >>=-eq-ok, some, append_assoc,
}
use fram.Text.{Text, has_paired_surrogates}
use fram.Text.Utf8.{encode, decode}
use fram.Text.RoundTrip.{IsByte, IsUnit16, has_mark, decode-encode_unmarked}
use fram.Client.Codes.{string_limit}
use fram.Client.Term.{strict_utf8, i64_min, i64_max}
use fram.Client.Bytes.{le_bytes, u32, u64, to_u64, i64, write_text}
use fram.Client.Reader.{
  read_bytes, le_value, from_u64, read_u32, read_u64, read_i64, read_text, >>=-ok, pure, check-ok,
}
use native.Mathlib.Nat.{pow-succ'}
use mathlib.Core.Path.{subst}

pub length-le_bytes : (count n : ℕ) → length (le_bytes count n) ≡ count
unfolding le_bytes
length-le_bytes zero n = refl
length-le_bytes (suc count) n = ap suc (length-le_bytes count (n / 256))

pub le_bytes-IsByte : (count n : ℕ) → All IsByte (le_bytes count n)
unfolding le_bytes
le_bytes-IsByte zero n = tt
le_bytes-IsByte (suc count) n = (omega arith, le_bytes-IsByte count (n / 256))

pub le_value-le_bytes : (count n : ℕ) → n < 256 ^ count → le_value (le_bytes count n) ≡ n
unfolding le_bytes le_value
le_value-le_bytes zero n h = omega arith
le_value-le_bytes (suc count) n h =
    let step : n < 256 * 256 ^ count = subst (λ p. n < p) (pow-succ' 256 count) h in
    omega (arith, le_value-le_bytes count (n / 256) (omega arith))

pub read_bytes-append :
    (bytes rest : List ℕ) (nodes : ℕ)
    → read_bytes (length bytes) (record { bytes = bytes ++ rest; nodes = nodes })
      ≡ ok (bytes, record { bytes = rest; nodes = nodes })
unfolding read_bytes
read_bytes-append bytes rest nodes =
    let fits : leb (length bytes) (length (bytes ++ rest)) ≡ true =
      ground (arith, length-append bytes rest) in
    rw (fits, take-length_append, drop-length_append)

read_bytes-le_bytes :
    (count n : ℕ) (rest : List ℕ) (nodes : ℕ)
    → read_bytes count (record { bytes = le_bytes count n ++ rest; nodes = nodes })
      ≡ ok (le_bytes count n, record { bytes = rest; nodes = nodes })
read_bytes-le_bytes count n rest nodes =
    subst
      (λ c.
        read_bytes c (record { bytes = le_bytes count n ++ rest; nodes = nodes })
        ≡ ok (le_bytes count n, record { bytes = rest; nodes = nodes }))
      (length-le_bytes count n) (read_bytes-append (le_bytes count n) rest nodes)

pub to_u64_bounds : (n : ℤ) → to_u64 n < 2 ^ 64
unfolding to_u64
to_u64_bounds (pos n) = omega arith
to_u64_bounds (negsuc n) = omega arith

pub from_u64-to_u64 : (n : ℤ) → i64_min ≤ℤ n → n ≤ℤ i64_max → from_u64 (to_u64 n) ≡ n
unfolding from_u64 to_u64
from_u64-to_u64 (pos n) lo hi = ground arith
from_u64-to_u64 (negsuc n) lo hi = ground arith

-- What `strictUtf8` accepts, and what it gives then.
pub strict_utf8-eq-ok :
    (t : Text) (maximum : ℕ) (bytes : List ℕ)
    → strict_utf8 t maximum ≡ ok bytes
    → (has_paired_surrogates t ≡ true) × (bytes ≡ encode t) × (length bytes ≤ maximum)
unfolding strict_utf8
strict_utf8-eq-ok t maximum bytes e = ground arith

pub write_text-eq-ok :
    (t : Text) (maximum : ℕ) (written : List ℕ)
    → write_text t maximum ≡ ok written
    → (bytes : List ℕ) × (strict_utf8 t maximum ≡ ok bytes)
      × (written ≡ u32 (length bytes) ++ bytes)
unfolding write_text
write_text-eq-ok t maximum written e =
    let (bytes, accepted, e') = >>=-eq-ok (strict_utf8 t maximum) _ e in (bytes, accepted, cc)

module _ (rest : List ℕ) (nodes : ℕ) where
  pub read_u32-u32 :
      (n : ℕ)
      → n < 2 ^ 32
      → read_u32 (record { bytes = u32 n ++ rest; nodes = nodes })
        ≡ ok (n, record { bytes = rest; nodes = nodes })
  unfolding read_u32 u32
  read_u32-u32 n h =
      >>=-ok (read_bytes 4) (λ bytes. pure (le_value bytes)) (read_bytes-le_bytes 4 n rest nodes)
      ∙ rw (le_value-le_bytes 4 n (omega arith))

  pub read_u64-u64 :
      (n : ℕ)
      → n < 2 ^ 64
      → read_u64 (record { bytes = u64 n ++ rest; nodes = nodes })
        ≡ ok (n, record { bytes = rest; nodes = nodes })
  unfolding read_u64 u64
  read_u64-u64 n h =
      >>=-ok (read_bytes 8) (λ bytes. pure (le_value bytes)) (read_bytes-le_bytes 8 n rest nodes)
      ∙ rw (le_value-le_bytes 8 n (omega arith))

  pub read_i64-i64 :
      (n : ℤ)
      → i64_min ≤ℤ n
      → n ≤ℤ i64_max
      → read_i64 (record { bytes = i64 n ++ rest; nodes = nodes })
        ≡ ok (n, record { bytes = rest; nodes = nodes })
  unfolding read_i64 i64
  read_i64-i64 n lo hi =
      >>=-ok read_u64 (λ m. pure (from_u64 m)) (read_u64-u64 (to_u64 n) (to_u64_bounds n))
      ∙ rw (from_u64-to_u64 n lo hi)

module _ (rest : List ℕ) (nodes : ℕ) where
  -- A length and as many bytes that decode.
  pub read_text-block :
      (bytes : List ℕ) (t : Text) (maximum : ℕ)
      → length bytes ≤ maximum
      → maximum < 2 ^ 32
      → decode bytes ≡ some t
      → read_text maximum (record { bytes = u32 (length bytes) ++ (bytes ++ rest); nodes = nodes })
        ≡ ok (t, record { bytes = rest; nodes = nodes })
  unfolding read_text
  read_text-block bytes t maximum fits small e =
      >>=-ok read_u32 _ (read_u32-u32 (bytes ++ rest) nodes (length bytes) (omega arith))
      ∙ check-ok (leb (length bytes) maximum) string_limit _ _ (ground arith)
      ∙ >>=-ok (read_bytes (length bytes)) _ (read_bytes-append bytes rest nodes)
      ∙ rw e

  pub read_text-write_text :
      (t : Text) (maximum : ℕ) (written : List ℕ)
      → maximum < 2 ^ 32
      → All IsUnit16 t
      → has_mark t ≡ false
      → write_text t maximum ≡ ok written
      → read_text maximum (record { bytes = written ++ rest; nodes = nodes })
        ≡ ok (t, record { bytes = rest; nodes = nodes })
  unfolding read_text write_text
  read_text-write_text t maximum written small units unmarked e =
      let (bytes, accepted, e') = write_text-eq-ok t maximum written e in
      let (paired, same, fits) = strict_utf8-eq-ok t maximum bytes accepted in
      let back : decode bytes ≡ some t =
        rw same (decode-encode_unmarked t (record { units16 = units; paired = paired }) unmarked) in
      rw (e', append_assoc) (read_text-block bytes t maximum fits small back)
