-- ===== src/Text/Numeral/RoundTrip.antt =====
-- Printing what was read, in decimal and in hexadecimal.
use fram.Prelude.{
  ℕ, zero, suc, ◌+◌, ◌-◌, ◌*◌, ◌/◌, ◌%◌, ◌^◌, ◌≤◌, ◌<◌, ◌≡◌, refl, sym, ap, ◌∙◌, inl, inr, true,
  false, ◌&&◌, [], ◌∷◌, ◌++◌, leb, ltb, ◌==◌, length, replicate, arith, Bool-cases, tests,
  append_assoc, append-nil, length-append, All, length-replicate, &&-eq-true, ==→eq,
}
use fram.Text.{Text}
use fram.Text.Numeral.{
  digit, digit_value, to_radix, to_string, to_decimal, read_digits, negated, big_int, hex_int,
  pad_start, is_digit, is_hex_digit, every, is_positive_decimal, is_empty, is_canonical_decimal,
  is_float64_text,
}
use native.Mathlib.Nat.{div-lt_self, pow-succ'}
use mathlib.Core.Path.{subst}

-- What is asked of a base: that a last digit can be taken off.
abbrev Splits : ℕ → Type 0
Splits base =
    (acc v : ℕ)
    → v < base
    → ((acc * base + v) / base ≡ acc)
      × ((acc * base + v) % base ≡ v)
      × (0 < acc → (base ≤ acc * base) × (acc ≤ acc * base))

ten-Splits : Splits 10
ten-Splits acc v h = omega arith

sixteen-Splits : Splits 16
sixteen-Splits acc v h = omega arith

abbrev IsDigitOf : ℕ → ℕ → Type 0
IsDigitOf base c = (digit_value c < base) × (digit (digit_value c) ≡ c)

pad_start-length : (t : Text) → pad_start (length t) t ≡ t
unfolding pad_start replicate
pad_start-length t = let none_left : length t - length t ≡ 0 = omega arith in rw none_left

-- One more zero in front of what is already padded.
pad_start-leading :
    (d : ℕ) (t s : Text)
    → d ≡ b'0'
    → pad_start (length t) s ≡ t
    → pad_start (suc (length t)) s ≡ d ∷ t
unfolding pad_start replicate
pad_start-leading d t s hd e =
    let front : Text = replicate (length t - length s) b'0' in
    let width : length front ≡ length t - length s = length-replicate (length t - length s) _ in
    let size : length (front ++ s) ≡ length t = ap length e in
    let more : suc (length t) - length s ≡ suc (length t - length s) =
      omega (arith, length-append front s, width, size) in
    rw more (cc (e, hd))

zero_char : (base d : ℕ) → IsDigitOf base d → digit_value d ≡ 0 → d ≡ b'0'
zero_char base d h e = ground arith

module _ (base : ℕ) (big : 2 ≤ base) where
  smaller : (n : ℕ) → ltb n base ≡ false → n / base < n
  smaller n large = div-lt_self (omega tests) big

  to_radix-fuel : (f g n : ℕ) → n < f → n < g → to_radix f base n ≡ to_radix g base n
  unfolding to_radix
  to_radix-fuel zero g n h k = absurd (omega arith)
  to_radix-fuel (suc f) zero n h k = absurd (omega arith)
  to_radix-fuel (suc f) (suc g) n h k = elim (Bool-cases (ltb n base)) [
    | inl small ↦ rw small
    | inr large ↦ rw large (
        ap (λ (t : Text). t ++ digit (n % base) ∷ [])
          (to_radix-fuel f g (n / base) (omega (arith, smaller n large))
            (omega (arith, smaller n large))))
  ]

  to_string-large :
      (n : ℕ) → base ≤ n → to_string base n ≡ to_string base (n / base) ++ digit (n % base) ∷ []
  unfolding to_string
  to_string-large n h =
      let large : ltb n base ≡ false = omega tests in
      rw (to_radix, large)
        (ap (λ (t : Text). t ++ digit (n % base) ∷ [])
          (to_radix-fuel n (suc (n / base)) (n / base) (smaller n large) (omega arith)))

  to_string-small : (n : ℕ) → n < base → to_string base n ≡ digit n ∷ []
  unfolding to_string
  to_string-small n h = ground arith

  module _ (splits : Splits base) where
    to_string-digit :
        (acc d : ℕ)
        → 0 < acc
        → IsDigitOf base d
        → to_string base (acc * base + digit_value d) ≡ to_string base acc ++ d ∷ []
    to_string-digit acc d h (small, same) =
        let (q, r, grows) = splits acc (digit_value d) small in
        to_string-large (acc * base + digit_value d) (omega (arith, grows h)) ∙ rw (q, r, same)

    -- Digits behind a positive number are printed behind it.
    to_string-read_digits :
        (acc : ℕ) (ds : Text)
        → 0 < acc
        → All (IsDigitOf base) ds
        → to_string base (read_digits base acc ds) ≡ to_string base acc ++ ds
    unfolding read_digits
    to_string-read_digits acc [] h hd = sym (append-nil _)
    to_string-read_digits acc (d ∷ ds) h (hd, hds) =
        let (_, _, grows) = splits acc (digit_value d) hd.0 in
        to_string-read_digits (acc * base + digit_value d) ds (omega (arith, grows h)) hds
        ∙ ap (λ (t : Text). t ++ ds) (to_string-digit acc d h hd)
        ∙ append_assoc (to_string base acc) (d ∷ []) ds

    to_string-nonzero :
        (d : ℕ) (ds : Text)
        → 0 < digit_value d
        → All (IsDigitOf base) (d ∷ ds)
        → to_string base (read_digits base 0 (d ∷ ds)) ≡ d ∷ ds
    unfolding read_digits
    to_string-nonzero d ds h (hd, hds) =
        let first : 0 * base + digit_value d ≡ digit_value d = omega arith in
        rw first (
          to_string-read_digits (digit_value d) ds h hds
          ∙ rw (to_string-small (digit_value d) hd.0, hd.1))

    read_digits-zero :
        (d : ℕ) (ds : Text)
        → digit_value d ≡ 0
        → read_digits base 0 (d ∷ ds) ≡ read_digits base 0 ds
    unfolding read_digits
    read_digits-zero d ds h = let first : 0 * base + digit_value d ≡ 0 = omega arith in rw first

    -- Fixed-width digits, leading zeros included.
    pad_start-to_string :
        (d : ℕ) (ds : Text)
        → All (IsDigitOf base) (d ∷ ds)
        → pad_start (length (d ∷ ds)) (to_string base (read_digits base 0 (d ∷ ds))) ≡ d ∷ ds
    pad_start-to_string d [] hd = elim (Bool-cases (digit_value d == 0)) [
      | inl nought ↦ rw (read_digits-zero d [] (==→eq _ _ nought)) (
          unfold read_digits in
          rw (to_string-small 0 (omega arith))
            (rw (zero_char base d hd.0 (==→eq _ _ nought)) (pad_start-length (b'0' ∷ []))))
      | inr some_digit ↦ rw (to_string-nonzero d [] (ground arith) hd) (pad_start-length (d ∷ []))
    ]
    pad_start-to_string d (e ∷ ds) hd = elim (Bool-cases (digit_value d == 0)) [
      | inl nought ↦ rw (read_digits-zero d (e ∷ ds) (==→eq _ _ nought)) (
          pad_start-leading d (e ∷ ds) _ (zero_char base d hd.0 (==→eq _ _ nought))
            (pad_start-to_string e ds hd.1))
      | inr some_digit ↦
          rw (to_string-nonzero d (e ∷ ds) (ground arith) hd) (pad_start-length (d ∷ e ∷ ds))
    ]

ten_digits : (ds : Text) → every is_digit ds ≡ true → All (IsDigitOf 10) ds
unfolding every
ten_digits [] h = tt
ten_digits (d ∷ ds) h = ((ground arith, ground arith), ten_digits ds (ground arith))

sixteen_digits : (ds : Text) → every is_hex_digit ds ≡ true → All (IsDigitOf 16) ds
unfolding every
sixteen_digits [] h = tt
sixteen_digits (d ∷ ds) h = ((ground arith, ground arith), sixteen_digits ds (ground arith))

-- The sixteen digits of float bits are what `toString(16).padStart(16, '0')` gives back.
pub pad_start-hex_int :
    (text : Text) → is_float64_text text ≡ true → pad_start 16 (to_string 16 (hex_int text)) ≡ text
unfolding hex_int is_float64_text
pad_start-hex_int [] h = cc
pad_start-hex_int (d ∷ ds) h =
    let (len, digits) = &&-eq-true (length (d ∷ ds) == 16) (every is_hex_digit (d ∷ ds)) h in
    subst (λ n. pad_start n (to_string 16 (read_digits 16 0 (d ∷ ds))) ≡ d ∷ ds) (==→eq _ _ len)
      (pad_start-to_string 16 (omega arith) sixteen-Splits d ds (sixteen_digits (d ∷ ds) digits))

read_digits_grows : (acc : ℕ) (ds : Text) → acc ≤ read_digits 10 acc ds
unfolding read_digits
read_digits_grows acc [] = omega arith
read_digits_grows acc (d ∷ ds) = omega (arith, read_digits_grows (acc * 10 + digit_value d) ds)

to_decimal-negated : (n : ℕ) → 0 < n → to_decimal (negated n) ≡ b'-' ∷ to_string 10 n
unfolding to_decimal
to_decimal-negated zero h = absurd (omega arith)
to_decimal-negated (suc n) h = refl

positive_lem :
    (text : Text)
    → is_positive_decimal text ≡ true
    → (to_string 10 (read_digits 10 0 text) ≡ text) × (0 < read_digits 10 0 text)
unfolding is_positive_decimal
positive_lem [] h = cc
positive_lem (c ∷ rest) h =
    let (lead, digits) = &&-eq-true (leb b'1' c && leb c b'9') (every is_digit rest) h in
    let first : IsDigitOf 10 c = (ground arith, ground arith) in
    let large : 0 < digit_value c = ground arith in
    (
      to_string-nonzero 10 (omega arith) ten-Splits c rest large (first, ten_digits rest digits),
      unfold read_digits in omega (arith, read_digits_grows (0 * 10 + digit_value c) rest),
    )

decimal_zero :
    (c : ℕ) (rest : Text)
    → c ≡ b'0'
    → is_empty rest ≡ true
    → to_decimal (big_int (c ∷ rest)) ≡ c ∷ rest
unfolding to_decimal big_int
decimal_zero c [] e h = rw e (to_string-small 10 (omega arith) 0 (omega arith))
decimal_zero c (d ∷ rest) e h = cc

-- A text that matches the pattern of canonical decimals is printed as it was read, by `BigInt` and
-- `toString`.
pub to_decimal-big_int :
    (text : Text) → is_canonical_decimal text ≡ true → to_decimal (big_int text) ≡ text
unfolding to_decimal big_int is_canonical_decimal
to_decimal-big_int [] h = cc
to_decimal-big_int (c ∷ rest) h = elim (Bool-cases (c == b'0')) [
  | inl nought ↦ decimal_zero c rest (==→eq _ _ nought) (rw nought at h)
  | inr other ↦ elim (Bool-cases (c == b'-')) [
    | inl minus ↦
        let (same, large) = positive_lem rest (rw (other, minus) at h) in
        rw minus (to_decimal-negated _ large ∙ rw (same, ==→eq _ _ minus))
    | inr plus ↦ rw plus (positive_lem (c ∷ rest) (rw (other, plus) at h)).0
  ]
]

read_digits-lt :
    (acc : ℕ) (ds : Text)
    → All (IsDigitOf 16) ds
    → read_digits 16 acc ds < (acc + 1) * 16 ^ length ds
unfolding read_digits
read_digits-lt acc [] hd = omega arith
read_digits-lt acc (d ∷ ds) ((small, _), hds) =
    let step : (acc * 16 + digit_value d + 1) * 16 ^ length ds ≤ (acc + 1) * (16 * 16 ^ length ds) =
      grind arith in
    rw pow-succ' (omega (arith, read_digits-lt (acc * 16 + digit_value d) ds hds, step))

-- Sixteen hexadecimal digits are 64 bits.
pub hex_int-lt : (text : Text) → is_float64_text text ≡ true → hex_int text < 2 ^ 64
unfolding hex_int is_float64_text
hex_int-lt text h =
    let (len, digits) = &&-eq-true (length text == 16) (every is_hex_digit text) h in
    let bound : read_digits 16 0 text < (0 + 1) * 16 ^ 16 =
      subst (λ n. read_digits 16 0 text < (0 + 1) * 16 ^ n) (==→eq _ _ len)
        (read_digits-lt 0 text (sixteen_digits text digits)) in
    omega arith
