-- ===== src/Text/Numeral/ReadBack.antt =====
-- Reading what was printed: `BigInt(n.toString())`.
use fram.Prelude.{
  ℕ, zero, suc, ◌+◌, ◌*◌, ◌/◌, ◌%◌, ◌<◌, ◌≡◌, refl, ap, ◌∙◌, inl, inr, Bool, true, false, [], ◌∷◌,
  ◌++◌, ltb, replicate, length, ◌-◌, ◌==◌, arith, Bool-cases, tests, ltb→lt, ℤ, pos, negsuc,
}
use fram.Text.{Text}
use fram.Text.Numeral.{
  digit, digit_value, to_radix, to_string, to_decimal, read_digits, negated, big_int, is_digit,
  every, pad_start,
}

read_digits-append :
    (base n : ℕ) (s t : Text)
    → read_digits base n (s ++ t) ≡ read_digits base (read_digits base n s) t
unfolding read_digits
read_digits-append base n [] t = refl
read_digits-append base n (c ∷ s) t = read_digits-append base (n * base + digit_value c) s t

every-append :
    (p : ℕ → Bool) (s t : Text) → every p s ≡ true → every p t ≡ true → every p (s ++ t) ≡ true
unfolding every
every-append p [] t h k = k
every-append p (c ∷ s) t h k = ground (arith, every-append p s t)

digit_value-digit : (v : ℕ) → v < 16 → digit_value (digit v) ≡ v
digit_value-digit v h = ground arith

last_digit : (n front : ℕ) → front ≡ n / 10 → read_digits 10 front (digit (n % 10) ∷ []) ≡ n
unfolding read_digits
last_digit n front e = omega (arith, digit_value-digit (n % 10) (omega arith))

pub read_digits-to_radix : (fuel n : ℕ) → n < fuel → read_digits 10 0 (to_radix fuel 10 n) ≡ n
unfolding to_radix
read_digits-to_radix zero n h = absurd (omega arith)
read_digits-to_radix (suc fuel) n h = elim (Bool-cases (ltb n 10)) [
  | inl small ↦ rw small (unfold read_digits in ground (arith, ltb→lt n 10 small))
  | inr large ↦
      rw (large, read_digits-append)
        (last_digit n _ (read_digits-to_radix fuel (n / 10) (omega tests)))
]

pub every-to_radix : (fuel n : ℕ) → every is_digit (to_radix fuel 10 n) ≡ true
unfolding to_radix
every-to_radix zero n = unfold every in refl
every-to_radix (suc fuel) n = elim (Bool-cases (ltb n 10)) [
  | inl small ↦ rw small (unfold every in ground arith)
  | inr large ↦
      rw large
        (every-append is_digit _ _ (every-to_radix fuel (n / 10)) (unfold every in ground arith))
]

big_int-digits : (t : Text) → every is_digit t ≡ true → big_int t ≡ pos (read_digits 10 0 t)
unfolding big_int
big_int-digits [] h = unfold read_digits in refl
big_int-digits (c ∷ t) h =
    let plain : (c == b'-') ≡ false = unfold every in ground arith in rw plain

-- `BigInt(n.toString())` is `n`.
pub big_int-to_decimal : (n : ℤ) → big_int (to_decimal n) ≡ n
unfolding to_decimal to_string
big_int-to_decimal (pos n) =
    big_int-digits _ (every-to_radix (suc n) n)
    ∙ ap pos (read_digits-to_radix (suc n) n (omega arith))
big_int-to_decimal (negsuc n) =
    unfold big_int in ap negated (read_digits-to_radix (suc (suc n)) (suc n) (omega arith))

read_digits-zeros :
    (k : ℕ) (s : Text) → read_digits 10 0 (replicate k b'0' ++ s) ≡ read_digits 10 0 s
unfolding read_digits replicate
read_digits-zeros zero s = refl
read_digits-zeros (suc k) s = read_digits-zeros k s

every-zeros :
    (k : ℕ) (s : Text) → every is_digit s ≡ true → every is_digit (replicate k b'0' ++ s) ≡ true
unfolding every replicate
every-zeros zero s h = h
every-zeros (suc k) s h = every-zeros k s h

-- The padded digits of `n` stand for `n`.
pub read_digits-pad_start : (width n : ℕ) → read_digits 10 0 (pad_start width (to_string 10 n)) ≡ n
unfolding pad_start to_string
read_digits-pad_start width n =
    read_digits-zeros (width - length (to_radix (suc n) 10 n)) _
    ∙ read_digits-to_radix (suc n) n (omega arith)

pub every-pad_start : (width n : ℕ) → every is_digit (pad_start width (to_string 10 n)) ≡ true
unfolding pad_start to_string
every-pad_start width n =
    every-zeros (width - length (to_radix (suc n) 10 n)) _ (every-to_radix (suc n) n)
