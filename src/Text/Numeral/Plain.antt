-- ===== src/Text/Numeral/Plain.antt =====
-- A printed number starts with a zero only where it is zero.
use fram.Prelude.{
  ℕ, zero, suc, ◌/◌, ◌<◌, ◌≡◌, refl, inl, inr, true, false, not, ◌||◌, [], ◌∷◌, ◌++◌, ltb, length,
  ◌==◌, arith, Bool-cases, tests,
}
use fram.Text.{Text}
use fram.Text.Numeral.{to_radix, to_string, is_empty, starts_with_zero}

-- A text whose first character stays the first one when more is put behind it.
abbrev IsHeaded : Text → Type 0
IsHeaded t = (is_empty t ≡ false) × (starts_with_zero t ≡ false)

IsHeaded-append : (s t : Text) → IsHeaded s → IsHeaded (s ++ t)
IsHeaded-append [] t (filled, plain) = absurd (cc)
IsHeaded-append (c ∷ s) t (filled, plain) = (refl, plain)

to_radix-IsHeaded : (fuel n : ℕ) → n < fuel → 0 < n → IsHeaded (to_radix fuel 10 n)
unfolding to_radix
to_radix-IsHeaded zero n h positive = absurd (omega arith)
to_radix-IsHeaded (suc fuel) n h positive = elim (Bool-cases (ltb n 10)) [
  | inl small ↦ rw small (refl, ground arith)
  | inr large ↦ rw large (
      IsHeaded-append (to_radix fuel 10 (n / 10)) _
        (to_radix-IsHeaded fuel (n / 10) (omega tests) (omega tests)))
]

abbrev pub IsPlain : Text → Type 0
IsPlain t = (is_empty t ≡ false) × ((not (starts_with_zero t) || (length t == 1)) ≡ true)

-- A printed number is not empty, and its first digit is a zero only where it is the only one.
pub to_string-IsPlain : (n : ℕ) → IsPlain (to_string 10 n)
unfolding to_string to_radix
to_string-IsPlain zero = (refl, refl)
to_string-IsPlain (suc n) =
    let (filled, plain) = to_radix-IsHeaded (suc (suc n)) (suc n) (omega arith) (omega arith) in
    (filled, rw plain refl)
