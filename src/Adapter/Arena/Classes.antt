-- ===== src/Adapter/Arena/Classes.antt =====
-- adapter.mjs: GuestArena, the class of a size and the alignment of a header.
use fram.Prelude.{
  ℕ, zero, suc, ◌+◌, ◌*◌, ◌%◌, ◌^◌, ◌<◌, ◌≤◌, ◌≡◌, ◌⊎◌, inl, inr, refl, ltb, Bool-cases, ltb→lt,
  not_ltb→le, arith,
}
use fram.Adapter.Arena.{class_from, class_of, align_16}

-- The class of a size: the smallest of the doublings of 32 that the size fits.
pub record IsClass (size class : ℕ) : Type 0 where
  pub doublings : ℕ
  pub is_doubled : class ≡ 32 * 2 ^ doublings
  pub fits : size ≤ class
  pub is_smallest : (doublings ≡ 0) ⊎ (class < 2 * size)

class_from-IsClass :
    (fuel size class doublings : ℕ)
    → class ≡ 32 * 2 ^ doublings
    → (doublings ≡ 0) ⊎ (class < 2 * size)
    → size ≤ fuel + class
    → 0 < class
    → IsClass size (class_from fuel size class)
unfolding class_from
class_from-IsClass zero size class doublings doubled smallest enough positive = record {
  doublings = doublings;
  is_doubled = doubled;
  fits = omega arith;
  is_smallest = smallest;
}
class_from-IsClass (suc fuel) size class doublings doubled smallest enough positive =
    elim (Bool-cases (ltb class size)) [
      | inl e ↦
          let below = ltb→lt class size e in
          rw e (
            class_from-IsClass fuel size (class * 2) (suc doublings) (omega (arith, doubled))
              (inr (omega arith)) (omega arith) (omega arith))
      | inr e ↦ rw e (record {
        doublings = doublings;
        is_doubled = doubled;
        fits = not_ltb→le class size e;
        is_smallest = smallest;
      })
    ]

-- For every size that is not negative, the loop of `#classOf` ends at the smallest class that the size fits.
pub class_of-IsClass : (size : ℕ) → IsClass size (class_of size)
unfolding class_of
class_of-IsClass size =
    class_from-IsClass size size 32 0 refl (inl refl) (omega arith) (omega arith)

power_positive : (n : ℕ) → 0 < 2 ^ n
power_positive zero = omega arith
power_positive (suc n) = omega (arith, power_positive n)

class_positive : (size class : ℕ) → IsClass size class → 32 ≤ class
class_positive size class is = omega (arith, is.is_doubled, power_positive is.doublings)

pub class_of-positive : (size : ℕ) → 32 ≤ class_of size
class_of-positive size = class_positive size (class_of size) (class_of-IsClass size)

pub align_16-bounds :
    (next : ℕ)
    → next + 15 < 4294967296
    → (next ≤ align_16 next) × (align_16 next ≤ next + 15) × (align_16 next % 16 ≡ 0)
unfolding align_16
align_16-bounds next h = (omega arith, omega arith, omega arith)
