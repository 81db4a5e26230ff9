-- ===== src/Adapter/Chunks/Image.antt =====
-- adapter.mjs: the image that `load` fills chunk by chunk, between its zeros and the whole bytes.
use fram.Prelude.{
  ℕ, zero, suc, ◌+◌, ◌-◌, ◌≤◌, ◌≡◌, refl, ap, ◌∙◌, List, [], ◌∷◌, ◌++◌, length, take, drop,
  replicate, length-take, arith, append-nil,
}
use fram.Adapter.Chunks.{set_bytes, slice}

-- The bytes up to `m`, and zeros for those that follow.
unfoldable pub image_at : List ℕ → ℕ → List ℕ
image_at bytes m = take m bytes ++ replicate (length bytes - m) 0

drop-replicate : (n k : ℕ) → drop {A = ℕ} n (replicate {A = ℕ} k 0) ≡ replicate {A = ℕ} (k - n) 0
unfolding drop replicate
drop-replicate zero k = let e : k - 0 ≡ k = omega arith in rw e refl
drop-replicate (suc n) zero = let e : 0 - suc n ≡ 0 = omega arith in rw e refl
drop-replicate (suc n) (suc k) =
    let e : suc k - suc n ≡ k - n = omega arith in rw e (drop-replicate n k)

set_bytes-cons :
    (x at : ℕ) (image bytes : List ℕ)
    → set_bytes (x ∷ image) (suc at) bytes ≡ x ∷ set_bytes image at bytes
unfolding set_bytes take drop
set_bytes-cons x at image bytes =
    let e : suc at + length bytes ≡ suc (at + length bytes) = omega arith in rw e refl

image_at-cons : (x m : ℕ) (bytes : List ℕ) → image_at (x ∷ bytes) (suc m) ≡ x ∷ image_at bytes m
unfolding image_at take
image_at-cons x m bytes =
    let e : length (x ∷ bytes) - suc m ≡ length bytes - m = omega arith in rw e refl

pub image_at-none : (bytes : List ℕ) → image_at bytes 0 ≡ replicate (length bytes) 0
unfolding image_at take
image_at-none bytes = let e : length bytes - 0 ≡ length bytes = omega arith in rw e refl

no_front : (xs ys : List ℕ) → take 0 xs ++ ys ≡ ys
unfolding take
no_front xs ys = refl

set_front :
    (end : ℕ) (bytes : List ℕ)
    → end ≤ length bytes
    → set_bytes (image_at bytes 0) 0 (take end bytes) ≡ image_at bytes end
unfolding set_bytes
set_front end bytes h =
    let z : 0 + length (take end bytes) ≡ end = omega (arith, length-take end bytes) in
    rw (z, image_at-none bytes)
      (no_front (replicate (length bytes) 0) _
        ∙ unfold image_at in
          ap (λ (r : List ℕ). take end bytes ++ r) (drop-replicate end (length bytes)))

-- Setting the bytes from `start` up to `end` moves the image on.
pub set_bytes-image_at :
    (start end : ℕ) (bytes : List ℕ)
    → start ≤ end
    → end ≤ length bytes
    → set_bytes (image_at bytes start) start (slice start end bytes) ≡ image_at bytes end
unfolding drop
set_bytes-image_at zero end bytes h k =
    let e : end - 0 ≡ end = omega arith in rw e (set_front end bytes k)
set_bytes-image_at (suc start) zero bytes h k = absurd (omega arith)
set_bytes-image_at (suc start) (suc end) [] h k = absurd (omega arith)
set_bytes-image_at (suc start) (suc end) (x ∷ bytes) h k =
    let e : suc end - suc start ≡ end - start = omega arith in
    rw
      (
        e,
        image_at-cons x start bytes,
        image_at-cons x end bytes,
        set_bytes-cons x start (image_at bytes start),
      )
      (ap (λ (r : List ℕ). x ∷ r) (set_bytes-image_at start end bytes (omega arith) (omega arith)))

pub take-all : (n : ℕ) (bytes : List ℕ) → length bytes ≤ n → take n bytes ≡ bytes
unfolding take
take-all zero [] h = refl
take-all zero (x ∷ bytes) h = absurd (omega arith)
take-all (suc n) [] h = refl
take-all (suc n) (x ∷ bytes) h = ap (λ (r : List ℕ). x ∷ r) (take-all n bytes (omega arith))

pub image_at-all : (bytes : List ℕ) → image_at bytes (length bytes) ≡ bytes
unfolding image_at
image_at-all bytes =
    let e : length bytes - length bytes ≡ 0 = omega arith in
    rw (e, take-all (length bytes) bytes (omega arith)) (unfold replicate in append-nil bytes)
