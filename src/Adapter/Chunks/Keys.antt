-- ===== src/Adapter/Chunks/Keys.antt =====
-- adapter.mjs: the keys of a ChunkedRange name its chunks apart, and apart from its `meta` and from
-- the other range.
use fram.Prelude.{
  ℕ, ◌≡◌, refl, sym, ap, ◌∙◌, inl, inr, true, false, [], ◌∷◌, ◌++◌, ◌==◌, same_elems, same_elems-eq,
  same_elems_self, Bool-cases, ==→eq, arith,
}
use fram.Text.{Text, codes}
use fram.Text.Numeral.{read_digits, pad_start, to_string, every, is_digit}
use fram.Text.Numeral.ReadBack.{read_digits-pad_start, every-pad_start}
use fram.Adapter.Chunks.{chunk_key, meta_key}

same_elems-append : (p s t : Text) → same_elems (p ++ s) (p ++ t) ≡ same_elems s t
unfolding same_elems
same_elems-append [] s t = refl
same_elems-append (c ∷ p) s t = ground (arith, same_elems-append p s t)

digits_apart :
    (i j : ℕ)
    → same_elems (pad_start 8 (to_string 10 i)) (pad_start 8 (to_string 10 j)) ≡ true
    → i ≡ j
digits_apart i j h =
    sym (read_digits-pad_start 8 i)
    ∙ ap (read_digits 10 0) (same_elems-eq _ _ h)
    ∙ read_digits-pad_start 8 j

-- Two indices have one key only where they are equal.
pub chunk_key-same :
    (prefix : Text) (i j : ℕ) → same_elems (chunk_key prefix i) (chunk_key prefix j) ≡ (i == j)
unfolding chunk_key
chunk_key-same prefix i j = rw (same_elems-append prefix) (elim (Bool-cases (i == j)) [
  | inl e ↦ rw (==→eq i j e) (same_elems_self _ ∙ ground arith)
  | inr ne ↦
      elim (Bool-cases (same_elems (pad_start 8 (to_string 10 i)) (pad_start 8 (to_string 10 j)))) [
        | inl e ↦ let eq = digits_apart i j e in ground arith
        | inr e ↦ e ∙ sym ne
      ]
])

-- A chunk's key is not the key of `meta`.
pub chunk_key-meta_key :
    (prefix : Text) (i : ℕ) → same_elems (chunk_key prefix i) (meta_key prefix) ≡ false
unfolding chunk_key meta_key
chunk_key-meta_key prefix i =
    rw (same_elems-append prefix)
      (elim (Bool-cases (same_elems (pad_start 8 (to_string 10 i)) (codes "meta"))) [
        | inl e ↦
            let digits : every is_digit (codes "meta") ≡ true =
              rw (← same_elems-eq _ _ e) (every-pad_start 8 i) in
            unfold every in cc
        | inr e ↦ e
      ])

-- No key of the one prefix is a key of the other.
abbrev pub Apart : Text → Text → Type 0
Apart p q =
    ((i k : ℕ) → same_elems (chunk_key p i) (chunk_key q k) ≡ false)
    × ((k : ℕ) → same_elems (meta_key p) (chunk_key q k) ≡ false)
    × ((i : ℕ) → same_elems (chunk_key p i) (meta_key q) ≡ false)
    × (same_elems (meta_key p) (meta_key q) ≡ false)

pub log-Apart : Apart (codes "framlog/") (codes "framimage/")
unfolding chunk_key meta_key same_elems
log-Apart = (λ i k. refl, λ k. refl, λ i. refl, refl)

pub image-Apart : Apart (codes "framimage/") (codes "framlog/")
unfolding chunk_key meta_key same_elems
image-Apart = (λ i k. refl, λ k. refl, λ i. refl, refl)
