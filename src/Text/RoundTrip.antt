-- ===== src/Text/RoundTrip.antt =====
-- `TextDecoder` after `TextEncoder`.
use fram.Prelude.{
  ℕ, suc, ◌+◌, ◌-◌, ◌*◌, ◌/◌, ◌%◌, ◌≤◌, ◌<◌, ◌≡◌, refl, sym, ap, ◌∙◌, ◌⊎◌, inl, inr, Bool, true,
  false, ◌&&◌, Option, some, List, [], ◌∷◌, ◌++◌, ltb, ◌==◌, if◌then◌else◌, All, arith, Bool-cases,
  tests, append-nil, All-append,
}
use fram.Text.{Text, is_high_surrogate, is_low_surrogate, has_paired_surrogates}
use fram.Text.Utf8.{
  encode_point, lone_point, pair_point, encode, Pending, idle, wait, units, step, decode_from,
  strip_mark, decode,
}
use mathlib.Core.Option
use mathlib.Core.Path.{subst}

-- A byte that finishes nothing.
decode_from-wait :
    (p : Pending) (b : ℕ) (rest : List ℕ) (p' : Pending)
    → step p b ≡ some ([], p')
    → decode_from p (b ∷ rest) ≡ decode_from p' rest
unfolding decode_from
decode_from-wait p b rest p' e =
    rw (decode_from, e)
      (ap (λ (f : Option Text → Option Text). f (decode_from p' rest)) Option.map-id)

-- A byte that finishes a scalar value.
decode_from-emit :
    (p : Pending) (b : ℕ) (rest : List ℕ) (out : Text)
    → step p b ≡ some (out, idle)
    → decode_from p (b ∷ rest) ≡ Option.map (λ t. out ++ t) (decode_from idle rest)
unfolding decode_from
decode_from-emit p b rest out e = rw (decode_from, e)

-- A trailing byte, with the bits `point'` that are read then.
module _ (point lower upper b point' : ℕ) (hl : lower ≤ b) (hu : b ≤ upper)
    (e : point * 64 + b % 64 ≡ point') where
  trail_wait :
      (left : ℕ)
      → step (wait (suc (suc left)) point lower upper) b
        ≡ some ([], wait (suc left) point' 0x80 0xbf)
  unfolding step
  trail_wait left = rw (← e) (ground arith)

  trail_emit : step (wait 1 point lower upper) b ≡ some (units point', idle)
  unfolding step
  trail_emit = rw (← e) (ground arith)

lead_one : (b : ℕ) → b < 0x80 → step idle b ≡ some (b ∷ [], idle)
unfolding step
lead_one b h = ground arith

lead_two : (b : ℕ) → 0xc2 ≤ b → b < 0xe0 → step idle b ≡ some ([], wait 1 (b - 0xc0) 0x80 0xbf)
unfolding step
lead_two b h k = ground arith

-- The bounds on the byte after a lead byte keep out long forms, surrogates and what is past U+10FFFF.
abbrev lower_after : ℕ → ℕ
lower_after b = if b == 0xe0 then 0xa0 else if b == 0xf0 then 0x90 else 0x80

abbrev upper_after : ℕ → ℕ
upper_after b = if b == 0xed then 0x9f else if b == 0xf4 then 0x8f else 0xbf

lead_three :
    (b : ℕ)
    → 0xe0 ≤ b
    → b < 0xf0
    → step idle b ≡ some ([], wait 2 (b - 0xe0) (lower_after b) (upper_after b))
unfolding step
lead_three b h k = ground arith

lead_four :
    (b : ℕ)
    → 0xf0 ≤ b
    → b < 0xf5
    → step idle b ≡ some ([], wait 3 (b - 0xf0) (lower_after b) (upper_after b))
unfolding step
lead_four b h k = ground arith

abbrev Decodes : ℕ → List ℕ → List ℕ → Type 0
Decodes c bytes rest =
    decode_from idle (bytes ++ rest) ≡ Option.map (λ t. units c ++ t) (decode_from idle rest)

-- Each length of a scalar value's bytes is read back.
module _ (c : ℕ) (rest : List ℕ) where
  Decodes-one : c < 0x80 → Decodes c (c ∷ []) rest
  Decodes-one h =
      decode_from-emit idle c rest (units c) (lead_one c h ∙ unfold units in ground arith)

  Decodes-two : 0x80 ≤ c → c < 0x800 → Decodes c ((0xc0 + c / 64) ∷ (0x80 + c % 64) ∷ []) rest
  Decodes-two lo hi =
      decode_from-wait _ _ _ _ (lead_two (0xc0 + c / 64) (omega arith) (omega arith))
      ∙ decode_from-emit _ _ rest (units c)
          (trail_emit _ _ _ (0x80 + c % 64) c (omega arith) (omega arith) (omega arith))

  Decodes-three :
      0x800 ≤ c
      → (c < 0xd800) ⊎ (0xdfff < c)
      → c < 0x1_0000
      → Decodes c ((0xe0 + c / 4096) ∷ (0x80 + c / 64 % 64) ∷ (0x80 + c % 64) ∷ []) rest
  Decodes-three lo gap hi =
      decode_from-wait _ _ _ _ (lead_three (0xe0 + c / 4096) (omega arith) (omega arith))
      ∙ decode_from-wait _ _ _ _ (
          trail_wait _ _ _ (0x80 + c / 64 % 64) (c / 64) (ground arith) (ground arith) (omega arith)
            0)
      ∙ decode_from-emit _ _ rest (units c)
          (trail_emit _ _ _ (0x80 + c % 64) c (omega arith) (omega arith) (omega arith))

  Decodes-four :
      0x1_0000 ≤ c
      → c < 0x11_0000
      → Decodes c
          ((0xf0 + c / 262144)
            ∷ (0x80 + c / 4096 % 64)
            ∷ (0x80 + c / 64 % 64)
            ∷ (0x80 + c % 64)
            ∷ [])
          rest
  Decodes-four lo hi =
      decode_from-wait _ _ _ _ (lead_four (0xf0 + c / 262144) (omega arith) (omega arith))
      ∙ decode_from-wait _ _ _ _ (
          trail_wait _ _ _ (0x80 + c / 4096 % 64) (c / 4096) (ground arith) (ground arith)
            (omega arith) 1)
      ∙ decode_from-wait _ _ _ _ (
          trail_wait _ _ _ (0x80 + c / 64 % 64) (c / 64) (omega arith) (omega arith) (omega arith)
            0)
      ∙ decode_from-emit _ _ rest (units c)
          (trail_emit _ _ _ (0x80 + c % 64) c (omega arith) (omega arith) (omega arith))

-- A scalar value: no surrogate, and at most U+10FFFF.
abbrev IsScalar : ℕ → Type 0
IsScalar c = ((c < 0xd800) ⊎ (0xdfff < c)) × (c < 0x11_0000)

Decodes-encode_point : (c : ℕ) (rest : List ℕ) → IsScalar c → Decodes c (encode_point c) rest
unfolding encode_point
Decodes-encode_point c rest (gap, hi) = elim (Bool-cases (ltb c 0x80)) [
  | inl one ↦ rw one (Decodes-one c rest (omega tests))
  | inr more ↦ rw more (elim (Bool-cases (ltb c 0x800)) [
    | inl two ↦ rw two (Decodes-two c rest (omega tests) (omega tests))
    | inr more' ↦ rw more' (elim (Bool-cases (ltb c 0x1_0000)) [
      | inl three ↦ rw three (Decodes-three c rest (omega tests) gap (omega tests))
      | inr four ↦ rw four (Decodes-four c rest (omega tests) hi)
    ])
  ])
]

abbrev pub IsUnit16 : ℕ → Type 0
IsUnit16 unit = unit < 0x1_0000

units-IsUnit16 : (c : ℕ) → IsUnit16 c → units c ≡ c ∷ []
unfolding units
units-IsUnit16 c h = ground arith

units-pair_point :
    (high low : ℕ)
    → is_high_surrogate high ≡ true
    → is_low_surrogate low ≡ true
    → units (pair_point high low) ≡ high ∷ low ∷ []
unfolding units
units-pair_point high low h l = ground arith

pair_point-IsScalar :
    (high low : ℕ)
    → is_high_surrogate high ≡ true
    → is_low_surrogate low ≡ true
    → IsScalar (pair_point high low)
pair_point-IsScalar high low h l = ground arith

decode_from-encode_point :
    (c : ℕ) (out : Text) (bytes : List ℕ) (t : Text)
    → IsScalar c
    → units c ≡ out
    → decode_from idle bytes ≡ some t
    → decode_from idle (encode_point c ++ bytes) ≡ some (out ++ t)
decode_from-encode_point c out bytes t hc e h = Decodes-encode_point c bytes hc ∙ rw (h, e)

unit-IsScalar :
    (unit : ℕ)
    → IsUnit16 unit
    → is_high_surrogate unit ≡ false
    → is_low_surrogate unit ≡ false
    → IsScalar unit
unit-IsScalar unit u h l = ground arith

-- A well-formed text is read back from its bytes, but for the byte order mark.
pub decode_from-encode :
    (t : Text)
    → All IsUnit16 t
    → has_paired_surrogates t ≡ true
    → decode_from idle (encode t) ≡ some t
unfolding encode has_paired_surrogates
decode_from-encode [] u h = unfold decode_from in refl
decode_from-encode (unit ∷ []) (u, _) h =
    let high : is_high_surrogate unit ≡ false = ground arith in
    let low : is_low_surrogate unit ≡ false = ground arith in
    rw (high, low)
      (subst (λ b. decode_from idle b ≡ some (unit ∷ [])) (append-nil (encode_point unit))
        (decode_from-encode_point unit _ [] [] (unit-IsScalar unit u high low)
          (units-IsUnit16 unit u) (unfold decode_from in refl)))
decode_from-encode (unit ∷ next ∷ rest) (u, (v, us)) h =
    elim (Bool-cases (is_high_surrogate unit)) [
      | inl high ↦ elim (Bool-cases (is_low_surrogate next)) [
        | inl low ↦
            rw (high, low)
              (decode_from-encode_point (pair_point unit next) (unit ∷ next ∷ []) (encode rest) rest
                (pair_point-IsScalar unit next high low) (units-pair_point unit next high low)
                (decode_from-encode rest us (rw (high, low) at h)))
        | inr bad ↦ cc (rw (high, bad) at h)
      ]
      | inr plain ↦ elim (Bool-cases (is_low_surrogate unit)) [
        | inl bad ↦ cc (rw (plain, bad) at h)
        | inr plain' ↦
            rw (plain, plain')
              (decode_from-encode_point unit (unit ∷ []) (encode (next ∷ rest)) (next ∷ rest)
                (unit-IsScalar unit u plain plain') (units-IsUnit16 unit u)
                (decode_from-encode (next ∷ rest) (v, us) (rw (plain, plain') at h)))
      ]
    ]

-- A text that `TextEncoder` writes without replacing anything.
pub record IsWellFormed (t : Text) : Type 0 where
  pub units16 : All IsUnit16 t
  pub paired : has_paired_surrogates t ≡ true

abbrev pub has_mark : Text → Bool
has_mark [] = false
has_mark (unit ∷ rest) = unit == 0xfeff

-- The decoder gives a text of 16-bit units with paired surrogates back from its encoding, but for a
-- byte order mark in front, which it takes away.
pub decode-encode : (t : Text) → IsWellFormed t → decode (encode t) ≡ some (strip_mark t)
unfolding decode
decode-encode t w = rw (decode_from-encode t w.units16 w.paired)

pub strip_mark-has_mark : (t : Text) → has_mark t ≡ false → strip_mark t ≡ t
unfolding strip_mark
strip_mark-has_mark [] h = refl
strip_mark-has_mark (unit ∷ rest) h = rw h

pub decode-encode_unmarked :
    (t : Text) → IsWellFormed t → has_mark t ≡ false → decode (encode t) ≡ some t
decode-encode_unmarked t w h = decode-encode t w ∙ ap some (strip_mark-has_mark t h)

abbrev pub IsByte : ℕ → Type 0
IsByte b = b < 256

encode_point-IsByte : (c : ℕ) → c < 0x11_0000 → All IsByte (encode_point c)
unfolding encode_point
encode_point-IsByte c h = ground arith

pub encode-IsByte : (t : Text) → All IsUnit16 t → All IsByte (encode t)
unfolding encode
encode-IsByte [] u = tt
encode-IsByte (unit ∷ []) (u, _) = encode_point-IsByte (lone_point unit) (ground arith)
encode-IsByte (unit ∷ next ∷ rest) (u, (v, us)) =
    elim (Bool-cases (is_high_surrogate unit && is_low_surrogate next)) [
      | inl pair ↦ rw pair (
          All-append IsByte _ _ (encode_point-IsByte (pair_point unit next) (ground arith))
            (encode-IsByte rest us))
      | inr single ↦ rw single (
          All-append IsByte _ _ (encode_point-IsByte (lone_point unit) (ground arith))
            (encode-IsByte (next ∷ rest) (v, us)))
    ]

-- A byte order mark is a unit of its own.
pub encode-marked : (t : Text) → encode (0xfeff ∷ t) ≡ encode_point 0xfeff ++ encode t
unfolding encode
encode-marked [] = sym (append-nil _)
encode-marked (next ∷ rest) = refl
