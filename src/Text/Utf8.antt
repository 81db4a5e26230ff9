-- ===== src/Text/Utf8.antt =====
-- `TextEncoder.encode` and a fatal `TextDecoder('utf-8').decode`, as the Encoding standard defines
-- them: the decoder is its state machine, and takes a leading byte order mark away.
use fram.Prelude.{
  ℕ, ◌+◌, ◌-◌, ◌*◌, ◌/◌, ◌%◌, ◌&&◌, ◌||◌, Option, none, some, List, [], ◌∷◌, ◌++◌, leb, ltb, ◌==◌,
  if◌then◌else◌,
}
use fram.Text.{Text, is_high_surrogate, is_low_surrogate}
use mathlib.Core.Option

-- The bytes of one scalar value.
unfoldable pub encode_point : ℕ → List ℕ
encode_point c =
    if ltb c 0x80
    then c ∷ []
    else if ltb c 0x800
    then (0xc0 + c / 64) ∷ (0x80 + c % 64) ∷ []
    else if ltb c 0x1_0000
    then (0xe0 + c / 4096) ∷ (0x80 + c / 64 % 64) ∷ (0x80 + c % 64) ∷ []
    else (0xf0 + c / 262144) ∷ (0x80 + c / 4096 % 64) ∷ (0x80 + c / 64 % 64) ∷ (0x80 + c % 64) ∷ []

-- A surrogate with no partner is written as U+FFFD.
abbrev pub lone_point : ℕ → ℕ
lone_point unit = if is_high_surrogate unit || is_low_surrogate unit then 0xfffd else unit

abbrev pub pair_point : ℕ → ℕ → ℕ
pair_point high low = 0x1_0000 + (high - 0xd800) * 0x400 + (low - 0xdc00)

-- `TextEncoder.encode`.
unfoldable pub encode : Text → List ℕ
encode [] = []
encode (unit ∷ []) = encode_point (lone_point unit)
encode (unit ∷ next ∷ rest) =
    let pair = encode_point (pair_point unit next) ++ encode rest in
    let single = encode_point (lone_point unit) ++ encode (next ∷ rest) in
    if is_high_surrogate unit && is_low_surrogate next then pair else single

-- What the decoder keeps between bytes: the bytes still needed, the bits so far, and the bounds of
-- the next byte.
pub record Pending : Type 0 where
  pub needed : ℕ
  pub point : ℕ
  pub lower : ℕ
  pub upper : ℕ

abbrev pub idle : Pending
idle = record { needed = 0; point = 0; lower = 0x80; upper = 0xbf }

abbrev pub wait : ℕ → ℕ → ℕ → ℕ → Pending
wait needed point lower upper = record {
  needed = needed;
  point = point;
  lower = lower;
  upper = upper;
}

-- The code units of a finished scalar value.
unfoldable pub units : ℕ → Text
units c =
    if ltb c 0x1_0000
    then c ∷ []
    else (0xd800 + (c - 0x1_0000) / 0x400) ∷ (0xdc00 + (c - 0x1_0000) % 0x400) ∷ []

-- The answer to one byte: the units that it finishes and the new state, or an error.
unfoldable pub lead : ℕ → Option (Text × Pending)
lead b =
    if ltb b 0x80
    then some (b ∷ [], idle)
    else if ltb b 0xc2
    then none
    else if ltb b 0xe0
    then some ([], wait 1 (b - 0xc0) 0x80 0xbf)
    else if b == 0xe0
    then some ([], wait 2 0 0xa0 0xbf)
    else if b == 0xed
    then some ([], wait 2 13 0x80 0x9f)
    else if ltb b 0xf0
    then some ([], wait 2 (b - 0xe0) 0x80 0xbf)
    else if b == 0xf0
    then some ([], wait 3 0 0x90 0xbf)
    else if b == 0xf4
    then some ([], wait 3 4 0x80 0x8f)
    else if ltb b 0xf5
    then some ([], wait 3 (b - 0xf0) 0x80 0xbf)
    else none

unfoldable pub trail : ℕ → ℕ → ℕ → Option (Text × Pending)
trail left point b =
    let point' = point * 64 + b % 64 in
    if left == 0 then some (units point', idle) else some ([], wait left point' 0x80 0xbf)

unfoldable pub step : Pending → ℕ → Option (Text × Pending)
unfolding lead trail
step p b =
    if p.needed == 0
    then lead b
    else if leb p.lower b && leb b p.upper
    then trail (p.needed - 1) p.point b
    else none

unfoldable pub decode_from : Pending → List ℕ → Option Text
decode_from p [] = if p.needed == 0 then some [] else none
decode_from p (b ∷ rest) = elim (step p b) [
  | none ↦ none
  | some (out, p') ↦ Option.map (λ t. out ++ t) (decode_from p' rest)
]

-- A decoder with `ignoreBOM` unset drops a byte order mark in front.
unfoldable pub strip_mark : Text → Text
strip_mark [] = []
strip_mark (unit ∷ rest) = if unit == 0xfeff then rest else unit ∷ rest

-- `new TextDecoder('utf-8', { fatal: true }).decode`; `none` is the TypeError.
unfoldable pub decode : List ℕ → Option Text
unfolding decode_from step strip_mark
decode bytes = Option.map strip_mark (decode_from idle bytes)
