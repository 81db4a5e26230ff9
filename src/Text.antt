-- ===== src/Text.antt =====
-- A JavaScript string is its list of UTF-16 code units.
pub mod Utf8
pub mod RoundTrip
pub mod Numeral
use fram.Prelude.{ℕ, ◌≤◌, Bool, true, false, ◌&&◌, List, [], ◌∷◌, leb, if◌then◌else◌}
use Prim.Native.Char.{code}
use Prim.Native.String
use Prim.Native.String.{String}

abbrev pub Text : Type 0
Text = List ℕ

-- The code units of an ASCII literal of the source.
abbrev pub codes : String → Text
codes String.[] = []
codes (String.◌∷◌ c s) = code c ∷ codes s

abbrev pub is_high_surrogate : ℕ → Bool
is_high_surrogate unit = leb 0xd800 unit && leb unit 0xdbff

abbrev pub is_low_surrogate : ℕ → Bool
is_low_surrogate unit = leb 0xdc00 unit && leb unit 0xdfff

-- The loop of `strictUtf8`: every surrogate stands in a pair, a high one before a low one. Past the
-- end `charCodeAt` is NaN, which is in no range.
unfoldable pub has_paired_surrogates : Text → Bool
has_paired_surrogates [] = true
has_paired_surrogates (unit ∷ []) =
    if is_high_surrogate unit then false else if is_low_surrogate unit then false else true
has_paired_surrogates (unit ∷ next ∷ rest) =
    let pair = if is_low_surrogate next then has_paired_surrogates rest else false in
    let single = has_paired_surrogates (next ∷ rest) in
    if is_high_surrogate unit then pair else if is_low_surrogate unit then false else single
