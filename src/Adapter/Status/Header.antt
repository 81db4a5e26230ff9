-- ===== src/Adapter/Status/Header.antt =====
-- adapter.mjs: `parseFramlogHeader` on the header that a FRAMLOG begins with.
use fram.Prelude.{
  ℕ, ◌+◌, ◌^◌, ◌<◌, ◌≤◌, ◌≡◌, refl, ap, ◌∙◌, true, false, not, ◌&&◌, some, List, [], ◌∷◌, ◌++◌, leb,
  le→leb, ◌==◌, length, length-append, take, drop, take-length_append, same_elems, same_elems_self,
  ok, require-ok, >>=-ok, arith,
}
use fram.Text.{Text}
use fram.Text.Utf8.{encode, decode}
use fram.Text.Numeral.{is_empty}
use fram.Text.RoundTrip.{IsWellFormed, has_mark, decode-encode_unmarked}
use fram.Client.Reader.{le_value}
use fram.Client.Bytes.{le_bytes, u16, u32}
use fram.Client.WireNumbers.{le_value-le_bytes}
use fram.Adapter.Status.{
  invalid_framlog, framlog_magic, framlog_max_space_bytes, view_field, decoded_or,
  parse_framlog_header,
}

-- A FRAMLOG of version 1 with no flags, for a space, with anything behind its header.
abbrev pub framlog_of : Text → List ℕ → List ℕ
framlog_of space rest =
    framlog_magic ++ (u16 1 ++ (u16 0 ++ (u32 (length (encode space)) ++ (encode space ++ rest))))

module _ (space : Text) (rest : List ℕ) where
  size_field :
      length (encode space) < 256 ^ 4
      → view_field (framlog_of space rest) 12 4 ≡ length (encode space)
  unfolding u16 u32 le_bytes take drop
  size_field h = le_value-le_bytes 4 (length (encode space)) h

  behind_header : drop 16 (framlog_of space rest) ≡ encode space ++ rest
  unfolding u16 u32 le_bytes drop
  behind_header = refl

  long_enough : length (framlog_of space rest) ≡ 16 + length (encode space) + length rest
  unfolding u16 u32 le_bytes
  long_enough = omega (arith, length-append (encode space) rest)

  version_fields :
      ((view_field (framlog_of space rest) 8 2 == 1)
        && (view_field (framlog_of space rest) 10 2 == 0))
      ≡ true
  unfolding u16 u32 le_bytes take drop le_value
  version_fields = refl

  magic_first : take 8 (framlog_of space rest) ≡ framlog_magic
  unfolding take
  magic_first = refl

filled_bytes :
    (space : Text) (bytes : List ℕ)
    → decode bytes ≡ some space
    → is_empty space ≡ false
    → 0 < length bytes
unfolding decode
filled_bytes [] bytes e h = cc
filled_bytes (unit ∷ space) [] e h = cc
filled_bytes (unit ∷ space) (b ∷ bytes) e h = omega arith

-- The header of a FRAMLOG of version 1 with no flags gives the name of its space back, whatever
-- follows the header, where the name is nonempty, has 16-bit units and paired surrogates, starts
-- with no byte order mark and has at most FRAMLOG_MAX_SPACE_BYTES bytes in UTF-8.
pub parse_framlog_header-framlog_of :
    (space : Text) (rest : List ℕ)
    → IsWellFormed space
    → has_mark space ≡ false
    → is_empty space ≡ false
    → length (encode space) ≤ framlog_max_space_bytes
    → parse_framlog_header (framlog_of space rest) ≡ ok space
unfolding parse_framlog_header
parse_framlog_header-framlog_of space rest w unmarked filled fits =
    let n = length (encode space) in
    let bytes = framlog_of space rest in
    let some_bytes =
      filled_bytes space (encode space) (decode-encode_unmarked space w unmarked) filled in
    let size : view_field bytes 12 4 ≡ n = size_field space rest (omega (arith, fits)) in
    let text : take (view_field bytes 12 4) (drop 16 bytes) ≡ encode space =
      rw (size, behind_header space rest) (take-length_append (encode space) rest) in
    require-ok (leb 16 (length bytes)) invalid_framlog _
      (le→leb _ _ (omega (arith, long_enough space rest)))
    ∙ require-ok (same_elems (take 8 bytes) framlog_magic) invalid_framlog _
        (rw (magic_first space rest) (same_elems_self framlog_magic))
    ∙ require-ok ((view_field bytes 8 2 == 1) && (view_field bytes 10 2 == 0)) invalid_framlog _
        (version_fields space rest)
    ∙ require-ok
        (not (view_field bytes 12 4 == 0) && leb (view_field bytes 12 4) framlog_max_space_bytes)
        invalid_framlog _ (rw size (ground arith))
    ∙ require-ok (leb (16 + view_field bytes 12 4) (length bytes)) invalid_framlog _
        (rw size (le→leb _ _ (omega (arith, long_enough space rest))))
    ∙ >>=-ok (decoded_or invalid_framlog (decode (take (view_field bytes 12 4) (drop 16 bytes)))) _
        (ap (λ (b : List ℕ). decoded_or invalid_framlog (decode b)) text
          ∙ ap (decoded_or invalid_framlog) (decode-encode_unmarked space w unmarked))
    ∙ require-ok (not (is_empty space)) invalid_framlog _ (rw filled refl)
