-- ===== src/Adapter/Status.antt =====
-- adapter.mjs: the header of a FRAMLOG, and the status request that a backup puts to the engine,
-- with its answer.
pub mod Request
pub mod Header
use fram.Prelude.{
  ℕ, ◌+◌, ◌-◌, Bool, true, false, not, ◌&&◌, ◌||◌, Option, none, some, List, [], ◌∷◌, ◌++◌, ltb,
  leb, ◌==◌, if◌then◌else◌, same_elems, length, take, drop, ℤ, pos, negsuc, leb_ℤ, Result, ok, err,
  require, ◌>>=◌, ◌>>◌,
}
use fram.Text.{Text, codes}
use fram.Text.Utf8.{encode, decode}
use fram.Text.Numeral.{is_empty, to_decimal}
use fram.Client.Reader.{le_value, from_u64}
use fram.Client.Bytes.{u8, u16, u32, i64}
use fram.Adapter.Requests.{framrpc_magic, framrpc_header_bytes}

-- The codes of `FramBackupError` that these functions throw.
pub data BackupCode : Type 0 where
  invalid_framlog engine : BackupCode

abbrev pub framlog_magic : List ℕ
framlog_magic = 0x46 ∷ 0x52 ∷ 0x41 ∷ 0x4d ∷ 0x4c ∷ 0x4f ∷ 0x47 ∷ 0x00 ∷ []

abbrev pub framlog_fixed_header_bytes : ℕ
framlog_fixed_header_bytes = 16

abbrev pub framlog_max_space_bytes : ℕ
framlog_max_space_bytes = 4096

-- A little-endian number of the view.
abbrev pub view_field : List ℕ → ℕ → ℕ → ℕ
view_field bytes offset size = le_value (take size (drop offset bytes))

abbrev pub decoded_or : BackupCode → Option Text → Result BackupCode Text
decoded_or code none = err code
decoded_or code (some t) = ok t

unfoldable pub parse_framlog_header : List ℕ → Result BackupCode Text
parse_framlog_header bytes = do
  require (leb framlog_fixed_header_bytes (length bytes)) invalid_framlog
  require (same_elems (take 8 bytes) framlog_magic) invalid_framlog
  require ((view_field bytes 8 2 == 1) && (view_field bytes 10 2 == 0)) invalid_framlog
  let space_bytes = view_field bytes 12 4
  require (not (space_bytes == 0) && leb space_bytes framlog_max_space_bytes) invalid_framlog
  require (leb (framlog_fixed_header_bytes + space_bytes) (length bytes)) invalid_framlog
  space_id ←
      decoded_or invalid_framlog (decode (take space_bytes (drop framlog_fixed_header_bytes bytes)))
  require (not (is_empty space_id)) invalid_framlog
  ok space_id

-- `textBytes`: a text that decoding its encoding gives back.
unfoldable pub text_bytes : Text → Result BackupCode (List ℕ)
text_bytes value = do
  require (not (is_empty value)) engine
  again ← decoded_or engine (decode (encode value))
  require (same_elems again value) engine
  ok (encode value)

-- `term(tag, bytes)`
unfoldable pub status_term : ℕ → List ℕ → List ℕ
status_term tag bytes = u8 tag ++ (u32 (length bytes) ++ bytes)

unfoldable pub status_frame : Text → Result BackupCode (List ℕ)
status_frame space_id = do
  space ← text_bytes space_id
  operation ← text_bytes (codes "rpc/status")
  unit ← text_bytes (codes "rpc/unit")
  let body_length = 1 + 4 + length space + 1 + 4 + length operation + 3 + 1 + 4 + length unit
  ok (
      framrpc_magic
      ++ (u16 2
          ++ (u16 0
              ++ (u8 1
                  ++ (u8 0
                      ++ (u32 body_length
                          ++ (i64 (pos 0)
                              ++ (status_term 1 space
                                  ++ (status_term 6 operation
                                      ++ (u8 0 ++ (u8 0 ++ (u8 0 ++ status_term 6 unit))))))))))))

-- `textTerm`, at the bytes from its offset on: the text, with the bytes that follow it.
unfoldable pub text_term : ℕ → List ℕ → Result BackupCode (Text × List ℕ)
text_term tag bytes = do
  require (leb 5 (length bytes) && (view_field bytes 0 1 == tag)) engine
  let size = view_field bytes 1 4
  let rest = drop 5 bytes
  require (leb size (length rest)) engine
  value ← decoded_or engine (decode (take size rest))
  ok (value, drop size rest)

-- `servedVersion.toString()` of a status response.
unfoldable pub decode_status_served_version : List ℕ → Text → Result BackupCode Text
decode_status_served_version frame expected_space_id = do
  require (leb framrpc_header_bytes (length frame)) engine
  require (same_elems (take 8 frame) framrpc_magic) engine
  require
      ((view_field frame 8 2 == 2)
        && (view_field frame 10 2 == 0)
        && (view_field frame 12 1 == 2)
        && (view_field frame 13 1 == 0)
        && (view_field frame 18 8 == 0))
      engine
  require (length frame == framrpc_header_bytes + view_field frame 14 4) engine
  (space_id, rest) ← text_term 1 (drop framrpc_header_bytes frame)
  (operation, controls) ← text_term 6 rest
  require (same_elems space_id expected_space_id && same_elems operation (codes "rpc/status"))
      engine
  require (leb 11 (length controls)) engine
  let served_version = from_u64 (view_field controls 0 8)
  require
      (leb_ℤ (pos 0) served_version
        && (view_field controls 8 1 == 0)
        && (view_field controls 9 1 == 0)
        && (view_field controls 10 1 == 1)
        && not (length controls == 11))
      engine
  ok (to_decimal served_version)
