-- ===== src/Client/Response/Frame.antt =====
-- framrpc-core.mjs: `decodeResponseFrame` and `framRpcDeclaredFrameBytes`.
use fram.Prelude.{
  ℕ, ◌+◌, Bool, ◌&&◌, Option, none, some, List, ltb, leb, ◌==◌, if◌then◌else◌, same_elems, length,
  take, drop, ℤ, leb_ℤ, ok, require, ◌>>=◌, ◌>>◌,
}
use fram.Client.Codes.{
  Res, truncated, frame_too_large, invalid_magic, unsupported_version, invalid_kind, invalid_flags,
  identity_mismatch, trailing_bytes,
}
use fram.Client.Reader.{le_value, from_u64, done}
use fram.Client.Request.{magic, header_bytes, max_body_bytes, max_frame_bytes}
use fram.Client.Response.{Response, Expected, response_body}

-- `===` of two BigInts.
abbrev pub same_integer : ℤ → ℤ → Bool
same_integer a b = leb_ℤ a b && leb_ℤ b a

-- A little-endian number of the header.
abbrev pub header_field : List ℕ → ℕ → ℕ → ℕ
header_field frame offset size = le_value (take size (drop offset frame))

-- The checks on the header, in the order of the source.
unfoldable pub check_response_header : List ℕ → ℤ → Res (Unit {0})
check_response_header frame request_id = do
  require (leb header_bytes (length frame)) truncated
  require (leb (length frame) max_frame_bytes) frame_too_large
  require (same_elems (take 8 frame) magic) invalid_magic
  require ((header_field frame 8 2 == 2) && (header_field frame 10 2 == 0)) unsupported_version
  require (header_field frame 12 1 == 2) invalid_kind
  require (header_field frame 13 1 == 0) invalid_flags
  require (leb (header_field frame 14 4) max_body_bytes) frame_too_large
  require (length frame == header_bytes + header_field frame 14 4) truncated
  require (same_integer (from_u64 (header_field frame 18 8)) request_id) identity_mismatch

unfoldable pub decode_response_frame : List ℕ → Expected → Res Response
decode_response_frame frame expected = do
  check_response_header frame expected.request_id
  (response, reader) ← response_body (record { bytes = drop header_bytes frame; nodes = 0 })
  require (done reader) trailing_bytes
  require
      (same_elems response.space expected.space && same_elems response.operation expected.operation)
      identity_mismatch
  ok response

-- The bytes that a frame will have, once its header is there.
unfoldable pub framrpc_declared_frame_bytes : List ℕ → Res (Option ℕ)
framrpc_declared_frame_bytes bytes = if ltb (length bytes) header_bytes then ok none else (do
  require (same_elems (take 8 bytes) magic) invalid_magic
  require (leb (header_field bytes 14 4) max_body_bytes) frame_too_large
  ok (some (header_bytes + header_field bytes 14 4)))
