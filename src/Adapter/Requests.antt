-- ===== src/Adapter/Requests.antt =====
-- adapter.mjs: the request envelope that the Durable Object authorizes, `inspectFramRpcRequest`, and
-- the pairing of operations with entries.
use fram.Prelude.{
  ℕ, ◌+◌, ◌*◌, Bool, true, false, not, ◌&&◌, ◌||◌, Option, none, some, List, [], ◌∷◌, leb, ◌==◌,
  if◌then◌else◌, length, take, drop, has, same_elems, ℤ, Result, ok, err, require, ◌>>=◌, ◌>>◌,
}
use fram.Text.{Text, codes}
use fram.Text.Utf8.{encode, decode}
use fram.Text.Numeral.{is_empty}
use fram.Client.Reader.{le_value, from_u64}
use fram.Client.Request.{Entry, query, transact, snapshot, operator}

-- The codes of `FramRequestError`.
pub data RequestCode : Type 0 where
  truncated frame_too_large invalid_magic unsupported_version invalid_kind : RequestCode
  invalid_flags string_limit invalid_utf8 invalid_record invalid_space : RequestCode
  unsupported_operation operator_capability space_mismatch entry_mismatch : RequestCode
  invalid_options invalid_entry object_identity_mismatch : RequestCode

abbrev pub Inspected {ℓ} : Type ℓ → Type ℓ
Inspected A = Result RequestCode A

abbrev pub framrpc_magic : List ℕ
framrpc_magic = 0x46 ∷ 0x52 ∷ 0x41 ∷ 0x4d ∷ 0x52 ∷ 0x50 ∷ 0x43 ∷ 0x00 ∷ []

abbrev pub framrpc_header_bytes : ℕ
framrpc_header_bytes = 26

abbrev pub framrpc_max_body_bytes : ℕ
framrpc_max_body_bytes = 1024 * 1024

abbrev pub framrpc_max_frame_bytes : ℕ
framrpc_max_frame_bytes = framrpc_header_bytes + framrpc_max_body_bytes

abbrev pub framrpc_max_space_bytes : ℕ
framrpc_max_space_bytes = 4096

abbrev pub framrpc_operations : List Text
framrpc_operations =
    codes "rpc/version"
    ∷ codes "rpc/status"
    ∷ codes "rpc/validate"
    ∷ codes "rpc/assert"
    ∷ codes "rpc/retract"
    ∷ codes "rpc/batch"
    ∷ codes "rpc/scan"
    ∷ codes "rpc/query"
    ∷ codes "rpc/occurrences"
    ∷ codes "rpc/lease-acquire"
    ∷ codes "rpc/lease-renew"
    ∷ codes "rpc/lease-release"
    ∷ codes "rpc/lease-check"
    ∷ codes "rpc/checkpoint"
    ∷ []

abbrev pub framrpc_mutations : List Text
framrpc_mutations =
    codes "rpc/assert"
    ∷ codes "rpc/retract"
    ∷ codes "rpc/batch"
    ∷ codes "rpc/lease-acquire"
    ∷ codes "rpc/lease-renew"
    ∷ codes "rpc/lease-release"
    ∷ []

-- `RequestReader`, as the bytes from its offset on: `ensure`, and the bytes that are taken.
unfoldable pub take_bytes : ℕ → List ℕ → Inspected (List ℕ × List ℕ)
take_bytes count bytes =
    if leb count (length bytes) then ok (take count bytes, drop count bytes) else err truncated

unfoldable pub take_number : ℕ → List ℕ → Inspected (ℕ × List ℕ)
take_number count bytes = do (taken, rest) ← take_bytes count bytes; ok (le_value taken, rest)

abbrev decoded : Option Text → Inspected Text
decoded none = err invalid_utf8
decoded (some t) = ok t

unfoldable pub take_text : ℕ → List ℕ → Inspected (Text × List ℕ)
take_text maximum bytes = do
  (size, rest) ← take_number 4 bytes
  require (leb size maximum) string_limit
  (taken, rest') ← take_bytes size rest
  t ← decoded (decode taken)
  ok (t, rest')

unfoldable pub take_string_term : List ℕ → Inspected (Text × List ℕ)
take_string_term bytes = do
  (tag, rest) ← take_number 1 bytes
  require (tag == 1) invalid_record
  take_text framrpc_max_space_bytes rest

unfoldable pub take_keyword_term : List ℕ → Inspected (Text × List ℕ)
take_keyword_term bytes = do
  (tag, rest) ← take_number 1 bytes
  require (tag == 6) invalid_record
  (value, rest') ← take_text framrpc_max_body_bytes rest
  require (not (is_empty value)) invalid_record
  ok (value, rest')

pub record Request : Type 0 where
  pub space : Text
  pub operation : Text
  pub request_id : ℤ
  pub frame_bytes : ℕ
  pub body_bytes : ℕ

-- `view.getUint…(offset, true)` of `size` bytes.
abbrev pub field : List ℕ → ℕ → ℕ → ℕ
field frame offset size = le_value (take size (drop offset frame))

-- The checks on the header, in the order of the source.
unfoldable pub check_header : List ℕ → Inspected (Unit {0})
check_header frame = do
  require (leb framrpc_header_bytes (length frame)) truncated
  require (leb (length frame) framrpc_max_frame_bytes) frame_too_large
  require (same_elems (take 8 frame) framrpc_magic) invalid_magic
  require ((field frame 8 2 == 2) && (field frame 10 2 == 0)) unsupported_version
  require (field frame 12 1 == 1) invalid_kind
  require (field frame 13 1 == 0) invalid_flags
  require (leb (field frame 14 4) framrpc_max_body_bytes) frame_too_large
  require (length frame == framrpc_header_bytes + field frame 14 4) truncated

unfoldable pub inspect : List ℕ → Inspected Request
inspect frame = do
  check_header frame
  (space, rest) ← take_string_term (drop framrpc_header_bytes frame)
  (operation, _) ← take_keyword_term rest
  require (not (is_empty space) && leb (length (encode space)) framrpc_max_space_bytes)
      invalid_space
  require (has framrpc_operations operation) unsupported_operation
  ok (record {
    space = space;
    operation = operation;
    request_id = from_u64 (field frame 18 8);
    frame_bytes = length frame;
    body_bytes = field frame 14 4;
  })

unfoldable pub framrpc_entry : Text → Entry
framrpc_entry operation =
    if same_elems operation (codes "rpc/checkpoint")
    then operator
    else if has framrpc_mutations operation
    then transact
    else if same_elems operation (codes "rpc/occurrences")
    then snapshot
    else query

unfoldable pub same_entry : Entry → Entry → Bool
same_entry query query = true
same_entry transact transact = true
same_entry snapshot snapshot = true
same_entry operator operator = true
same_entry _ _ = false

unfoldable pub entry_accepts : Text → Entry → Bool
entry_accepts operation entry =
    if same_elems operation (codes "rpc/query")
    then same_entry entry query || same_entry entry snapshot
    else same_entry (framrpc_entry operation) entry

-- What `exchange` checks of a frame before it enters the guest: `owner` is the object's SpaceId,
-- `space` and `entry` are the options of the call.
unfoldable pub authorize : Text → List ℕ → Entry → Text → Inspected Request
authorize owner frame entry space = do
  require (not (same_entry entry operator)) invalid_entry
  require (not (is_empty space)) invalid_space
  request ← inspect frame
  require (not (same_elems request.operation (codes "rpc/checkpoint"))) operator_capability
  require (same_elems space owner && same_elems request.space owner) space_mismatch
  require (entry_accepts request.operation entry) entry_mismatch
  ok request
