-- ===== src/Client/Request.antt =====
-- framrpc-core.mjs: a request's controls and its frame, `encodeRequest`; the entry that carries it.
use fram.Prelude.{
  ℕ, ◌+◌, ◌*◌, Bool, true, false, not, ◌&&◌, ◌||◌, Option, none, some, List, [], ◌∷◌, ◌++◌, leb,
  if◌then◌else◌, length, has, same_elems, ℤ, pos, pos_part, ok, err, require, ◌>>=◌, ◌>>◌,
}
use fram.Text.{Text, codes}
use fram.Text.Numeral.{is_empty}
use fram.Client.Codes.{
  Res, invalid_page, unexpected_page, unexpected_timeout, invalid_space, unsupported_operation,
  frame_too_large,
}
use fram.Client.Term.{
  Scalar, Term, Budget, new_budget, integer_bigint, i64_max, u32_max, strict_utf8, keyword_term,
}
use fram.Client.Bytes.{u8, u16, u32, i64, write_term}
use fram.Client.Value.{Value, term, string_term}

abbrev pub magic : List ℕ
magic = 0x46 ∷ 0x52 ∷ 0x41 ∷ 0x4d ∷ 0x52 ∷ 0x50 ∷ 0x43 ∷ 0x00 ∷ []

abbrev pub header_bytes : ℕ
header_bytes = 26

abbrev pub max_body_bytes : ℕ
max_body_bytes = 1024 * 1024

abbrev pub max_frame_bytes : ℕ
max_frame_bytes = header_bytes + max_body_bytes

abbrev pub max_space_bytes : ℕ
max_space_bytes = 4096

abbrev pub max_page_limit : ℤ
max_page_limit = pos 4096

abbrev pub operations : List Text
operations =
    codes "rpc/version"
    ∷ codes "rpc/status"
    ∷ codes "rpc/validate"
    ∷ codes "rpc/assert"
    ∷ codes "rpc/retract"
    ∷ codes "rpc/batch"
    ∷ codes "rpc/scan"
    ∷ codes "rpc/query"
    ∷ codes "rpc/occurrences"
    ∷ codes "rpc/lease-acquire"
    ∷ codes "rpc/lease-renew"
    ∷ codes "rpc/lease-release"
    ∷ codes "rpc/lease-check"
    ∷ []

abbrev pub native_operator_operations : List Text
native_operator_operations = codes "rpc/checkpoint" ∷ []

abbrev pub paged_operations : List Text
paged_operations = codes "rpc/scan" ∷ codes "rpc/query" ∷ codes "rpc/occurrences" ∷ []

abbrev pub mutation_operations : List Text
mutation_operations =
    codes "rpc/assert"
    ∷ codes "rpc/retract"
    ∷ codes "rpc/batch"
    ∷ codes "rpc/lease-acquire"
    ∷ codes "rpc/lease-renew"
    ∷ codes "rpc/lease-release"
    ∷ []

-- `options.page`: its own `limit` and `cursor`, and whether it has any other key.
pub record PageInput : Type 0 where
  pub limit : Option Scalar
  pub cursor : Option Value
  pub has_other_keys : Bool

pub record Page : Type 0 where
  pub limit : ℕ
  pub cursor : Option Term

-- The own properties of a call's options that `requestControls` and `operationEntry` read.
pub record Options : Type 0 where
  pub expected_version : Option Scalar
  pub page : Option PageInput
  pub timeout_ms : Option Scalar
  pub has_as_of : Bool
  pub has_since : Bool

pub record Controls : Type 0 where
  pub expected_version : Option ℤ
  pub page : Option Page
  pub timeout_ms : Option ℕ

-- A conversion of a property that may be absent.
abbrev pub optional {ℓ κ} : {A : Type ℓ} {B : Type κ} → (A → Res B) → Option A → Res (Option B)
optional f none = ok none
optional f (some a) = do b ← f a; ok (some b)

unfoldable pub page_limit : Option Scalar → Res Scalar
page_limit none = err invalid_page
page_limit (some limit) = ok limit

unfoldable pub page_request : PageInput → Res Page
page_request page = do
  limit ← page_limit page.limit
  require (not page.has_other_keys) invalid_page
  n ← integer_bigint (pos 1) max_page_limit limit
  cursor ← optional term page.cursor
  ok (record { limit = pos_part n; cursor = cursor })

abbrev is_absent {ℓ} : {A : Type ℓ} → Option A → Bool
is_absent none = true
is_absent (some a) = false

unfoldable pub request_controls : Text → Options → Res Controls
request_controls operation options = do
  expected_version ← optional (integer_bigint (pos 0) i64_max) options.expected_version
  page ← optional page_request options.page
  timeout ← optional (integer_bigint (pos 0) u32_max) options.timeout_ms
  require (is_absent page || has paged_operations operation) unexpected_page
  require (is_absent timeout || same_elems operation (codes "rpc/query")) unexpected_timeout
  ok (record {
    expected_version = expected_version;
    page = page;
    timeout_ms = elim timeout [ none ↦ none | some n ↦ some (pos_part n) ];
  })

unfoldable pub write_version : Option ℤ → List ℕ
write_version none = u8 0
write_version (some version) = u8 1 ++ i64 version

unfoldable pub write_timeout : Option ℕ → List ℕ
write_timeout none = u8 0
write_timeout (some timeout) = u8 1 ++ u32 timeout

unfoldable pub write_cursor : Option Term → Budget → Res (List ℕ × Budget)
write_cursor none budget = ok (u8 0, budget)
write_cursor (some cursor) budget = do
  (bytes, budget') ← write_term cursor budget
  ok (u8 1 ++ bytes, budget')

unfoldable pub write_page : Option Page → Budget → Res (List ℕ × Budget)
write_page none budget = ok (u8 0, budget)
write_page (some page) budget = do
  (bytes, budget') ← write_cursor page.cursor budget
  ok (u8 1 ++ (u32 page.limit ++ bytes), budget')

-- The SpaceId and the operation, which every request names first.
unfoldable pub write_identity : Text → Text → Budget → Res (List ℕ × Budget)
write_identity space operation budget = do
  space_term ← string_term space
  (space_bytes, b1) ← write_term space_term budget
  operation_term ← keyword_term operation
  (operation_bytes, b2) ← write_term operation_term b1
  ok (space_bytes ++ operation_bytes, b2)

unfoldable pub write_controls : Controls → Budget → Res (List ℕ × Budget)
write_controls controls budget = do
  (page_bytes, budget') ← write_page controls.page budget
  ok (
    write_version controls.expected_version ++ (page_bytes ++ write_timeout controls.timeout_ms),
    budget',
  )

unfoldable pub write_payload : Value → Budget → Res (List ℕ × Budget)
write_payload payload budget = do payload_term ← term payload; write_term payload_term budget

-- The body of a request and the Terms that it counts.
unfoldable pub write_body : Text → Text → Controls → Value → Res (List ℕ × Budget)
write_body space operation controls payload = do
  (identity, b1) ← write_identity space operation new_budget
  (control_bytes, b2) ← write_controls controls b1
  (payload_bytes, b3) ← write_payload payload b2
  ok (identity ++ (control_bytes ++ payload_bytes), b3)

unfoldable pub frame_of : ℤ → List ℕ → List ℕ
frame_of request_id body =
    magic
    ++ (u16 2 ++ (u16 0 ++ (u8 1 ++ (u8 0 ++ (u32 (length body) ++ (i64 request_id ++ body))))))

pub record Encoded : Type 0 where
  pub frame : List ℕ
  pub body_bytes : ℕ
  pub term_count : ℕ
  pub max_term_depth : ℕ

unfoldable pub encode_request : ℤ → Text → Text → Value → Options → List Text → Res Encoded
encode_request request_id space operation payload options allowed = do
  require (not (is_empty space)) invalid_space
  _ ← strict_utf8 space max_space_bytes
  require (has allowed operation) unsupported_operation
  controls ← request_controls operation options
  (body, budget) ← write_body space operation controls payload
  require (leb (length body) max_body_bytes) frame_too_large
  ok (record {
    frame = frame_of request_id body;
    body_bytes = length body;
    term_count = budget.nodes;
    max_term_depth = budget.max_depth;
  })

pub data Entry : Type 0 where
  query transact snapshot operator : Entry

-- `operationEntry`: the entry of the transport that carries an operation.
unfoldable pub operation_entry : Text → Options → Entry
operation_entry operation options =
    if same_elems operation (codes "rpc/checkpoint") || has mutation_operations operation
    then transact
    else if same_elems operation (codes "rpc/occurrences")
        || (same_elems operation (codes "rpc/query") && (options.has_as_of || options.has_since))
    then snapshot
    else query
