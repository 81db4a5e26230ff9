-- ===== src/Examples/Requests.antt =====
-- A version request for the space "s", as the client writes it and as the adapter reads it.
use fram.Prelude.{
  ℕ, ◌+◌, ◌≡◌, ◌≢◌, refl, true, false, none, List, [], ◌∷◌, ◌++◌, arith, pos, ok, has, same_elems,
  length,
}
use fram.Text.{Text, codes, has_paired_surrogates}
use fram.Text.Utf8.{encode_point, encode}
use fram.Client.Term.{keyword, enter, strict_utf8, keyword_term, validate_term}
use fram.Client.Bytes.{
  le_bytes, u16, u32, u64, to_u64, i64, write_text, write_term_unchecked, write_term,
}
use fram.Client.Value.{Value, array, term, string_term}
use fram.Client.Request.{
  Options, Encoded, query, operations, request_controls, write_version, write_page, write_timeout,
  write_identity, write_controls, write_payload, write_body, frame_of, encode_request,
  operation_entry,
}
use fram.Adapter.Requests.{Request, inspect, authorize, entry_accepts}
use fram.Adapter.Inspect.{summary, inspect-encode_request, inspect-encode_request_marked}
use fram.Adapter.Authorize.{authorize-encode_request, authorize-eq-ok}

abbrev no_options : Options
no_options = record {
  expected_version = none;
  page = none;
  timeout_ms = none;
  has_as_of = false;
  has_since = false;
}

abbrev rpc_unit : Value
rpc_unit = array (keyword (codes "rpc/unit"))

abbrev encode_mark : List ℕ
encode_mark = 0xef ∷ 0xbb ∷ 0xbf ∷ []

-- The frame and the sizes of a version request with id 1.
abbrev pub version_frame : List ℕ → List ℕ
version_frame space =
    codes "FRAMRPC"
    ++ (0
        ∷ 2
        ∷ 0
        ∷ 0
        ∷ 0
        ∷ 1
        ∷ 0
        ∷ (37 + length space)
        ∷ 0
        ∷ 0
        ∷ 0
        ∷ 1
        ∷ 0
        ∷ 0
        ∷ 0
        ∷ 0
        ∷ 0
        ∷ 0
        ∷ 0
        ∷ 1
        ∷ length space
        ∷ 0
        ∷ 0
        ∷ 0
        ∷ [])
    ++ space
    ++ (6 ∷ 11 ∷ 0 ∷ 0 ∷ 0 ∷ [])
    ++ codes "rpc/version"
    ++ (0 ∷ 0 ∷ 0 ∷ 6 ∷ 8 ∷ 0 ∷ 0 ∷ 0 ∷ [])
    ++ codes "rpc/unit"

abbrev version_encoded : List ℕ → Encoded
version_encoded space = record {
  frame = version_frame space;
  body_bytes = 37 + length space;
  term_count = 3;
  max_term_depth = 0;
}

encode_version :
    encode_request (pos 1) (codes "s") (codes "rpc/version") rpc_unit no_options operations
    ≡ ok (version_encoded (codes "s"))
unfolding encode_request request_controls write_body write_identity write_controls write_payload
    write_page write_version write_timeout frame_of string_term term keyword_term strict_utf8
    validate_term enter write_term write_term_unchecked write_text u16 u32 i64 u64 to_u64 le_bytes
    encode encode_point has_paired_surrogates has same_elems
encode_version = refl

encode_version_marked :
    encode_request (pos 1) (0xfeff ∷ codes "s") (codes "rpc/version") rpc_unit no_options operations
    ≡ ok (version_encoded (encode_mark ++ codes "s"))
unfolding encode_request request_controls write_body write_identity write_controls write_payload
    write_page write_version write_timeout frame_of string_term term keyword_term strict_utf8
    validate_term enter write_term write_term_unchecked write_text u16 u32 i64 u64 to_u64 le_bytes
    encode encode_point has_paired_surrogates has same_elems
encode_version_marked = refl

inspect-encode_request_example :
    inspect (version_frame (codes "s"))
    ≡ ok (summary (pos 1) (codes "s") (codes "rpc/version") (version_encoded (codes "s")))
inspect-encode_request_example =
    inspect-encode_request (pos 1) (codes "s") (codes "rpc/version") rpc_unit no_options
      (version_encoded (codes "s")) (omega arith) (omega arith) (omega arith, refl) encode_version

inspect-encode_request_marked_example :
    inspect (version_frame (encode_mark ++ codes "s"))
    ≡ ok (
        summary
          (pos 1)
          (codes "s")
          (codes "rpc/version")
          (version_encoded (encode_mark ++ codes "s")))
inspect-encode_request_marked_example =
    inspect-encode_request_marked (pos 1) (codes "s") (codes "rpc/version") rpc_unit no_options
      (version_encoded (encode_mark ++ codes "s")) (omega arith) (omega arith) (omega arith) refl
      encode_version_marked

authorize-encode_request_example :
    authorize
      (codes "s")
      (version_frame (codes "s"))
      (operation_entry (codes "rpc/version") no_options)
      (codes "s")
    ≡ ok (summary (pos 1) (codes "s") (codes "rpc/version") (version_encoded (codes "s")))
authorize-encode_request_example =
    authorize-encode_request (pos 1) (codes "s") (codes "rpc/version") rpc_unit no_options
      (version_encoded (codes "s")) (omega arith) (omega arith) (omega arith, refl) encode_version

abbrev pub version_request : Request
version_request = summary (pos 1) (codes "s") (codes "rpc/version") (version_encoded (codes "s"))

pub authorize_version :
    authorize (codes "s") (version_frame (codes "s")) query (codes "s") ≡ ok version_request
unfolding operation_entry has same_elems
authorize_version = authorize-encode_request_example

authorize-eq-ok_example :
    (inspect (version_frame (codes "s")) ≡ ok version_request)
    × (version_request.space ≡ codes "s")
    × (◌≡◌ {A = Text} (codes "s") (codes "s"))
    × (version_request.operation ≢ codes "rpc/checkpoint")
    × (entry_accepts version_request.operation query ≡ true)
authorize-eq-ok_example =
    authorize-eq-ok (codes "s") (version_frame (codes "s")) query (codes "s") version_request
      authorize_version
