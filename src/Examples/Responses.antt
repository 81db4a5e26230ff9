-- ===== src/Examples/Responses.antt =====
-- Tests of responses and of RPC records, and the theorems on them.
use fram.Prelude.{
  ℕ, ◌≡◌, refl, true, none, some, List, [], ◌∷◌, ◌++◌, take, drop, length, same_elems, arith, pos,
  ok,
}
use fram.Text.{codes, has_paired_surrogates}
use fram.Text.Utf8.{encode_point, encode, decode}
use fram.Client.Term.{
  string, keyword, boolean, Term, triple, strict_utf8, keyword_term, enter, validate_term,
}
use fram.Client.Reader.{
  read_bytes, le_value, from_u64, read_u8, read_u32, read_u64, read_i64, read_presence, read_bool,
  read_text, read_keyword, read_atom, count_node, read_nested, read_term, done,
}
use fram.Client.Value.{Value, str, bool, term, string_term, triple_term}
use fram.Client.Records.{keyword_name, string_value, rpc_record, rpc_list, raw_record_fields}
use fram.Client.Records.RoundTrip.{terms, raw_record_fields-rpc_record}
use fram.Client.Response.{Response, Expected, response_page, response_error, response_body}
use fram.Client.Response.Frame.{
  check_response_header, decode_response_frame, framrpc_declared_frame_bytes,
}
use fram.Client.Response.Identity.{
  Answers, decode_response_frame-Answers, declared_frame_bytes-take,
}
use fram.Client.Transport.{resolved, incoming, concat_chunks, on_events}
use fram.Client.Transport.Delivered.{chunk_events, on_events-resolved}

-- A response to request 7 of the space "s", whose payload is the keyword "a".
abbrev body : List ℕ
body =
    1 ∷ 1 ∷ 0 ∷ 0 ∷ 0 ∷ 115 ∷ (6 ∷ 11 ∷ 0 ∷ 0 ∷ 0 ∷ codes "rpc/version")
    ++ (3 ∷ 0 ∷ 0 ∷ 0 ∷ 0 ∷ 0 ∷ 0 ∷ 0 ∷ 0 ∷ 0 ∷ 1 ∷ 6 ∷ 1 ∷ 0 ∷ 0 ∷ 0 ∷ 97 ∷ [])

abbrev frame : List ℕ
frame =
    70 ∷ 82 ∷ 65 ∷ 77 ∷ 82 ∷ 80 ∷ 67 ∷ 0 ∷ 2 ∷ 0 ∷ 0 ∷ 0 ∷ 2 ∷ 0 ∷ 39 ∷ 0 ∷ 0 ∷ 0 ∷ 7 ∷ 0 ∷ 0 ∷ 0
    ∷ 0 ∷ 0 ∷ 0 ∷ 0 ∷ body

abbrev expected : Expected
expected = record { request_id = pos 7; space = codes "s"; operation = codes "rpc/version" }

abbrev response : Response
response = record {
  space = codes "s";
  operation = codes "rpc/version";
  served_version = pos 3;
  page = none;
  error = none;
  payload = some (keyword (codes "a"));
}

decode_frame : decode_response_frame frame expected ≡ ok response
unfolding decode_response_frame check_response_header response_body response_page response_error
    read_term read_nested count_node read_u8 read_bytes le_value read_atom read_text read_keyword
    read_u32 read_u64 read_i64 read_presence read_bool from_u64 done keyword_name string_value take
    drop same_elems decode
decode_frame = refl

decode_response_frame-Answers_example : Answers frame expected response
decode_response_frame-Answers_example =
    decode_response_frame-Answers frame expected response decode_frame

declared_frame_bytes-take_example :
    framrpc_declared_frame_bytes (take 30 frame) ≡ ok (some (length frame))
declared_frame_bytes-take_example =
    declared_frame_bytes-take frame expected response 30 decode_frame (omega arith)

on_events-resolved_example :
    (on_events (chunk_events (take 10 frame ∷ [] ∷ drop 10 frame ∷ [])) incoming).settled
    ≡ some (resolved frame)
unfolding concat_chunks take drop
on_events-resolved_example =
    on_events-resolved frame expected response (take 10 frame ∷ [] ∷ drop 10 frame ∷ [])
      decode_frame refl

abbrev pair_values : List Value
pair_values = str (codes "x") ∷ bool true ∷ []

abbrev pair_record : Term
pair_record =
    triple (keyword (codes "query/pair"))
      (triple (keyword (codes "rpc/list")) (string (codes "x"))
        (triple (keyword (codes "rpc/list")) (boolean true) (keyword (codes "rpc/list-end"))))
      (keyword (codes "rpc/record"))

record_of_pair : rpc_record (codes "query/pair") pair_values ≡ ok pair_record
unfolding rpc_record rpc_list keyword_term strict_utf8 has_paired_surrogates encode encode_point
    triple_term term string_term validate_term enter
record_of_pair = refl

raw_record_fields-rpc_record_example :
    (ts : List Term) × (terms pair_values ≡ ok ts)
    × (raw_record_fields pair_record (codes "query/pair") 2 ≡ ok ts)
raw_record_fields-rpc_record_example =
    raw_record_fields-rpc_record (codes "query/pair") pair_values pair_record (omega arith)
      record_of_pair
