-- ===== src/Adapter/Inspect.antt =====
-- The adapter's reading of a frame that the client encoded.
use fram.Prelude.{
  ℕ, ◌+◌, ◌%◌, ◌^◌, ◌≤◌, ◌<◌, ◌≡◌, refl, ap, ◌∙◌, true, false, not, ◌&&◌, List, [], ◌∷◌, ◌++◌, leb,
  ◌==◌, length, take, drop, All, has, same_elems, ℤ, ◌≤ℤ◌, arith, ok, length-append, append_assoc,
  take-length_append, drop-length_append, le→leb, same_elems-eq, >>=-ok, require-ok, Bool-cases,
  inl, inr,
}
use mathlib.Core.Path.{subst}
use fram.Text.{Text}
use fram.Text.Utf8.{encode_point, encode, strip_mark}
use fram.Text.Numeral.{is_empty}
use fram.Text.RoundTrip.{
  IsUnit16, IsWellFormed, has_mark, decode-encode, strip_mark-has_mark, encode-marked,
}
use fram.Client.Term.{i64_min, i64_max}
use fram.Client.Bytes.{le_bytes, u16, u32, u64, to_u64, i64}
use fram.Client.Reader.{le_value}
use fram.Client.WireNumbers.{le_value-le_bytes, length-le_bytes, from_u64-to_u64, to_u64_bounds}
use fram.Client.ReadAtom.{IsPlainText}
use fram.Client.Value.{Value}
use fram.Client.Request.{
  Options, Encoded, operations, native_operator_operations, frame_of, encode_request,
}
use fram.Client.RequestShape.{block, IsEncoded, encode_request-IsEncoded}
use fram.Adapter.Requests.{
  framrpc_magic, framrpc_header_bytes, framrpc_max_space_bytes, framrpc_max_body_bytes,
  string_limit, invalid_record, invalid_space, unsupported_operation, Request, framrpc_operations,
  take_bytes, take_number, take_text, take_string_term, take_keyword_term, field, check_header,
  inspect,
}

-- The fields of a header, each at its offset.
module _ (id : ℤ) (body : List ℕ) (small : length body ≤ 1048576) where
  length-frame_of : length (frame_of id body) ≡ 26 + length body
  unfolding frame_of u16 u32 i64 u64 le_bytes
  length-frame_of = omega arith

  field-length : field (frame_of id body) 14 4 ≡ length body
  unfolding frame_of u16 u32 i64 u64 le_bytes take drop le_value
  field-length = omega arith

  field-id : field (frame_of id body) 18 8 ≡ to_u64 id
  unfolding frame_of u16 u32 i64 u64 le_bytes take drop le_value
  field-id = omega (arith, to_u64_bounds id)

  drop_header : drop 26 (frame_of id body) ≡ body
  unfolding frame_of u16 u32 i64 u64 le_bytes drop
  drop_header = refl

  magic_ok : same_elems (take 8 (frame_of id body)) framrpc_magic ≡ true
  unfolding frame_of take same_elems
  magic_ok = refl

  version_ok : ((field (frame_of id body) 8 2 == 2) && (field (frame_of id body) 10 2 == 0)) ≡ true
  unfolding frame_of u16 le_bytes take drop le_value
  version_ok = refl

  kind_ok : (field (frame_of id body) 12 1 == 1) ≡ true
  unfolding frame_of u16 le_bytes take drop le_value
  kind_ok = refl

  flags_ok : (field (frame_of id body) 13 1 == 0) ≡ true
  unfolding frame_of u16 le_bytes take drop le_value
  flags_ok = refl

  check_header-frame_of : check_header (frame_of id body) ≡ ok tt
  unfolding check_header
  check_header-frame_of =
      rw (length-frame_of, field-length, magic_ok, version_ok, kind_ok, flags_ok) (ground arith)

take_bytes-append :
    (bytes rest : List ℕ) → take_bytes (length bytes) (bytes ++ rest) ≡ ok (bytes, rest)
unfolding take_bytes
take_bytes-append bytes rest =
    let fits : leb (length bytes) (length (bytes ++ rest)) ≡ true =
      ground (arith, length-append bytes rest) in
    rw (fits, take-length_append, drop-length_append)

take_number-le_bytes :
    (count n : ℕ) (rest : List ℕ)
    → n < 256 ^ count
    → take_number count (le_bytes count n ++ rest) ≡ ok (n, rest)
unfolding take_number
take_number-le_bytes count n rest h =
    >>=-ok (take_bytes count (le_bytes count n ++ rest)) _ (
      subst (λ c. take_bytes c (le_bytes count n ++ rest) ≡ ok (le_bytes count n, rest))
        (length-le_bytes count n) (take_bytes-append (le_bytes count n) rest))
    ∙ rw (le_value-le_bytes count n h)

take_tag : (tag : ℕ) (rest : List ℕ) → tag < 256 → take_number 1 (tag ∷ rest) ≡ ok (tag, rest)
take_tag tag rest h =
    let byte : tag % 256 ≡ tag = omega arith in
    subst (λ b. take_number 1 (b ∷ rest) ≡ ok (tag, rest)) byte
      (unfold le_bytes in take_number-le_bytes 1 tag rest (omega arith))

-- A text behind its length, but for a byte order mark in front.
take_text-block :
    (t : Text) (maximum : ℕ) (rest : List ℕ)
    → IsWellFormed t
    → length (encode t) ≤ maximum
    → maximum < 2 ^ 32
    → take_text maximum (block t ++ rest) ≡ ok (strip_mark t, rest)
unfolding take_text u32
take_text-block t maximum rest wf fits small = rw append_assoc (
    >>=-ok (take_number 4 (u32 (length (encode t)) ++ (encode t ++ rest))) _
      (take_number-le_bytes 4 (length (encode t)) (encode t ++ rest) (omega arith))
    ∙ require-ok (leb (length (encode t)) maximum) string_limit _ (le→leb _ _ fits)
    ∙ >>=-ok (take_bytes (length (encode t)) (encode t ++ rest)) _
        (take_bytes-append (encode t) rest)
    ∙ rw (decode-encode t wf))

take_string_term-block :
    (t : Text) (rest : List ℕ)
    → IsWellFormed t
    → length (encode t) ≤ framrpc_max_space_bytes
    → take_string_term (1 ∷ (block t ++ rest)) ≡ ok (strip_mark t, rest)
unfolding take_string_term
take_string_term-block t rest wf fits =
    >>=-ok (take_number 1 (1 ∷ (block t ++ rest))) _ (take_tag 1 (block t ++ rest) (omega arith))
    ∙ take_text-block t framrpc_max_space_bytes rest wf fits (omega arith)

take_keyword_term-block :
    (t : Text) (rest : List ℕ)
    → IsWellFormed t
    → has_mark t ≡ false
    → is_empty t ≡ false
    → length (encode t) ≤ framrpc_max_body_bytes
    → take_keyword_term (6 ∷ (block t ++ rest)) ≡ ok (t, rest)
unfolding take_keyword_term
take_keyword_term-block t rest wf unmarked filled fits =
    >>=-ok (take_number 1 (6 ∷ (block t ++ rest))) _ (take_tag 6 (block t ++ rest) (omega arith))
    ∙ >>=-ok (take_text framrpc_max_body_bytes (block t ++ rest)) _ (
        take_text-block t framrpc_max_body_bytes rest wf fits (omega arith)
        ∙ rw (strip_mark-has_mark t unmarked))
    ∙ require-ok (not (is_empty t)) invalid_record _ (rw filled)

-- What holds of every member of a set of texts holds of a text that is in it.
pub has-All :
    (P : Text → Type 0) (texts : List Text) (t : Text) → All P texts → has texts t ≡ true → P t
unfolding has
has-All P [] t all h = cc
has-All P (x ∷ texts) t (px, all) h = elim (Bool-cases (same_elems x t)) [
  | inl same ↦ subst P (same_elems-eq x t same) px
  | inr other ↦ has-All P texts t all (rw other at h)
]

-- The operations of the client, those of its data plane and of its operator, are the adapter's, and
-- their names are plain texts.
abbrev pub IsKnown : Text → Type 0
IsKnown operation = (has framrpc_operations operation ≡ true) × IsPlainText operation

pub operations-IsKnown : All IsKnown operations
unfolding has same_elems
operations-IsKnown = ground arith

native_operator_operations-IsKnown : All IsKnown native_operator_operations
unfolding has same_elems
native_operator_operations-IsKnown = ground arith

-- What the adapter answers to a request with the names that the client gave.
abbrev pub summary : ℤ → Text → Text → Encoded → Request
summary id space operation encoded = record {
  space = space;
  operation = operation;
  request_id = id;
  frame_bytes = length encoded.frame;
  body_bytes = encoded.body_bytes;
}

inspect-IsEncoded :
    (id : ℤ) (space operation : Text) (allowed : List Text) (encoded : Encoded)
    → i64_min ≤ℤ id
    → id ≤ℤ i64_max
    → All IsUnit16 space
    → is_empty (strip_mark space) ≡ false
    → length (encode (strip_mark space)) ≤ framrpc_max_space_bytes
    → IsKnown operation
    → IsEncoded id space operation allowed encoded
    → inspect encoded.frame ≡ ok (summary id (strip_mark space) operation encoded)
unfolding inspect
inspect-IsEncoded id space operation allowed encoded lo hi units filled fits
      (known, (units', unmarked')) e =
    let n = e.names in
    let wf : IsWellFormed space = record { units16 = units; paired = n.space_paired } in
    let wf' : IsWellFormed operation = record { units16 = units'; paired = n.operation_paired } in
    let seen : Text = strip_mark space in
    let frame : List ℕ = frame_of id e.body in
    let behind : List ℕ = 6 ∷ (block operation ++ n.tail) in
    let first : take_string_term (drop framrpc_header_bytes frame) ≡ ok (seen, behind) =
      rw (drop_header id e.body e.body_fits, n.same)
        (take_string_term-block space behind wf e.space_fits) in
    rw (e.frame, e.body_bytes)
      (>>=-ok (check_header frame) _ (check_header-frame_of id e.body e.body_fits)
        ∙ >>=-ok (take_string_term (drop framrpc_header_bytes frame)) _ first
        ∙ >>=-ok (take_keyword_term behind) _ (
            take_keyword_term-block operation n.tail wf' unmarked' n.operation_filled
              n.operation_fits)
        ∙ require-ok (not (is_empty seen) && leb (length (encode seen)) framrpc_max_space_bytes)
            invalid_space _ (rw filled (le→leb (length (encode seen)) framrpc_max_space_bytes fits))
        ∙ require-ok (has framrpc_operations operation) unsupported_operation _ known
        ∙ rw (
          field-length id e.body e.body_fits,
          field-id id e.body e.body_fits,
          from_u64-to_u64 id lo hi,
        ))

pub inspect-plain :
    (id : ℤ) (space operation : Text) (allowed : List Text) (encoded : Encoded)
    → i64_min ≤ℤ id
    → id ≤ℤ i64_max
    → IsPlainText space
    → IsKnown operation
    → IsEncoded id space operation allowed encoded
    → inspect encoded.frame ≡ ok (summary id space operation encoded)
inspect-plain id space operation allowed encoded lo hi (units, unmarked) known e =
    let kept : strip_mark space ≡ space = strip_mark-has_mark space unmarked in
    subst (λ s. inspect encoded.frame ≡ ok (summary id s operation encoded)) kept
      (inspect-IsEncoded id space operation allowed encoded lo hi units (rw kept e.space_filled)
        (rw kept e.space_fits) known e)

-- The frame of every data-plane request that the client encodes, for a space whose name has 16-bit
-- units and starts with no byte order mark and an id of 64 bits, is read by the adapter, with the
-- same names, id and sizes.
pub inspect-encode_request :
    (id : ℤ) (space operation : Text) (payload : Value) (options : Options) (encoded : Encoded)
    → i64_min ≤ℤ id
    → id ≤ℤ i64_max
    → IsPlainText space
    → encode_request id space operation payload options operations ≡ ok encoded
    → inspect encoded.frame ≡ ok (summary id space operation encoded)
inspect-encode_request id space operation payload options encoded lo hi plain e =
    let shape = encode_request-IsEncoded id space operation payload options operations encoded e in
    inspect-plain id space operation operations encoded lo hi plain
      (has-All IsKnown operations operation operations-IsKnown shape.is_allowed) shape

-- The same for the operator's request.
pub inspect-encode_operator :
    (id : ℤ) (space operation : Text) (payload : Value) (options : Options) (encoded : Encoded)
    → i64_min ≤ℤ id
    → id ≤ℤ i64_max
    → IsPlainText space
    → encode_request id space operation payload options native_operator_operations ≡ ok encoded
    → inspect encoded.frame ≡ ok (summary id space operation encoded)
inspect-encode_operator id space operation payload options encoded lo hi plain e =
    let shape =
      encode_request-IsEncoded id space operation payload options native_operator_operations encoded
        e in
    inspect-plain id space operation native_operator_operations encoded lo hi plain
      (has-All IsKnown native_operator_operations operation native_operator_operations-IsKnown
        shape.is_allowed)
      shape

-- A byte order mark in front of a nonempty space's name is lost: from the frame that the client
-- encodes for the marked name, of an operation of the data plane and an id of 64 bits, the adapter
-- reads a request to the space without the mark.
pub inspect-encode_request_marked :
    (id : ℤ) (space operation : Text) (payload : Value) (options : Options) (encoded : Encoded)
    → i64_min ≤ℤ id
    → id ≤ℤ i64_max
    → All IsUnit16 space
    → is_empty space ≡ false
    → encode_request id (0xfeff ∷ space) operation payload options operations ≡ ok encoded
    → inspect encoded.frame ≡ ok (summary id space operation encoded)
inspect-encode_request_marked id space operation payload options encoded lo hi units filled e =
    let shape =
      encode_request-IsEncoded id (0xfeff ∷ space) operation payload options operations encoded e in
    let shorter : length (encode space) ≤ framrpc_max_space_bytes = omega (
      arith,
      shape.space_fits,
      ap (λ (b : List ℕ). length b) (encode-marked space),
      length-append (encode_point 0xfeff) (encode space),
    ) in
    unfold strip_mark in
    inspect-IsEncoded id (0xfeff ∷ space) operation operations encoded lo hi (omega arith, units)
      filled shorter (has-All IsKnown operations operation operations-IsKnown shape.is_allowed)
      shape
