-- ===== src/Adapter/Status/Request.antt =====
-- adapter.mjs: the status request that a backup puts to the engine is one that the object itself
-- would let through.
use fram.Prelude.{
  ℕ, ◌+◌, ◌≤◌, ◌≡◌, refl, ◌∙◌, true, false, not, ◌&&◌, List, ◌∷◌, ◌++◌, has, same_elems,
  same_elems_self, length, length-append, pos, ok, require-ok, >>=-ok, arith,
}
use fram.Text.{Text, codes, has_paired_surrogates}
use fram.Text.Utf8.{encode, encode_point}
use fram.Text.Numeral.{is_empty}
use fram.Text.RoundTrip.{IsWellFormed, has_mark, decode-encode_unmarked}
use fram.Client.Bytes.{le_bytes, u32}
use fram.Client.Request.{Encoded, operations, frame_of, max_space_bytes}
use fram.Client.RequestShape.{block, IsEncoded}
use fram.Client.Request.{query, operator}
use fram.Adapter.Requests.{
  inspect, authorize, same_entry, entry_accepts, framrpc_entry, invalid_entry, invalid_space,
  operator_capability, space_mismatch, entry_mismatch,
}
use fram.Adapter.Inspect.{summary, inspect-plain, IsKnown, operations-IsKnown, has-All}
use fram.Adapter.Status.{text_bytes, status_term, status_frame}

text_bytes-encode :
    (t : Text)
    → IsWellFormed t
    → has_mark t ≡ false
    → is_empty t ≡ false
    → text_bytes t ≡ ok (encode t)
unfolding text_bytes
text_bytes-encode t w unmarked filled =
    rw (filled, decode-encode_unmarked t w unmarked, same_elems_self t) refl

length-block : (t : Text) → length (block t) ≡ 4 + length (encode t)
unfolding u32 le_bytes
length-block t = omega (arith, length-append (u32 (length (encode t))) (encode t))

-- What follows the names: no version, page or timeout, and the unit.
abbrev pub status_tail : List ℕ
status_tail = 0 ∷ 0 ∷ 0 ∷ 6 ∷ block (codes "rpc/unit")

abbrev pub status_body : Text → List ℕ
status_body space = 1 ∷ (block space ++ (6 ∷ (block (codes "rpc/status") ++ status_tail)))

length-status_body :
    (space : Text)
    → length (status_body space)
      ≡ 1
        + 4
        + length (encode space)
        + 1
        + 4
        + length (encode (codes "rpc/status"))
        + 3
        + 1
        + 4
        + length (encode (codes "rpc/unit"))
length-status_body space = omega (
  arith,
  length-block space,
  length-block (codes "rpc/status"),
  length-block (codes "rpc/unit"),
  length-append (block space) (6 ∷ (block (codes "rpc/status") ++ status_tail)),
  length-append (block (codes "rpc/status")) status_tail,
)

abbrev pub status_encoded : Text → Encoded
status_encoded space = record {
  frame = frame_of (pos 0) (status_body space);
  body_bytes = length (status_body space);
  term_count = 3;
  max_term_depth = 0;
}

status-IsEncoded :
    (space : Text)
    → has_paired_surrogates space ≡ true
    → is_empty space ≡ false
    → length (encode space) ≤ max_space_bytes
    → IsEncoded (pos 0) space (codes "rpc/status") operations (status_encoded space)
unfolding encode encode_point has_paired_surrogates has same_elems
status-IsEncoded space paired filled fits = record {
  body = status_body space;
  names = record {
    tail = status_tail;
    same = refl;
    space_paired = paired;
    operation_paired = refl;
    operation_fits = omega arith;
    operation_filled = refl;
  };
  space_filled = filled;
  space_fits = fits;
  is_allowed = refl;
  body_fits = omega (arith, length-status_body space, fits);
  frame = refl;
  body_bytes = refl;
}

operation_bytes : text_bytes (codes "rpc/status") ≡ ok (encode (codes "rpc/status"))
operation_bytes =
    text_bytes-encode (codes "rpc/status")
      (record { units16 = omega arith; paired = unfold has_paired_surrogates in refl }) refl refl

unit_bytes : text_bytes (codes "rpc/unit") ≡ ok (encode (codes "rpc/unit"))
unit_bytes =
    text_bytes-encode (codes "rpc/unit")
      (record { units16 = omega arith; paired = unfold has_paired_surrogates in refl }) refl refl

-- The frame that `statusFrame` builds is the frame of a request.
status_frame-frame_of :
    (space : Text)
    → IsWellFormed space
    → has_mark space ≡ false
    → is_empty space ≡ false
    → status_frame space ≡ ok (frame_of (pos 0) (status_body space))
unfolding status_frame status_term frame_of
status_frame-frame_of space w unmarked filled =
    >>=-ok (text_bytes space) _ (text_bytes-encode space w unmarked filled)
    ∙ >>=-ok (text_bytes (codes "rpc/status")) _ operation_bytes
    ∙ >>=-ok (text_bytes (codes "rpc/unit")) _ unit_bytes
    ∙ rw (length-status_body space) refl

status_allowed : has operations (codes "rpc/status") ≡ true
unfolding has same_elems
status_allowed = refl

status_accepted : entry_accepts (codes "rpc/status") query ≡ true
unfolding entry_accepts framrpc_entry same_entry has same_elems
status_accepted = refl

-- For a nonempty space name in 16-bit units with paired surrogates, no byte order mark in front and
-- at most MAX_SPACE_BYTES in UTF-8, `statusFrame` builds a frame, and the object that owns the space
-- lets it through on the query entry as the request "rpc/status" with id 0.
pub authorize-status_frame :
    (space : Text)
    → IsWellFormed space
    → has_mark space ≡ false
    → is_empty space ≡ false
    → length (encode space) ≤ max_space_bytes
    → (frame : List ℕ) × (status_frame space ≡ ok frame)
      × (authorize space frame query space
          ≡ ok (summary (pos 0) space (codes "rpc/status") (status_encoded space)))
unfolding authorize
authorize-status_frame space w unmarked filled fits =
    let known : IsKnown (codes "rpc/status") =
      has-All IsKnown operations (codes "rpc/status") operations-IsKnown (status_allowed) in
    (
      frame_of (pos 0) (status_body space),
      status_frame-frame_of space w unmarked filled,
      require-ok (not (same_entry query operator)) invalid_entry _ (unfold same_entry in refl)
          ∙ require-ok (not (is_empty space)) invalid_space _ (rw filled refl)
          ∙ >>=-ok (inspect (frame_of (pos 0) (status_body space))) _ (
              inspect-plain (pos 0) space (codes "rpc/status") operations (status_encoded space)
                (omega arith) (omega arith) (w.units16, unmarked) known
                (status-IsEncoded space w.paired filled fits))
          ∙ require-ok (not (same_elems (codes "rpc/status") (codes "rpc/checkpoint")))
              operator_capability _ (unfold same_elems in refl)
          ∙ require-ok (same_elems space space && same_elems space space) space_mismatch _
              (rw same_elems_self refl)
          ∙ require-ok (entry_accepts (codes "rpc/status") query) entry_mismatch _ status_accepted,
    )
