-- ===== src/Client/RequestShape.antt =====
-- framrpc-core.mjs: what a request looks like that `encodeRequest` returned.
use fram.Prelude.{
  ℕ, ◌≤◌, ◌≡◌, sym, ap, ◌∙◌, true, false, not, List, ◌∷◌, ◌++◌, leb, length, has, not-eq-true,
  ok-injective, leb→le, arith, ok, require, >>=-eq-ok, map-eq-ok, require-eq-ok, append_assoc, ℤ,
}
use fram.Text.{Text, has_paired_surrogates}
use fram.Text.Utf8.{encode}
use fram.Text.Numeral.{is_empty}
use fram.Client.Codes.{invalid_space, unsupported_operation, frame_too_large}
use fram.Client.Term.{
  Term, string, keyword, Budget, new_budget, max_string_bytes, strict_utf8, keyword_term,
}
use fram.Client.Bytes.{u32, write_text, write_term, write_term_unchecked}
use fram.Client.Value.{Value, string_term}
use fram.Client.Request.{
  Options, Controls, Encoded, max_space_bytes, max_body_bytes, request_controls, write_body,
  frame_of, encode_request, write_identity, write_controls, write_payload,
}
use fram.Client.WireNumbers.{strict_utf8-eq-ok, write_text-eq-ok}
use fram.Client.RoundTrip.{write_term-eq-ok}
use fram.Client.Atoms.{keyword_term-filled}

-- A length and the UTF-8 bytes of a text.
abbrev pub block : Text → List ℕ
block t = u32 (length (encode t)) ++ encode t

write_text-block :
    (t : Text) (maximum : ℕ) (written : List ℕ)
    → write_text t maximum ≡ ok written
    → (written ≡ block t) × (has_paired_surrogates t ≡ true) × (length (encode t) ≤ maximum)
write_text-block t maximum written e =
    let (bytes, accepted, same) = write_text-eq-ok t maximum written e in
    let (paired, is_encoding, fits) = strict_utf8-eq-ok t maximum bytes accepted in
    (same ∙ rw is_encoding, paired, rw (← is_encoding) fits)

write_term-string :
    (t : Text) (b b' : Budget) (written : List ℕ)
    → write_term (string t) b ≡ ok (written, b')
    → (written ≡ 1 ∷ block t) × (has_paired_surrogates t ≡ true)
unfolding write_term_unchecked
write_term-string t b b' written e =
    let (_, w) = write_term-eq-ok (string t) b b' written e in
    let (bytes, hw, same) = map-eq-ok (write_text t max_string_bytes) (λ x. 1 ∷ x) written w in
    let (is_block, paired, _) = write_text-block t max_string_bytes bytes hw in
    (same ∙ rw is_block, paired)

write_term-keyword :
    (t : Text) (b b' : Budget) (written : List ℕ)
    → write_term (keyword t) b ≡ ok (written, b')
    → (written ≡ 6 ∷ block t)
      × (has_paired_surrogates t ≡ true)
      × (length (encode t) ≤ max_string_bytes)
unfolding write_term_unchecked
write_term-keyword t b b' written e =
    let (_, w) = write_term-eq-ok (keyword t) b b' written e in
    let (bytes, hw, same) = map-eq-ok (write_text t max_string_bytes) (λ x. 6 ∷ x) written w in
    let (is_block, paired, fits) = write_text-block t max_string_bytes bytes hw in
    (same ∙ rw is_block, paired, fits)

string_term-eq-ok : (value : Text) (t : Term) → string_term value ≡ ok t → t ≡ string value
unfolding string_term
string_term-eq-ok value t e =
    let (_, _, same) = map-eq-ok (strict_utf8 value max_string_bytes) (λ _. string value) t e in
    same

keyword_term-eq-ok : (value : Text) (t : Term) → keyword_term value ≡ ok t → t ≡ keyword value
unfolding keyword_term
keyword_term-eq-ok value t e =
    let (bytes, _, rest) = >>=-eq-ok (strict_utf8 value max_string_bytes) _ e in
    ground (arith, rest)

-- The body of a request names the space and the operation in front.
pub record NamesFirst (space operation : Text) (body : List ℕ) : Type 0 where
  pub tail : List ℕ
  pub same : body ≡ 1 ∷ (block space ++ (6 ∷ (block operation ++ tail)))
  pub space_paired : has_paired_surrogates space ≡ true
  pub operation_paired : has_paired_surrogates operation ≡ true
  pub operation_fits : length (encode operation) ≤ max_string_bytes
  pub operation_filled : is_empty operation ≡ false

names_first :
    (space operation : Text) (b : Budget) (ws wo written : List ℕ × Budget) (tail : List ℕ)
    → write_term (string space) b ≡ ok ws
    → write_term (keyword operation) ws.1 ≡ ok wo
    → is_empty operation ≡ false
    → written ≡ (ws.0 ++ wo.0, wo.1)
    → NamesFirst space operation (written.0 ++ tail)
names_first space operation b ws wo written tail hs ho filled same =
    let (block1, paired1) = write_term-string space b ws.1 ws.0 hs in
    let (block2, paired2, fits) = write_term-keyword operation ws.1 wo.1 wo.0 ho in
    record {
      tail = tail;
      same =
          ap (λ (w : List ℕ × Budget). w.0 ++ tail) same
          ∙ rw (block1, block2, append_assoc (block space) (6 ∷ block operation) tail);
      space_paired = paired1;
      operation_paired = paired2;
      operation_fits = fits;
      operation_filled = filled;
    }

-- The bytes of the two names, with anything behind them.
write_identity-NamesFirst :
    (space operation : Text) (b : Budget) (written : List ℕ × Budget) (tail : List ℕ)
    → write_identity space operation b ≡ ok written
    → NamesFirst space operation (written.0 ++ tail)
unfolding write_identity
write_identity-NamesFirst space operation b written tail e =
    let (space_term, hs, e1) = >>=-eq-ok (string_term space) _ e in
    let (ws, hw, e2) = >>=-eq-ok (write_term space_term b) _ e1 in
    let (operation_term, ho, e3) = >>=-eq-ok (keyword_term operation) _ e2 in
    let (wo, hv, same) =
      map-eq-ok (write_term operation_term ws.1) (λ w. (ws.0 ++ w.0, w.1)) written e3 in
    names_first space operation b ws wo written tail
      (rw (string_term-eq-ok space space_term hs) at hw)
      (rw (keyword_term-eq-ok operation operation_term ho) at hv)
      (keyword_term-filled operation operation_term ho) same

write_body-NamesFirst :
    (space operation : Text) (controls : Controls) (payload : Value) (written : List ℕ × Budget)
    → write_body space operation controls payload ≡ ok written
    → NamesFirst space operation written.0
unfolding write_body
write_body-NamesFirst space operation controls payload written e =
    let (names, hn, e1) = >>=-eq-ok (write_identity space operation new_budget) _ e in
    let (control_bytes, hc, e2) = >>=-eq-ok (write_controls controls names.1) _ e1 in
    let (payload_bytes, hp, same) =
      map-eq-ok (write_payload payload control_bytes.1)
        (λ w. (names.0 ++ (control_bytes.0 ++ w.0), w.1)) written e2 in
    rw same (
      write_identity-NamesFirst space operation new_budget names
        (control_bytes.0 ++ payload_bytes.0) hn)

-- What `encodeRequest` has checked of a request that it returns, and the frame that it made.
pub record IsEncoded (request_id : ℤ) (space operation : Text) (allowed : List Text) (e : Encoded)
    : Type 0 where
  pub body : List ℕ
  pub names : NamesFirst space operation body
  pub space_filled : is_empty space ≡ false
  pub space_fits : length (encode space) ≤ max_space_bytes
  pub is_allowed : has allowed operation ≡ true
  pub body_fits : length body ≤ max_body_bytes
  pub frame : e.frame ≡ frame_of request_id body
  pub body_bytes : e.body_bytes ≡ length body

pub encode_request-IsEncoded :
    (request_id : ℤ) (space operation : Text) (payload : Value) (options : Options)
    (allowed : List Text) (encoded : Encoded)
    → encode_request request_id space operation payload options allowed ≡ ok encoded
    → IsEncoded request_id space operation allowed encoded
unfolding encode_request
encode_request-IsEncoded request_id space operation payload options allowed encoded e =
    let (_, filled, e1) = >>=-eq-ok (require (not (is_empty space)) invalid_space) _ e in
    let (bytes, fits, e2) = >>=-eq-ok (strict_utf8 space max_space_bytes) _ e1 in
    let (_, member, e3) = >>=-eq-ok (require (has allowed operation) unsupported_operation) _ e2 in
    let (controls, hc, e4) = >>=-eq-ok (request_controls operation options) _ e3 in
    let (written, hw, e5) = >>=-eq-ok (write_body space operation controls payload) _ e4 in
    let (_, small, same) =
      >>=-eq-ok (require (leb (length written.0) max_body_bytes) frame_too_large) _ e5 in
    let (_, is_encoding, space_fits) = strict_utf8-eq-ok space max_space_bytes bytes fits in
    let result = ok-injective same in
    record {
      body = written.0;
      names = write_body-NamesFirst space operation controls payload written hw;
      space_filled = not-eq-true _ (require-eq-ok _ _ filled);
      space_fits = rw (← is_encoding) space_fits;
      is_allowed = require-eq-ok _ _ member;
      body_fits = leb→le _ _ (require-eq-ok _ _ small);
      frame = ap (λ (x : Encoded). x.frame) (sym result);
      body_bytes = ap (λ (x : Encoded). x.body_bytes) (sym result);
    }
