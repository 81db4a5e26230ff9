-- ===== src/Client/Response/Identity.antt =====
-- framrpc-core.mjs: a response that the client takes is the answer to its request.
use fram.Prelude.{
  ℕ, ◌+◌, ◌-◌, ◌≤◌, ◌≡◌, refl, sym, ap, ◌∙◌, Bool, true, false, ◌&&◌, some, List, ltb, leb, ◌==◌,
  same_elems, same_elems-eq, same_elems_self, length, take, drop, length-take, take-take, drop-take,
  ℤ, pos, negsuc, ok, ◌>>=◌, require, require-eq-ok, >>=-eq-ok, ok-injective, &&-eq-true, ==→eq,
  leb→le, le→leb, le→not_ltb, arith,
}
use fram.Client.Codes.{Res, Code, identity_mismatch}
use fram.Client.Reader.{Reader, from_u64, le_value, done}
use fram.Client.Request.{magic, header_bytes, max_body_bytes, max_frame_bytes}
use fram.Client.Response.{Response, Expected, response_body}
use fram.Client.Response.Frame.{
  same_integer, header_field, check_response_header, decode_response_frame,
  framrpc_declared_frame_bytes,
}

same_integer-eq : (a b : ℤ) → same_integer a b ≡ true → a ≡ b
same_integer-eq (pos a) (pos b) h = ap pos (ground arith)
same_integer-eq (pos a) (negsuc b) h = absurd (ground arith)
same_integer-eq (negsuc a) (pos b) h = absurd (ground arith)
same_integer-eq (negsuc a) (negsuc b) h = ap negsuc (ground arith)

-- What the client has checked of a frame that it takes as a response to a request.
pub record Answers (frame : List ℕ) (expected : Expected) (response : Response) : Type 0 where
  pub same_space : response.space ≡ expected.space
  pub same_operation : response.operation ≡ expected.operation
  pub same_request : from_u64 (header_field frame 18 8) ≡ expected.request_id
  pub has_magic : take 8 frame ≡ magic
  pub is_response : header_field frame 12 1 ≡ 2
  pub whole : length frame ≡ header_bytes + header_field frame 14 4
  pub bounded : header_field frame 14 4 ≤ max_body_bytes
  pub no_trailing_bytes :
      (reader : Reader) × (response_body (record { bytes = drop header_bytes frame; nodes = 0 })
        ≡ ok (response, reader))
      × (length reader.bytes ≡ 0)

-- The header of a frame that passes the checks.
record Heads (frame : List ℕ) (request_id : ℤ) : Type 0 where
  request : from_u64 (header_field frame 18 8) ≡ request_id
  start : take 8 frame ≡ magic
  kind : header_field frame 12 1 ≡ 2
  size : length frame ≡ header_bytes + header_field frame 14 4
  bound : header_field frame 14 4 ≤ max_body_bytes

next :
    {B : Type 0} (test : Bool) (code : Code) (k : Res B) {b : B}
    → (require test code >>= λ (u : Unit {0}). k) ≡ ok b
    → (test ≡ true) × (k ≡ ok b)
next true code k e = (refl, e)
next false code k e = cc

check_response_header-Heads :
    (frame : List ℕ) (request_id : ℤ)
    → check_response_header frame request_id ≡ ok tt
    → Heads frame request_id
unfolding check_response_header
check_response_header-Heads frame request_id e =
    let (_, e1) = next (leb header_bytes (length frame)) _ _ e in
    let (_, e2) = next (leb (length frame) max_frame_bytes) _ _ e1 in
    let (hm, e3) = next (same_elems (take 8 frame) magic) _ _ e2 in
    let (_, e4) = next ((header_field frame 8 2 == 2) && (header_field frame 10 2 == 0)) _ _ e3 in
    let (hk, e5) = next (header_field frame 12 1 == 2) _ _ e4 in
    let (_, e6) = next (header_field frame 13 1 == 0) _ _ e5 in
    let (hb, e7) = next (leb (header_field frame 14 4) max_body_bytes) _ _ e6 in
    let (hs, e8) = next (length frame == header_bytes + header_field frame 14 4) _ _ e7 in
    record {
      request = same_integer-eq _ _ (
          require-eq-ok (same_integer (from_u64 (header_field frame 18 8)) request_id)
            identity_mismatch e8);
      start = same_elems-eq _ _ hm;
      kind = ==→eq _ _ hk;
      size = ==→eq _ _ hs;
      bound = leb→le _ _ hb;
    }

-- A response that `decodeResponseFrame` returns carries the space, the operation and the id of the
-- request, in a whole response frame of at most the body limit, whose body it is to the last byte.
pub decode_response_frame-Answers :
    (frame : List ℕ) (expected : Expected) (response : Response)
    → decode_response_frame frame expected ≡ ok response
    → Answers frame expected response
unfolding decode_response_frame
decode_response_frame-Answers frame expected response e =
    let (u, hh, e1) = >>=-eq-ok (check_response_header frame expected.request_id) _ e in
    let (read, hb, e2) =
      >>=-eq-ok (response_body (record { bytes = drop header_bytes frame; nodes = 0 })) _ e1 in
    let (hd, e3) = next (done read.1) _ _ e2 in
    let (hi, e4) =
      next
        (same_elems read.0.space expected.space && same_elems read.0.operation expected.operation) _
        _ e3 in
    let (hs, ho) =
      &&-eq-true (same_elems read.0.space expected.space)
        (same_elems read.0.operation expected.operation) hi in
    let same = ok-injective e4 in
    let heads = check_response_header-Heads frame expected.request_id hh in
    record {
      same_space = sym (ap (λ (r : Response). r.space) same) ∙ same_elems-eq _ _ hs;
      same_operation = sym (ap (λ (r : Response). r.operation) same) ∙ same_elems-eq _ _ ho;
      same_request = heads.request;
      has_magic = heads.start;
      is_response = heads.kind;
      whole = heads.size;
      bounded = heads.bound;
      no_trailing_bytes =
          (read.1, hb ∙ ap (λ (r : Response). ok (r, read.1)) same, ==→eq _ _ (unfold done in hd));
    }

header_field-take :
    (n offset size : ℕ) (frame : List ℕ)
    → offset + size ≤ n
    → header_field (take n frame) offset size ≡ header_field frame offset size
header_field-take n offset size frame h =
    let e : size ≡ offset + size - offset = omega arith in
    ap le_value (
      rw e (
        drop-take offset (offset + size) (take n frame)
        ∙ ap (drop offset) (take-take (offset + size) n frame h)
        ∙ sym (drop-take offset (offset + size) frame)))

-- From the bytes of a frame that `decodeResponseFrame` takes, once its header is among them,
-- `framRpcDeclaredFrameBytes` gives the length of the whole frame.
pub declared_frame_bytes-take :
    (frame : List ℕ) (expected : Expected) (response : Response) (n : ℕ)
    → decode_response_frame frame expected ≡ ok response
    → header_bytes ≤ n
    → framrpc_declared_frame_bytes (take n frame) ≡ ok (some (length frame))
unfolding framrpc_declared_frame_bytes
declared_frame_bytes-take frame expected response n e h =
    let a = decode_response_frame-Answers frame expected response e in
    let size : header_field (take n frame) 14 4 ≡ header_field frame 14 4 =
      header_field-take n 14 4 frame (omega (arith, h)) in
    let start : take 8 (take n frame) ≡ magic =
      take-take 8 n frame (omega (arith, h)) ∙ a.has_magic in
    let here : ltb (length (take n frame)) header_bytes ≡ false =
      le→not_ltb _ _ (omega (arith, length-take n frame, h, a.whole)) in
    rw (here, start, size, same_elems_self magic, le→leb _ _ a.bounded)
      (ap (λ (k : ℕ). ok (some k)) (sym a.whole))
