-- ===== src/Client/Transport/Delivered.antt =====
-- framrpc.mjs: a whole response frame is delivered, in whatever pieces it comes.
use fram.Prelude.{
  ℕ, ◌+◌, ◌<◌, ◌≤◌, ◌≡◌, ◌⊎◌, refl, sym, ap, ◌∙◌, inl, inr, true, false, Option, none, some, List,
  [], ◌∷◌, ◌++◌, ltb, leb, ◌==◌, length, take, take-length_append, length-append, append_assoc,
  append-nil, Bool-cases, eq→==, leb→le, le→not_ltb, arith, ok,
}
use fram.Client.Request.{max_frame_bytes}
use fram.Client.Response.{Response, Expected}
use fram.Client.Response.Frame.{decode_response_frame, framrpc_declared_frame_bytes}
use fram.Client.Response.Identity.{decode_response_frame-Answers, declared_frame_bytes-take}
use fram.Client.Transport.{
  SocketEvent, data_chunk, Settled, resolved, Incoming, incoming, concat_chunks, declare, compare,
  receive, unless_settled, on_events,
}

abbrev pub chunk_events : List (List ℕ) → List SocketEvent
chunk_events [] = []
chunk_events (piece ∷ pieces) = data_chunk piece ∷ chunk_events pieces

concat_chunks-append :
    (chunks : List (List ℕ)) (chunk : List ℕ)
    → concat_chunks (chunks ++ chunk ∷ []) ≡ concat_chunks chunks ++ chunk
unfolding concat_chunks
concat_chunks-append [] chunk = append-nil chunk
concat_chunks-append (c ∷ chunks) chunk =
    ap (λ (t : List ℕ). c ++ t) (concat_chunks-append chunks chunk)
    ∙ sym (append_assoc c (concat_chunks chunks) chunk)

on_events-settled :
    (events : List SocketEvent) (state : Incoming) (outcome : Settled)
    → state.settled ≡ some outcome
    → (on_events events state).settled ≡ some outcome
unfolding on_events
on_events-settled [] state outcome h = h
on_events-settled (event ∷ events) state outcome h =
    let stays : unless_settled state.settled event state ≡ state = simp h refl in
    rw (on_events, stays) (on_events-settled events state outcome h)

-- A frame that declares its own length, once its header is there.
record Declares (frame : List ℕ) : Type 0 where
  declared :
      (n : ℕ) → 26 ≤ n → framrpc_declared_frame_bytes (take n frame) ≡ ok (some (length frame))
  long_enough : 26 ≤ length frame
  fits : length frame ≤ max_frame_bytes

-- The bytes of a frame that were received, before the rest of it.
record Waits (frame rest : List ℕ) (state : Incoming) : Type 0 where
  so_far : concat_chunks state.chunks ++ rest ≡ frame
  counted : state.received ≡ length (concat_chunks state.chunks)
  known : (state.declared ≡ none) ⊎ (state.declared ≡ some (length frame))
  unsettled : state.settled ≡ none

smaller_size : (a b : ℕ) → a < b → (a == b) ≡ false
smaller_size a b h = ground arith

not_leb→lt : (a b : ℕ) → leb a b ≡ false → b < a
not_leb→lt a b h = ground arith

rest_cases : (rest : List ℕ) → (length rest ≡ 0) ⊎ (0 < length rest)
rest_cases [] = inl refl
rest_cases (b ∷ rest) = inr (omega arith)

module _ (frame : List ℕ) (d : Declares frame) where
  all_joined : (rest joined : List ℕ) → joined ++ rest ≡ frame → length rest ≡ 0 → joined ≡ frame
  all_joined [] joined so_far h = sym (append-nil joined) ∙ so_far
  all_joined (b ∷ rest) joined so_far h = absurd (omega arith)

  -- What the comparison makes of the bytes received, the first ones of the frame.
  module _ (rest joined : List ℕ) (more : Incoming) (so_far : joined ++ rest ≡ frame)
      (joins : concat_chunks more.chunks ≡ joined) (counted : more.received ≡ length joined)
      (unsettled : more.settled ≡ none) where
    abbrev Goes : Incoming → Type 0
    Goes after =
        (Waits frame rest after × (0 < length rest)) ⊎ (after.settled ≡ some (resolved frame))

    sizes : length joined + length rest ≡ length frame
    sizes = sym (length-append joined rest) ∙ ap length so_far

    told-Goes : Goes (compare (ok (some (length frame))) joined more)
    told-Goes =
        let fits : ltb (length frame) more.received ≡ false =
          le→not_ltb (length frame) more.received (omega (arith, sizes, counted)) in
        elim (rest_cases rest) [
          | inl e ↦
              let full : (more.received == length frame) ≡ true =
                eq→== more.received (length frame) (omega (arith, sizes, counted, e)) in
              inr (simp (fits, full, all_joined rest joined so_far e) refl)
          | inr left ↦
              let short : (more.received == length frame) ≡ false =
                smaller_size more.received (length frame) (omega (arith, sizes, counted, left)) in
              inl (
                simp (fits, short)
                    (record {
                      so_far = ap (λ (t : List ℕ). t ++ rest) joins ∙ so_far;
                      counted = counted ∙ ap length (sym joins);
                      known = inr refl;
                      unsettled = unsettled;
                    }),
                left,
              )
        ]

    declared-Goes :
        (declared : Option ℕ)
        → (declared ≡ none) ⊎ (declared ≡ some (length frame))
        → Goes (compare (declare declared more.received joined) joined more)
    declared-Goes declared (inr told) = simp told told-Goes
    declared-Goes declared (inl untold) = elim (Bool-cases (leb 26 more.received)) [
      | inl e ↦
          let first : take (length joined) frame ≡ joined =
            rw (← so_far) (take-length_append joined rest) in
          let tells =
            d.declared (length joined) (omega (arith, counted, leb→le 26 more.received e)) in
          let tells' = ap framrpc_declared_frame_bytes (sym first) ∙ tells in
          simp (untold, e, tells') told-Goes
      | inr e ↦ inl (
        simp (untold, e)
            (record {
              so_far = ap (λ (t : List ℕ). t ++ rest) joins ∙ so_far;
              counted = counted ∙ ap length (sym joins);
              known = inl refl;
              unsettled = unsettled;
            }),
        omega (arith, sizes, counted, d.long_enough, not_leb→lt 26 more.received e),
      )
    ]

  receive-Waits :
      (chunk rest : List ℕ) (state : Incoming)
      → Waits frame (chunk ++ rest) state
      → (Waits frame rest (receive chunk state) × (0 < length rest))
        ⊎ ((receive chunk state).settled ≡ some (resolved frame))
  unfolding receive
  receive-Waits chunk rest state w =
      let joined = concat_chunks (state.chunks ++ chunk ∷ []) in
      let joins = concat_chunks-append state.chunks chunk in
      let so_far : joined ++ rest ≡ frame =
        rw joins (append_assoc (concat_chunks state.chunks) chunk rest ∙ w.so_far) in
      let counted : state.received + length chunk ≡ length joined = rw joins (
        ap (λ (n : ℕ). n + length chunk) w.counted
        ∙ sym (length-append (concat_chunks state.chunks) chunk)) in
      let whole = sym (length-append joined rest) ∙ ap length so_far in
      let fits : ltb max_frame_bytes (state.received + length chunk) ≡ false =
        le→not_ltb max_frame_bytes (state.received + length chunk)
          (omega (arith, counted, whole, d.fits)) in
      let more : Incoming = record state {
        chunks = state.chunks ++ chunk ∷ [];
        received = state.received + length chunk;
      } in
      simp fits
        (declared-Goes rest joined more so_far refl counted w.unsettled state.declared w.known)

  deliver :
      (pieces : List (List ℕ)) (state : Incoming)
      → Waits frame (concat_chunks pieces) state
      → 0 < length (concat_chunks pieces)
      → (on_events (chunk_events pieces) state).settled ≡ some (resolved frame)
  unfolding concat_chunks on_events
  deliver [] state w some_left = absurd (omega arith)
  deliver (piece ∷ pieces) state w some_left =
      let next : unless_settled state.settled (data_chunk piece) state ≡ receive piece state =
        simp w.unsettled refl in
      rw (on_events, next)
        (elim (receive-Waits piece (concat_chunks pieces) state w) [
          | inl (waits, left) ↦ deliver pieces (receive piece state) waits left
          | inr settled ↦ on_events-settled (chunk_events pieces) _ _ settled
        ])

-- A frame that the client takes as the response to a request is what the transport resolves with, in
-- whatever pieces the socket gives its bytes.
pub on_events-resolved :
    (frame : List ℕ) (expected : Expected) (response : Response) (pieces : List (List ℕ))
    → decode_response_frame frame expected ≡ ok response
    → concat_chunks pieces ≡ frame
    → (on_events (chunk_events pieces) incoming).settled ≡ some (resolved frame)
unfolding concat_chunks
on_events-resolved frame expected response pieces e same =
    let a = decode_response_frame-Answers frame expected response e in
    deliver frame
      (record {
        declared = λ n h. declared_frame_bytes-take frame expected response n e h;
        long_enough = omega (arith, a.whole);
        fits = omega (arith, a.whole, a.bounded);
      })
      pieces incoming (record { so_far = same; counted = refl; known = inl refl; unsettled = refl })
      (omega (arith, a.whole, ap length same))
