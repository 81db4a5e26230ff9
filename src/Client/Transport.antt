-- ===== src/Client/Transport.antt =====
-- clients/bun/framrpc.mjs: `framTcpTransport`, what it makes of the events of its socket. The socket
-- is Bun's: its events are arguments, in their order.
pub mod Delivered
use fram.Prelude.{
  ℕ, ◌+◌, Bool, Option, none, some, List, [], ◌∷◌, ◌++◌, ltb, leb, ◌==◌, if◌then◌else◌, length, ok,
  err,
}
use fram.Client.Codes.{Code, Res, frame_too_large, trailing_bytes}
use fram.Client.Request.{max_frame_bytes}
use fram.Client.Response.Frame.{framrpc_declared_frame_bytes}

pub data SocketEvent : Type 0 where
  data_chunk : List ℕ → SocketEvent
  aborts times_out ends fails : SocketEvent

-- How the promise of a request settles.
pub data Settled : Type 0 where
  resolved : List ℕ → Settled
  protocol_error : Code → Settled
  transport_error : SocketEvent → Settled

pub record Incoming : Type 0 where
  pub chunks : List (List ℕ)
  pub received : ℕ
  pub declared : Option ℕ
  pub settled : Option Settled

abbrev pub incoming : Incoming
incoming = record { chunks = []; received = 0; declared = none; settled = none }

-- `finish`, where nothing has settled.
abbrev pub finish_with : Settled → Incoming → Incoming
finish_with outcome state = record state { settled = some outcome }

-- `concatChunks`, whose length is that of the chunks.
unfoldable pub concat_chunks : List (List ℕ) → List ℕ
concat_chunks [] = []
concat_chunks (chunk ∷ chunks) = chunk ++ concat_chunks chunks

-- The declared length, read once the header is there.
abbrev pub declare : Option ℕ → ℕ → List ℕ → Res (Option ℕ)
declare (some size) received joined = ok (some size)
declare none received joined =
    if leb 26 received then framrpc_declared_frame_bytes joined else ok none

-- The comparison of what was received with what is declared.
abbrev pub compare : Res (Option ℕ) → List ℕ → Incoming → Incoming
compare (err code) joined state = finish_with (protocol_error code) state
compare (ok none) joined state = record state { declared = none }
compare (ok (some size)) joined state =
    let told : Incoming = record state { declared = some size } in
    if ltb size state.received
    then finish_with (protocol_error trailing_bytes) told
    else if state.received == size
    then finish_with (resolved joined) told
    else told

-- The handler of `data`, where nothing has settled.
unfoldable pub receive : List ℕ → Incoming → Incoming
receive chunk state =
    let more : Incoming = record state {
      chunks = state.chunks ++ chunk ∷ [];
      received = state.received + length chunk;
    } in
    let joined = concat_chunks more.chunks in
    if ltb max_frame_bytes more.received
    then finish_with (protocol_error frame_too_large) more
    else compare (declare more.declared more.received joined) joined more

abbrev pub on_event : SocketEvent → Incoming → Incoming
on_event (data_chunk chunk) state = receive chunk state
on_event aborts state = finish_with (transport_error aborts) state
on_event times_out state = finish_with (transport_error times_out) state
on_event ends state = finish_with (transport_error ends) state
on_event fails state = finish_with (transport_error fails) state

-- What has settled stays.
abbrev pub unless_settled : Option Settled → SocketEvent → Incoming → Incoming
unless_settled none event state = on_event event state
unless_settled (some outcome) event state = state

-- The events of a socket, in their order.
unfoldable pub on_events : List SocketEvent → Incoming → Incoming
on_events [] state = state
on_events (event ∷ events) state = on_events events (unless_settled state.settled event state)
