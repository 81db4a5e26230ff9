-- ===== src/Lib.antt =====
-- Fram's JavaScript side: the FRAMRPC client and the Durable Object adapter of the store.
--
-- A client turns a call into a request frame: a header of 26 bytes and a body of Terms, the recursive
-- data of the store, in UTF-8, two's complement and IEEE bits. A host transport carries the frame to
-- a Durable Object, which reads the envelope, decides whether the request may enter the engine, and
-- publishes what the engine wrote to its storage in chunks, in one transaction.
--
-- Text and its children model what the code uses of the JavaScript language: strings as UTF-16 code
-- units, `TextEncoder` and the fatal `TextDecoder` (Text.Utf8, the state machine of the Encoding
-- standard), `BigInt`, `toString` and `padStart` (Text.Numeral).
-- Client models clients/bun/framrpc-core.mjs: Terms and `validateTerm` (Client.Term), `term` and the
-- constructors (Client.Value), class Writer (Client.Bytes), class Reader (Client.Reader), requests
-- (Client.Request), RPC lists and records (Client.Records) and responses (Client.Response and its
-- child Frame), and the values of payloads (Client.Results and its child Operation).
-- Client.Transport models clients/bun/framrpc.mjs: what `framTcpTransport` makes of the events of its
-- socket, which are arguments. The other children of Client are proofs.
-- Adapter models clients/cloudflare-do/src/adapter.mjs: `inspectFramRpcRequest` and the checks of
-- `exchange` (Adapter.Requests).
-- Adapter.Storage models class MemoryStorage as a finite map, Adapter.Chunks class ChunkedRange
-- (`load`, `plan`, `applyTo`, `settle`), Adapter.HostImage class HostImage, and Adapter.Store class
-- DurableFramStore with `#commit` of FramInstance. Their children are proofs: the keys that chunks
-- have (Chunks.Keys), what a plan does to the map (Chunks.Effects, Chunks.Commit, Chunks.Durable),
-- reading back (Chunks.Image, Chunks.Steps, Chunks.Load), an image against the durable bytes
-- (HostImage.Tracks) and whole commits (Store.Commit, Store.Lands, Store.Rejects, Store.Reload). The
-- end of a transaction, landed or rejected, is an argument of a commit. The loop that doubles a
-- buffer and the loop over batches have a fuel: each round doubles a positive capacity, or takes an
-- item at least. Adapter.Clear models `list` of MemoryStorage and `clearPlan` of ChunkedRange, with a
-- fuel of one round more than the storage has keys: each round but the last takes a key. Its children
-- are the order of keys (Order, Sorting), one page (Pages), all of them (Complete) and the plan applied
-- (Cleared). A test storage's delays are not modelled.
-- Adapter.Arena models class GuestArena over the bytes of the guest's memory (Adapter.Memory). Its
-- children hold the blocks that were cut (Blocks), the sizes (Classes), the steps of a guest between
-- two points (Life), that they keep the arena sound (Cut, Sound), and what a guest is given (Grants,
-- Reuse). What `memory.grow` does is an argument, its exception included; the doubling of a class
-- has the size as its fuel, and addresses stay below 2^31, where the 32-bit operators are not
-- negative.
-- Adapter.Instance models class FramInstance: the calls that a guest makes of `fram_host_v1` on the two
-- objects, `#callNow` with the commit behind it, and in its child Opening `open`, `close`, `fence` and
-- `portableFramlog`. What a guest does in a call is an argument: the calls that it makes, in order,
-- and the reply or the exception that it ends with. Adapter.Object models class
-- FramDurableObjectBase: `fram`, `#boot`, `#use`, `exchange` and `recycle`, each a step, and an
-- eviction of the isolate between two steps. Adapter.Backup models a portable backup and its checks,
-- and Object.Export, Object.Restore and Object.Publish `exportFramlog` and `restoreFramlog`: the checks
-- before the fence, the replacement in one transaction with its marker, and the guest that is opened on
-- what was published. SHA-256 is a parameter. The store that a preflight loads from is the host itself, with
-- the array of the backup's bytes beside it, which the log image shares and writes in place until it
-- needs a longer one (Object.Restore),
-- and the store that refuses every commit is a transaction that is rejected, since a commit without
-- parts does not reach the store. The other children of both are proofs; Store.Saved and
-- Instance.Opened say what a storage holds as bytes.
-- Adapter.Status models the header of a FRAMLOG, `parseFramlogHeader`, and the status request of a
-- backup, `statusFrame` and `decodeStatusServedVersion`.
-- Examples holds runs at concrete inputs.
--
-- A thrown error is a value with its code; messages are left out. A writer is the bytes that it has
-- been given, a reader the bytes that are left to it. A value that is no Term is the constructor
-- `malformed` with the code that it is refused by. The reader's recursion is on the depths left below
-- MAX_TERM_DEPTH, which is the code's own limit, so it needs no fuel; `toString` has a fuel above the
-- number, and a digit is taken off each round.
--
-- Not modelled: the engine behind the adapter (a WebAssembly guest), the network, timers and abort
-- signals, and the schema, backup and capacity tools.
pub mod Prelude
pub mod Text
pub mod Client
pub mod Adapter
mod Examples
