-- ===== src/Adapter/Chunks.antt =====
-- adapter.mjs: class ChunkedRange, one storage object as chunked values under a key prefix.
pub mod Steps
pub mod Load
pub mod Image
pub mod Durable
pub mod Commit
pub mod Arithmetic
pub mod Effects
pub mod Keys
use fram.Prelude.{
  ℕ, zero, suc, ◌+◌, ◌-◌, ◌*◌, ◌/◌, min, Bool, true, false, Option, none, some, List, [], ◌∷◌, ◌++◌,
  ltb, ◌==◌, if◌then◌else◌, length, take, drop, replicate, Result, ok, err, ◌>>=◌,
}
use fram.Text.{Text, codes}
use fram.Text.Numeral.{to_string, pad_start}
use fram.Adapter.Storage.{Stored, chunk, meta, Storage, get, put, set_item, delete}

pub record ChunkedRange : Type 0 where
  pub prefix : Text
  pub chunk_bytes : ℕ
  pub batch_keys : ℕ
  -- unknown until `load`
  pub chunk_count : Option ℕ
  pub puts : ℕ
  pub gets : ℕ
  pub deletes : ℕ
  pub bytes_written : ℕ
  pub bytes_read : ℕ

-- The constructor, for a prefix, a chunk size and the keys of a batch.
unfoldable pub new_range : Text → ℕ → ℕ → ChunkedRange
new_range prefix chunk_bytes batch_keys = record {
  prefix = prefix;
  chunk_bytes = chunk_bytes;
  batch_keys = min batch_keys 128;
  chunk_count = none;
  puts = 0;
  gets = 0;
  deletes = 0;
  bytes_written = 0;
  bytes_read = 0;
}

unfoldable pub meta_key : Text → Text
meta_key prefix = prefix ++ codes "meta"

unfoldable pub chunk_key : Text → ℕ → Text
chunk_key prefix index = prefix ++ pad_start 8 (to_string 10 index)

pub data ChunkError : Type 0 where
  never_loaded torn : ChunkError

-- `Math.ceil(length / chunkBytes)`
abbrev pub chunks_of : ℕ → ℕ → ℕ
chunks_of length chunk_bytes = (length + chunk_bytes - 1) / chunk_bytes

-- The indices from `start`, `count` of them.
unfoldable pub indices : ℕ → ℕ → List ℕ
indices start zero = []
indices start (suc count) = start ∷ indices (suc start) count

-- `for (let base = 0; base < items.length; base += size) items.slice(base, base + size)`. Each round
-- takes an item at least where `size` is positive, so a fuel of `length items` is enough.
unfoldable pub batches_from {ℓ} : {A : Type ℓ} → ℕ → ℕ → List A → List (List A)
batches_from zero size items = []
batches_from (suc fuel) size [] = []
batches_from (suc fuel) size (x ∷ items) =
    take size (x ∷ items) ∷ batches_from fuel size (drop size (x ∷ items))

unfoldable pub batches {ℓ} : {A : Type ℓ} → ℕ → List A → List (List A)
batches size items = batches_from (length items) size items

-- `bytes.slice(start, end)`
abbrev pub slice : ℕ → ℕ → List ℕ → List ℕ
slice start end bytes = take (end - start) (drop start bytes)

-- `image.set(bytes, at)` within the image.
unfoldable pub set_bytes : List ℕ → ℕ → List ℕ → List ℕ
set_bytes image at bytes = take at image ++ (bytes ++ drop (at + length bytes) image)

-- What a chunk's key holds, as the bytes that `load` reads of it. An object that is a `meta` is read as
-- an array of its length without elements.
unfoldable pub chunk_value : Option Stored → Result ChunkError (List ℕ)
chunk_value none = err torn
chunk_value (some (chunk bytes)) = ok bytes
chunk_value (some (meta size chunk_bytes)) = ok (replicate size 0)

-- The inner loop of `load`, over the indices of one batch.
unfoldable pub load_batch :
    Storage → ℕ → List ℕ → ChunkedRange × List ℕ → Result ChunkError (ChunkedRange × List ℕ)
load_batch map size [] state = ok state
load_batch map size (i ∷ rest) (range, image) = do
  bytes ← chunk_value (get (chunk_key range.prefix i) map)
  let at = i * range.chunk_bytes
  load_batch map size rest (
    record range { bytes_read = range.bytes_read + length bytes },
    set_bytes image at (take (min (length bytes) (size - at)) bytes),
  )

-- The outer loop, over the batches.
unfoldable pub load_batches :
    Storage → ℕ → List (List ℕ) → ChunkedRange × List ℕ → Result ChunkError (ChunkedRange × List ℕ)
load_batches map size [] state = ok state
load_batches map size (batch ∷ rest) (range, image) = do
  state ← load_batch map size batch (record range { gets = range.gets + 1 }, image)
  load_batches map size rest state

-- `load` behind its `meta`, of this `length` and this `chunkBytes`, 0 where it has none.
abbrev pub load_sized : Storage → ChunkedRange → ℕ → ℕ → Result ChunkError (ChunkedRange × List ℕ)
load_sized map range size written =
    let chunk_bytes = if written == 0 then range.chunk_bytes else written in
    let chunks = chunks_of size chunk_bytes in
    load_batches map size (batches range.batch_keys (indices 0 chunks))
      (record range { chunk_bytes = chunk_bytes; chunk_count = some chunks }, replicate size 0)

-- An array in place of the `meta` has a `length` too.
unfoldable pub load_from :
    Storage → ChunkedRange → Option Stored → Result ChunkError (ChunkedRange × List ℕ)
load_from map range none = ok (record range { chunk_count = some 0 }, [])
load_from map range (some (chunk bytes)) = load_sized map range (length bytes) 0
load_from map range (some (meta size written)) = load_sized map range size written

unfoldable pub load : Storage → ChunkedRange → Result ChunkError (ChunkedRange × List ℕ)
load map range =
    load_from map (record range { gets = range.gets + 1 }) (get (meta_key range.prefix) map)

pub record Plan : Type 0 where
  pub writes : List (Text × List ℕ)
  pub stale : List Text
  pub chunks : ℕ
  pub size : ℕ
  pub publish_meta : Bool

-- The writes of `plan`, for the indices of the chunks.
unfoldable pub chunk_writes : ChunkedRange → List ℕ → ℕ → List ℕ → List (Text × List ℕ)
chunk_writes range bytes size [] = []
chunk_writes range bytes size (i ∷ rest) =
    let at = i * range.chunk_bytes in
    let end = min (at + range.chunk_bytes) size in
    (chunk_key range.prefix i, slice at end bytes) ∷ chunk_writes range bytes size rest

unfoldable pub chunk_keys : Text → List ℕ → List Text
chunk_keys prefix [] = []
chunk_keys prefix (i ∷ rest) = chunk_key prefix i ∷ chunk_keys prefix rest

unfoldable pub plan_with : ChunkedRange → ℕ → List ℕ → ℕ → ℕ → Plan
plan_with range count bytes size low_water =
    let first = low_water / range.chunk_bytes in
    let chunks = chunks_of size range.chunk_bytes in
    record {
      writes = chunk_writes range bytes size (indices first (chunks - first));
      stale = chunk_keys range.prefix (indices chunks (count - chunks));
      chunks = chunks;
      size = size;
      publish_meta = true;
    }

unfoldable pub plan : ChunkedRange → List ℕ → ℕ → ℕ → Result ChunkError Plan
plan range bytes size low_water = elim range.chunk_count [
  | none ↦ err never_loaded
  | some count ↦ ok (plan_with range count bytes size low_water)
]

unfoldable pub total_bytes : List (Text × List ℕ) → ℕ
total_bytes [] = 0
total_bytes ((key, bytes) ∷ rest) = length bytes + total_bytes rest

unfoldable pub entries : List (Text × List ℕ) → List (Text × Stored)
entries [] = []
entries ((key, bytes) ∷ rest) = (key, chunk bytes) ∷ entries rest

-- The loop of `applyTo` over the batches of writes.
unfoldable pub put_batches :
    List (List (Text × List ℕ)) → ChunkedRange × Storage → ChunkedRange × Storage
put_batches [] state = state
put_batches (batch ∷ rest) (range, map) = put_batches rest (
  record range { puts = range.puts + 1; bytes_written = range.bytes_written + total_bytes batch },
  put (entries batch) map,
)

-- The loop of `applyTo` over the batches of stale keys.
unfoldable pub delete_batches : List (List Text) → ChunkedRange × Storage → ChunkedRange × Storage
delete_batches [] state = state
delete_batches (batch ∷ rest) (range, map) =
    delete_batches rest (record range { deletes = range.deletes + 1 }, delete batch map)

unfoldable pub publish : Plan → ChunkedRange × Storage → ChunkedRange × Storage
publish plan (range, map) =
    if plan.publish_meta
    then (
      record range { puts = range.puts + 1 },
      set_item (meta_key range.prefix) (meta plan.size range.chunk_bytes) map,
    )
    else (range, map)

unfoldable pub apply_to : Plan → ChunkedRange × Storage → ChunkedRange × Storage
apply_to plan (range, map) = publish plan (
    delete_batches (batches range.batch_keys plan.stale)
      (put_batches (batches range.batch_keys plan.writes) (range, map)))

unfoldable pub settle : Plan → ChunkedRange → ChunkedRange
settle plan range = record range { chunk_count = some plan.chunks }
