-- ===== src/Adapter/Chunks/Load.antt =====
-- adapter.mjs: `load` of a ChunkedRange reads back what the storage holds.
use fram.Prelude.{
  ℕ, zero, suc, ◌+◌, ◌-◌, ◌*◌, ◌<◌, ◌≤◌, min, ◌≡◌, refl, sym, ap, ◌∙◌, false, some, List, ◌==◌,
  length, take, replicate, length-take, arith, lt→ltb, ok, >>=-ok,
}
use fram.Adapter.Storage.{chunk, meta, Storage, get}
use fram.Adapter.Chunks.{
  ChunkedRange, chunk_key, chunks_of, indices, batches, batches_from, chunk_value, load_batch,
  load_batches, load_from, load,
}
use fram.Adapter.Chunks.Effects.{chunk_of, same, trans, chunk_bytes_eq, prefix_eq, batch_keys_eq}
use fram.Adapter.Chunks.Arithmetic.{lt-chunks_of, chunks_of-le}
use fram.Adapter.Chunks.Commit.{HoldsChunks, HoldsChunks-SameRange, Published}
use fram.Adapter.Chunks.Image.{image_at, image_at-all, image_at-none}
use fram.Adapter.Chunks.Steps.{Moves, start_of, set_chunk, take-indices, drop-indices}

-- `load` of a range reads back the bytes that the storage holds, whatever chunk size the range was
-- made with.
module _ (map : Storage) (bytes : List ℕ) (size : ℕ) (hb : size ≤ length bytes) where
  load_batch-Moves :
      (range : ChunkedRange) (i n : ℕ)
      → 0 < range.chunk_bytes
      → HoldsChunks map range bytes size
      → i + n ≤ chunks_of size range.chunk_bytes
      → Moves range (take size bytes) (start_of range.chunk_bytes size (i + n)) (
          load_batch map size
            (indices i n)
            (range, image_at (take size bytes) (start_of range.chunk_bytes size i)))
  unfolding load_batch indices chunk_value
  load_batch-Moves range i zero hc held h =
      (range, same refl refl refl refl, let e : i + 0 ≡ i = omega arith in rw e refl)
  load_batch-Moves range i (suc n) hc held h =
      let cb = range.chunk_bytes in
      let within = lt-chunks_of i size cb hc (omega arith) in
      let read : get (chunk_key range.prefix i) map ≡ some (chunk (chunk_of range bytes size i)) =
        held.chunk_at i ∙ rw (lt→ltb (i * cb) size within) refl in
      let next : ChunkedRange = record range {
        bytes_read = range.bytes_read + length (chunk_of range bytes size i);
      } in
      let (r, kept, e) =
        load_batch-Moves next (suc i) n hc
          (record { chunk_at = held.chunk_at; counted = held.counted }) (omega arith) in
      (
        r,
        trans kept (same refl refl refl refl),
        let last : i + suc n ≡ suc i + n = omega arith in
            rw (read, set_chunk range bytes size i hb within, last) e,
      )

  load_batch-Moves_at :
      (cb : ℕ) (range : ChunkedRange) (i n : ℕ)
      → range.chunk_bytes ≡ cb
      → 0 < cb
      → HoldsChunks map range bytes size
      → i + n ≤ chunks_of size cb
      → Moves range (take size bytes) (start_of cb size (i + n)) (
          load_batch map size
            (indices i n)
            (range, image_at (take size bytes) (start_of cb size i)))
  load_batch-Moves_at cb range i n hr hc held h =
      rw (sym hr) (load_batch-Moves range i n (omega arith) held (rw hr h))

  load_batches-Moves :
      (fuel batch_keys cb : ℕ) (range : ChunkedRange) (i n : ℕ)
      → 0 < batch_keys
      → n ≤ fuel
      → 0 < cb
      → range.chunk_bytes ≡ cb
      → HoldsChunks map range bytes size
      → i + n ≤ chunks_of size cb
      → Moves range (take size bytes) (start_of cb size (i + n)) (
          load_batches map size
            (batches_from fuel batch_keys (indices i n))
            (range, image_at (take size bytes) (start_of cb size i)))
  unfolding load_batches batches_from indices
  load_batches-Moves zero batch_keys cb range i zero hk hf hc hr held h =
      (range, same refl refl refl refl, let e : i + 0 ≡ i = omega arith in rw e refl)
  load_batches-Moves zero batch_keys cb range i (suc n) hk hf hc hr held h = absurd (omega arith)
  load_batches-Moves (suc fuel) batch_keys cb range i zero hk hf hc hr held h =
      (range, same refl refl refl refl, let e : i + 0 ≡ i = omega arith in rw e refl)
  load_batches-Moves (suc fuel) batch_keys cb range i (suc n) hk hf hc hr held h =
      let m = min batch_keys (suc n) in
      let round : ChunkedRange = record range { gets = range.gets + 1 } in
      let (r, kept, e) =
        load_batch-Moves_at cb round i m hr hc
          (record { chunk_at = held.chunk_at; counted = held.counted }) (omega arith) in
      let (s, kept', e') =
        load_batches-Moves fuel batch_keys cb r (i + m) (suc n - m) hk (omega arith) hc
          (chunk_bytes_eq kept ∙ hr)
          (HoldsChunks-SameRange map bytes size kept
            (record { chunk_at = held.chunk_at; counted = held.counted }))
          (omega arith) in
      let last : i + m + (suc n - m) ≡ i + suc n = omega arith in
      (
        s,
        trans kept' (trans kept (same refl refl refl refl)),
        rw (take-indices batch_keys i (suc n), drop-indices batch_keys i (suc n))
            (>>=-ok
                (load_batch map size (indices i m)
                  (round, image_at (take size bytes) (start_of cb size i)))
                _ e
              ∙ rw (sym last) e'),
      )

-- What a load leaves: the bytes of the storage, and a range that knows its chunks.
pub record Loaded (map : Storage) (range : ChunkedRange) (bytes : List ℕ) (size cb : ℕ)
    : Type 0 where
  pub loaded : ChunkedRange
  pub returns : load map range ≡ ok (loaded, take size bytes)
  pub holds : HoldsChunks map loaded bytes size
  pub keeps_prefix : loaded.prefix ≡ range.prefix
  pub keeps_batch_keys : loaded.batch_keys ≡ range.batch_keys
  pub takes_chunk_bytes : loaded.chunk_bytes ≡ cb

load_from_meta :
    (map : Storage) (range : ChunkedRange) (size cb : ℕ)
    → 0 < cb
    → load_from map range (some (meta size cb))
      ≡ load_batches map size (batches range.batch_keys (indices 0 (chunks_of size cb))) (
        record range { chunk_bytes = cb; chunk_count = some (chunks_of size cb) },
        replicate size 0,
      )
unfolding load_from
load_from_meta map range size cb hc = let given : (cb == 0) ≡ false = ground arith in rw given refl

length-indices : (i n : ℕ) → length (indices i n) ≡ n
unfolding indices
length-indices i zero = refl
length-indices i (suc n) = ap suc (length-indices (suc i) n)

-- The image before the first chunk, and after the last.
start_image :
    (bytes : List ℕ) (size cb : ℕ)
    → size ≤ length bytes
    → replicate size 0 ≡ image_at (take size bytes) (start_of cb size 0)
start_image bytes size cb hb =
    let e : start_of cb size 0 ≡ 0 = omega arith in
    let n : length (take size bytes) ≡ size = omega (arith, length-take size bytes) in
    rw e (sym (image_at-none (take size bytes) ∙ rw n refl))

final_image :
    (bytes : List ℕ) (size cb : ℕ)
    → size ≤ length bytes
    → 0 < cb
    → image_at (take size bytes) (start_of cb size (0 + chunks_of size cb)) ≡ take size bytes
final_image bytes size cb hb hc =
    let e : start_of cb size (0 + chunks_of size cb) ≡ length (take size bytes) = omega (
      arith,
      length-take size bytes,
      chunks_of-le (0 + chunks_of size cb) size cb hc (omega arith),
    ) in
    rw e (image_at-all (take size bytes))

-- `load` returns the bytes that the storage holds under the range's prefix, in chunks of the size
-- that its `meta` names.
pub load-Loaded :
    (map : Storage) (range stored : ChunkedRange) (bytes : List ℕ) (size : ℕ)
    → size ≤ length bytes
    → 0 < range.batch_keys
    → 0 < stored.chunk_bytes
    → stored.prefix ≡ range.prefix
    → HoldsChunks map stored bytes size
    → Published map stored size
    → Loaded map range bytes size stored.chunk_bytes
unfolding load batches
load-Loaded map range stored bytes size hb hk hc hp held published =
    let cb = stored.chunk_bytes in
    let chunks = chunks_of size cb in
    let start : ChunkedRange = record range {
      gets = range.gets + 1;
      chunk_bytes = cb;
      chunk_count = some chunks;
    } in
    let held_start : HoldsChunks map start bytes size = record {
      chunk_at = λ k. rw (sym hp) (held.chunk_at k);
      counted = refl;
    } in
    let (r, kept, e) =
      load_batches-Moves map bytes size hb (length (indices 0 chunks)) range.batch_keys cb start 0
        chunks hk (omega (arith, length-indices 0 chunks)) hc refl held_start (omega arith) in
    record {
      loaded = r;
      returns =
          ap (load_from map (record range { gets = range.gets + 1 })) (rw (sym hp) published)
          ∙ load_from_meta map (record range { gets = range.gets + 1 }) size cb hc
          ∙ ap
              (λ (image : List ℕ).
                load_batches map size (batches range.batch_keys (indices 0 chunks)) (start, image))
              (start_image bytes size cb hb)
          ∙ e
          ∙ ap (λ (image : List ℕ). ok (r, image)) (final_image bytes size cb hb hc);
      holds = HoldsChunks-SameRange map bytes size kept held_start;
      keeps_prefix = prefix_eq kept;
      keeps_batch_keys = batch_keys_eq kept;
      takes_chunk_bytes = chunk_bytes_eq kept;
    }
