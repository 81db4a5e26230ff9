-- ===== src/Adapter/Chunks/Commit.antt =====
-- adapter.mjs: a commit of a ChunkedRange, from `plan` over `applyTo` to `settle`.
use fram.Prelude.{
  ℕ, ◌+◌, ◌-◌, ◌*◌, ◌/◌, ◌<◌, ◌≤◌, ◌≡◌, refl, ap, ◌∙◌, inl, inr, true, ◌&&◌, none, some, List, ltb,
  leb, if◌then◌else◌, take, Bool-cases, arith,
}
use fram.Adapter.Storage.{chunk, meta, Storage, get, put, set_item, delete}
use fram.Adapter.Chunks.{
  ChunkedRange, Plan, chunk_key, meta_key, chunks_of, entries, put_batches, batches, publish,
  apply_to,
}
use fram.Adapter.Chunks.Effects.{
  chunk_of, put_batches-batches, delete_batches-batches, put_batches-SameRange,
  delete_batches-SameRange, SameRange, same, trans, prefix_eq, chunk_bytes_eq,
}
use fram.Adapter.Chunks.Arithmetic.{lt-chunks_of, chunks_of-le, lt-first, chunk_of-agree}

-- The storage holds the first `size` bytes as chunks of the range, and no other chunk of it.
pub record HoldsChunks (map : Storage) (range : ChunkedRange) (bytes : List ℕ) (size : ℕ)
    : Type 0 where
  pub chunk_at :
      (k : ℕ)
      → get (chunk_key range.prefix k) map ≡ (
          if ltb (k * range.chunk_bytes) size
          then some (chunk (chunk_of range bytes size k))
          else none)
  pub counted : range.chunk_count ≡ some (chunks_of size range.chunk_bytes)

pub HoldsChunks-SameRange :
    {range other : ChunkedRange} (map : Storage) (bytes : List ℕ) (size : ℕ)
    → SameRange other range
    → HoldsChunks map range bytes size
    → HoldsChunks map other bytes size
HoldsChunks-SameRange map bytes size (same p c k n) held = record {
  chunk_at = λ k. rw (p, c) (held.chunk_at k);
  counted = n ∙ held.counted ∙ rw c refl;
}

-- It says so in the range's `meta`.
abbrev pub Published : Storage → ChunkedRange → ℕ → Type 0
Published map range size = get (meta_key range.prefix) map ≡ some (meta size range.chunk_bytes)

-- The configuration of a range that `load` and `applyTo` work through.
abbrev pub IsConfigured : ChunkedRange → Type 0
IsConfigured range = (0 < range.chunk_bytes) × (0 < range.batch_keys)

SameRange-publish :
    (pl : Plan) (range : ChunkedRange) (map : Storage) → SameRange (publish pl (range, map)).0 range
unfolding publish
SameRange-publish pl range map = elim (Bool-cases pl.publish_meta) [
  | inl e ↦ rw e (same refl refl refl refl)
  | inr e ↦ rw e (same refl refl refl refl)
]

-- Applying a plan keeps the range's configuration and its chunk count.
pub apply_to-SameRange :
    (pl : Plan) (range : ChunkedRange) (map : Storage)
    → SameRange (apply_to pl (range, map)).0 range
unfolding apply_to
apply_to-SameRange pl range map = trans (SameRange-publish pl _ _) (
    trans (delete_batches-SameRange (batches range.batch_keys pl.stale) _ _)
      (put_batches-SameRange (batches range.batch_keys pl.writes) range map))

publish-map :
    (pl : Plan) (range r : ChunkedRange) (map : Storage)
    → pl.publish_meta ≡ true
    → SameRange r range
    → (publish pl (r, map)).1
      ≡ set_item (meta_key range.prefix) (meta pl.size range.chunk_bytes) map
unfolding publish
publish-map pl range r map hp kept = rw (hp, prefix_eq kept, chunk_bytes_eq kept) refl

-- The storage that a plan leaves, where it publishes its `meta`.
pub apply_to-map :
    (pl : Plan) (range : ChunkedRange) (map : Storage)
    → 0 < range.batch_keys
    → pl.publish_meta ≡ true
    → (apply_to pl (range, map)).1
      ≡ set_item
          (meta_key range.prefix)
          (meta pl.size range.chunk_bytes)
          (delete pl.stale (put (entries pl.writes) map))
unfolding apply_to
apply_to-map pl range map hb hp =
    let written = put_batches (batches range.batch_keys pl.writes) (range, map) in
    publish-map pl range _ _ hp (
      trans (delete_batches-SameRange (batches range.batch_keys pl.stale) written.0 written.1)
        (put_batches-SameRange (batches range.batch_keys pl.writes) range map))
    ∙ ap (set_item (meta_key range.prefix) (meta pl.size range.chunk_bytes)) (
        delete_batches-batches range.batch_keys pl.stale written.0 written.1 hb
        ∙ ap (delete pl.stale) (put_batches-batches range.batch_keys pl.writes range map hb))

module _ (range : ChunkedRange) (old new : List ℕ) (old_size size low k : ℕ) where
  -- The value of chunk `k` after the writes and the deletions of a plan.
  pub chunk_after :
      0 < range.chunk_bytes
      → low ≤ old_size
      → low ≤ size
      → take low old ≡ take low new
      → let first = low / range.chunk_bytes in
        let chunks = chunks_of size range.chunk_bytes in
        let count = chunks_of old_size range.chunk_bytes in
        (if leb chunks k && ltb k (chunks + (count - chunks))
          then none
          else (if leb first k && ltb k (first + (chunks - first))
              then some (chunk (chunk_of range new size k))
              else (if ltb (k * range.chunk_bytes) old_size
                  then some (chunk (chunk_of range old old_size k))
                  else none)))
        ≡ (if ltb (k * range.chunk_bytes) size
            then some (chunk (chunk_of range new size k))
            else none)
  chunk_after hc ho hn agree =
      let cb = range.chunk_bytes in
      ground (
        arith,
        lt-chunks_of k size cb,
        chunks_of-le k size cb,
        lt-chunks_of k old_size cb,
        chunks_of-le k old_size cb,
        lt-first k low cb,
        chunk_of-agree range old new old_size size low k,
      )
