-- ===== src/Adapter/Chunks/Steps.antt =====
-- adapter.mjs: one step of the loops of `load`: a chunk set in the image, and a batch of indices.
use fram.Prelude.{
  ℕ, zero, suc, ◌+◌, ◌-◌, ◌*◌, ◌<◌, ◌≤◌, min, ◌≡◌, refl, ap, ◌∙◌, List, ◌∷◌, length, take, drop,
  length-take, drop-take, take-take, arith, Result, ok,
}
use fram.Adapter.Chunks.{ChunkedRange, ChunkError, indices, slice, set_bytes}
use fram.Adapter.Chunks.Effects.{chunk_of, SameRange}
use fram.Adapter.Chunks.Image.{image_at, take-all, set_bytes-image_at}

-- Part of a loop of `load`: it moves the image on to `stop`, and changes counters of the range only.
abbrev pub Moves : ChunkedRange → List ℕ → ℕ → Result ChunkError (ChunkedRange × List ℕ) → Type 0
Moves range bytes stop result =
    (r : ChunkedRange) × SameRange r range × (result ≡ ok (r, image_at bytes stop))

-- Where chunk `i` starts, at most at the end of the bytes.
abbrev pub start_of : ℕ → ℕ → ℕ → ℕ
start_of cb size i = min (i * cb) size

pub chunk_of-slice :
    (range : ChunkedRange) (bytes : List ℕ) (size i : ℕ)
    → i * range.chunk_bytes < size
    → chunk_of range bytes size i
      ≡ slice
          (start_of range.chunk_bytes size i)
          (start_of range.chunk_bytes size (suc i))
          (take size bytes)
chunk_of-slice range bytes size i h =
    let cb = range.chunk_bytes in
    let at : start_of cb size i ≡ i * cb = omega arith in
    let next : start_of cb size (suc i) ≡ min (i * cb + cb) size = omega arith in
    rw
      (
        at,
        next,
        drop-take (i * cb) (min (i * cb + cb) size) (take size bytes),
        take-take (min (i * cb + cb) size) size bytes (omega arith),
      )
      (drop-take (i * cb) (min (i * cb + cb) size) bytes)

-- Setting chunk `i` moves the image from its start to the next chunk's.
pub set_chunk :
    (range : ChunkedRange) (bytes : List ℕ) (size i : ℕ)
    → size ≤ length bytes
    → i * range.chunk_bytes < size
    → let c = chunk_of range bytes size i in
      set_bytes
        (image_at (take size bytes) (start_of range.chunk_bytes size i))
        (i * range.chunk_bytes)
        (take (min (length c) (size - i * range.chunk_bytes)) c)
      ≡ image_at (take size bytes) (start_of range.chunk_bytes size (suc i))
set_chunk range bytes size i hb h =
    let cb = range.chunk_bytes in
    let c = chunk_of range bytes size i in
    let whole : take (min (length c) (size - i * cb)) c ≡ c =
      let short : min (length c) (size - i * cb) ≡ length c =
        omega (arith, length-take (min (i * cb + cb) size - i * cb) (drop (i * cb) bytes)) in
      rw short (take-all (length c) c (omega arith)) in
    let at : i * cb ≡ start_of cb size i = omega arith in
    rw (whole, chunk_of-slice range bytes size i h)
      (ap
          (λ (a : ℕ).
            set_bytes (image_at (take size bytes) (start_of cb size i)) a
              (slice (start_of cb size i) (start_of cb size (suc i)) (take size bytes)))
          at
        ∙ set_bytes-image_at (start_of cb size i) (start_of cb size (suc i)) (take size bytes)
            (omega arith) (omega (arith, length-take size bytes)))

pub take-indices : (size i n : ℕ) → take size (indices i n) ≡ indices i (min size n)
unfolding take indices
take-indices zero i n = let e : min 0 n ≡ 0 = omega arith in rw e refl
take-indices (suc size) i zero = let e : min (suc size) 0 ≡ 0 = omega arith in rw e refl
take-indices (suc size) i (suc n) =
    let e : min (suc size) (suc n) ≡ suc (min size n) = omega arith in
    rw e (ap (λ (r : List ℕ). i ∷ r) (take-indices size (suc i) n))

pub drop-indices :
    (size i n : ℕ) → drop size (indices i n) ≡ indices (i + min size n) (n - min size n)
unfolding drop indices
drop-indices zero i n =
    let e : min 0 n ≡ 0 = omega arith in
    let f : i + 0 ≡ i = omega arith in let g : n - 0 ≡ n = omega arith in rw (e, f, g) refl
drop-indices (suc size) i zero = let g : 0 - min (suc size) 0 ≡ 0 = omega arith in rw g refl
drop-indices (suc size) i (suc n) =
    let f : i + min (suc size) (suc n) ≡ suc i + min size n = omega arith in
    let g : suc n - min (suc size) (suc n) ≡ n - min size n = omega arith in
    rw (f, g) (drop-indices size (suc i) n)
