-- ===== src/Adapter/Chunks/Arithmetic.antt =====
-- adapter.mjs: the arithmetic of a ChunkedRange's chunk indices.
use fram.Prelude.{
  ℕ, suc, ◌+◌, ◌-◌, ◌*◌, ◌/◌, ◌<◌, ◌≤◌, ◌≡◌, List, take, drop, min, ap, sym, ◌∙◌, drop-take,
  take-take, arith,
}
use native.Mathlib.Nat.{div-lt_iff_lt-mul, le-div_iff_mul-le}
use fram.Adapter.Chunks.{ChunkedRange, chunks_of}
use fram.Adapter.Chunks.Effects.{chunk_of}

-- A chunk below the count starts within the bytes.
pub lt-chunks_of : (k size cb : ℕ) → 0 < cb → k < chunks_of size cb → k * cb < size
lt-chunks_of k size cb hc h =
    let covered : suc k * cb ≤ size + cb - 1 =
      (le-div_iff_mul-le {k = cb} {x = suc k} {y = size + cb - 1} hc).0 (omega arith) in
    omega (arith, covered)

pub chunks_of-le : (k size cb : ℕ) → 0 < cb → chunks_of size cb ≤ k → size ≤ k * cb
chunks_of-le k size cb hc h =
    let covered : size + cb - 1 < suc k * cb =
      (div-lt_iff_lt-mul {k = cb} {x = size + cb - 1} {y = suc k} hc).0 (omega arith) in
    omega (arith, covered)

-- A chunk before the first rewritten one ends at or below the low water mark.
pub lt-first : (k low cb : ℕ) → 0 < cb → k < low / cb → k * cb + cb ≤ low
lt-first k low cb hc h =
    let covered : suc k * cb ≤ low =
      (le-div_iff_mul-le {k = cb} {x = suc k} {y = low} hc).0 (omega arith) in
    omega (arith, covered)

-- Bytes that agree below the low water mark have the same chunks below it.
pub chunk_of-agree :
    (range : ChunkedRange) (old new : List ℕ) (old_size size low k : ℕ)
    → take low old ≡ take low new
    → low ≤ old_size
    → low ≤ size
    → k * range.chunk_bytes + range.chunk_bytes ≤ low
    → chunk_of range old old_size k ≡ chunk_of range new size k
chunk_of-agree range old new old_size size low k agree ho hn h =
    let at = k * range.chunk_bytes in
    let end = k * range.chunk_bytes + range.chunk_bytes in
    let cut_old : min end old_size ≡ end = omega arith in
    let cut_new : min end size ≡ end = omega arith in
    rw (cut_old, cut_new, drop-take at end old, drop-take at end new)
      (ap (drop at) (sym (take-take end low old h) ∙ ap (take end) agree ∙ take-take end low new h))

-- Bytes that agree up to the size have the same chunks.
pub chunk_of-same_bytes :
    (range : ChunkedRange) (old new : List ℕ) (size k : ℕ)
    → take size old ≡ take size new
    → chunk_of range old size k ≡ chunk_of range new size k
chunk_of-same_bytes range old new size k agree =
    let at = k * range.chunk_bytes in
    let end = min (k * range.chunk_bytes + range.chunk_bytes) size in
    rw (drop-take at end old, drop-take at end new)
      (ap (drop at) (
        sym (take-take end size old (omega arith))
        ∙ ap (take end) agree
        ∙ take-take end size new (omega arith)))
