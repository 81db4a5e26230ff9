-- ===== src/Adapter/Chunks/Effects.antt =====
-- adapter.mjs: what `applyTo` of a ChunkedRange does to the storage, batch by batch, as one map
-- operation.
use fram.Prelude.{
  ℕ, zero, suc, ◌+◌, ◌*◌, ◌<◌, ◌≤◌, min, ◌≡◌, refl, sym, ap, ◌∙◌, inl, inr, false, ◌&&◌, Option,
  none, some, List, [], ◌∷◌, ◌++◌, ltb, leb, ◌==◌, if◌then◌else◌, length, take, drop, length-drop,
  take-drop, same_elems, Bool-cases, ==→eq, arith,
}
use fram.Text.{Text}
use fram.Adapter.Storage.{
  Stored, chunk, Storage, get, put, set_item, delete, delete_item, get-set_item, get-delete_item,
}
use fram.Adapter.Chunks.{
  ChunkedRange, chunk_key, batches, batches_from, entries, put_batches, delete_batches,
  chunk_writes, chunk_keys, indices, slice,
}
use fram.Adapter.Chunks.Keys.{chunk_key-same}

pub put-append : (a b : List (Text × Stored)) (map : Storage) → put (a ++ b) map ≡ put b (put a map)
unfolding put
put-append [] b map = refl
put-append ((key, item) ∷ a) b map = put-append a b (set_item key item map)

entries-append : (a b : List (Text × List ℕ)) → entries (a ++ b) ≡ entries a ++ entries b
unfolding entries
entries-append [] b = refl
entries-append ((key, bytes) ∷ a) b =
    ap (λ (r : List (Text × Stored)). (key, chunk bytes) ∷ r) (entries-append a b)

pub delete-append :
    (a b : List Text) (map : Storage) → delete (a ++ b) map ≡ delete b (delete a map)
unfolding delete
delete-append [] b map = refl
delete-append (key ∷ a) b map = delete-append a b (delete_item key map)

put_batch :
    (size : ℕ) (writes : List (Text × List ℕ)) (map : Storage)
    → put (entries (drop size writes)) (put (entries (take size writes)) map)
      ≡ put (entries writes) map
put_batch size writes map =
    sym (put-append (entries (take size writes)) (entries (drop size writes)) map)
    ∙ ap (λ (e : List (Text × Stored)). put e map)
        (sym (entries-append (take size writes) (drop size writes))
          ∙ ap entries (take-drop size writes))

put_batches_from :
    (fuel size : ℕ) (writes : List (Text × List ℕ)) (range : ChunkedRange) (map : Storage)
    → 0 < size
    → length writes ≤ fuel
    → (put_batches (batches_from fuel size writes) (range, map)).1 ≡ put (entries writes) map
unfolding put_batches batches_from
put_batches_from zero size [] range map hs h = unfold put entries in refl
put_batches_from zero size (w ∷ writes) range map hs h = absurd (omega arith)
put_batches_from (suc fuel) size [] range map hs h = unfold put entries in refl
put_batches_from (suc fuel) size (w ∷ writes) range map hs h =
    put_batches_from fuel size (drop size (w ∷ writes)) _ _ hs
      (omega (arith, length-drop size (w ∷ writes)))
    ∙ put_batch size (w ∷ writes) map

-- The batches of the writes put what one put of all of them puts.
pub put_batches-batches :
    (size : ℕ) (writes : List (Text × List ℕ)) (range : ChunkedRange) (map : Storage)
    → 0 < size
    → (put_batches (batches size writes) (range, map)).1 ≡ put (entries writes) map
unfolding batches
put_batches-batches size writes range map hs =
    put_batches_from (length writes) size writes range map hs (omega arith)

delete_batch :
    (size : ℕ) (keys : List Text) (map : Storage)
    → delete (drop size keys) (delete (take size keys) map) ≡ delete keys map
delete_batch size keys map =
    sym (delete-append (take size keys) (drop size keys) map)
    ∙ ap (λ (k : List Text). delete k map) (take-drop size keys)

delete_batches_from :
    (fuel size : ℕ) (keys : List Text) (range : ChunkedRange) (map : Storage)
    → 0 < size
    → length keys ≤ fuel
    → (delete_batches (batches_from fuel size keys) (range, map)).1 ≡ delete keys map
unfolding delete_batches batches_from
delete_batches_from zero size [] range map hs h = unfold delete in refl
delete_batches_from zero size (k ∷ keys) range map hs h = absurd (omega arith)
delete_batches_from (suc fuel) size [] range map hs h = unfold delete in refl
delete_batches_from (suc fuel) size (k ∷ keys) range map hs h =
    delete_batches_from fuel size (drop size (k ∷ keys)) _ _ hs
      (omega (arith, length-drop size (k ∷ keys)))
    ∙ delete_batch size (k ∷ keys) map

pub delete_batches-batches :
    (size : ℕ) (keys : List Text) (range : ChunkedRange) (map : Storage)
    → 0 < size
    → (delete_batches (batches size keys) (range, map)).1 ≡ delete keys map
unfolding batches
delete_batches-batches size keys range map hs =
    delete_batches_from (length keys) size keys range map hs (omega arith)

-- The range keeps its configuration and its chunk count; only its counters move.
pub data SameRange : ChunkedRange → ChunkedRange → Type 0 where
  same :
      {r s : ChunkedRange}
      → r.prefix ≡ s.prefix
      → r.chunk_bytes ≡ s.chunk_bytes
      → r.batch_keys ≡ s.batch_keys
      → r.chunk_count ≡ s.chunk_count
      → SameRange r s

pub prefix_eq : {r s : ChunkedRange} → SameRange r s → r.prefix ≡ s.prefix
prefix_eq (same a b c d) = a

pub chunk_bytes_eq : {r s : ChunkedRange} → SameRange r s → r.chunk_bytes ≡ s.chunk_bytes
chunk_bytes_eq (same a b c d) = b

pub batch_keys_eq : {r s : ChunkedRange} → SameRange r s → r.batch_keys ≡ s.batch_keys
batch_keys_eq (same a b c d) = c

pub trans : {r s t : ChunkedRange} → SameRange r s → SameRange s t → SameRange r t
trans (same a b c d) (same a' b' c' d') = same (a ∙ a') (b ∙ b') (c ∙ c') (d ∙ d')

pub put_batches-SameRange :
    (all : List (List (Text × List ℕ))) (range : ChunkedRange) (map : Storage)
    → SameRange (put_batches all (range, map)).0 range
unfolding put_batches
put_batches-SameRange [] range map = same refl refl refl refl
put_batches-SameRange (batch ∷ rest) range map =
    trans (put_batches-SameRange rest _ _) (same refl refl refl refl)

pub delete_batches-SameRange :
    (all : List (List Text)) (range : ChunkedRange) (map : Storage)
    → SameRange (delete_batches all (range, map)).0 range
unfolding delete_batches
delete_batches-SameRange [] range map = same refl refl refl refl
delete_batches-SameRange (batch ∷ rest) range map =
    trans (delete_batches-SameRange rest _ _) (same refl refl refl refl)

-- The chunk that a plan writes at index `i`.
abbrev pub chunk_of : ChunkedRange → List ℕ → ℕ → ℕ → List ℕ
chunk_of range bytes size i =
    slice (i * range.chunk_bytes) (min (i * range.chunk_bytes + range.chunk_bytes) size) bytes

-- One more index at the front of a run of indices.
run_step :
    (f : ℕ → Option Stored) (first n k : ℕ) (other : Option Stored)
    → (if leb (suc first) k && ltb k (suc first + n)
        then f k
        else (if first == k then f first else other))
      ≡ (if leb first k && ltb k (first + suc n) then f k else other)
run_step f first n k other = elim (Bool-cases (first == k)) [
  | inl e ↦ rw (==→eq first k e) (ground arith)
  | inr e ↦ ground arith
]

pub get-put_writes :
    (range : ChunkedRange) (bytes : List ℕ) (size first n k : ℕ) (map : Storage)
    → get
        (chunk_key range.prefix k)
        (put (entries (chunk_writes range bytes size (indices first n))) map)
      ≡ (if leb first k && ltb k (first + n)
          then some (chunk (chunk_of range bytes size k))
          else get (chunk_key range.prefix k) map)
unfolding put entries chunk_writes indices
get-put_writes range bytes size first zero k map = ground arith
get-put_writes range bytes size first (suc n) k map =
    get-put_writes range bytes size (suc first) n k _
    ∙ rw
        (
          get-set_item (chunk_key range.prefix first) (chunk_key range.prefix k)
              (chunk (chunk_of range bytes size first)) map,
          chunk_key-same range.prefix first k,
        )
        (run_step (λ (i : ℕ). some (chunk (chunk_of range bytes size i))) first n k _)

pub get-delete_keys :
    (prefix : Text) (first n k : ℕ) (map : Storage)
    → get (chunk_key prefix k) (delete (chunk_keys prefix (indices first n)) map)
      ≡ (if leb first k && ltb k (first + n) then none else get (chunk_key prefix k) map)
unfolding delete chunk_keys indices
get-delete_keys prefix first zero k map = ground arith
get-delete_keys prefix first (suc n) k map =
    get-delete_keys prefix (suc first) n k _
    ∙ rw
        (
          get-delete_item (chunk_key prefix first) (chunk_key prefix k) map,
          chunk_key-same prefix first k,
        )
        (run_step (λ (i : ℕ). none) first n k _)

-- A key that no chunk has keeps its value.
pub get-put_foreign :
    (range : ChunkedRange) (bytes : List ℕ) (size first n : ℕ) (j : Text) (map : Storage)
    → ((i : ℕ) → same_elems (chunk_key range.prefix i) j ≡ false)
    → get j (put (entries (chunk_writes range bytes size (indices first n))) map) ≡ get j map
unfolding put entries chunk_writes indices
get-put_foreign range bytes size first zero j map apart = refl
get-put_foreign range bytes size first (suc n) j map apart =
    get-put_foreign range bytes size (suc first) n j _ apart
    ∙ rw
        (
          get-set_item (chunk_key range.prefix first) j (chunk (chunk_of range bytes size first))
              map,
          apart first,
        )
        refl

pub get-delete_foreign :
    (prefix : Text) (first n : ℕ) (j : Text) (map : Storage)
    → ((i : ℕ) → same_elems (chunk_key prefix i) j ≡ false)
    → get j (delete (chunk_keys prefix (indices first n)) map) ≡ get j map
unfolding delete chunk_keys indices
get-delete_foreign prefix first zero j map apart = refl
get-delete_foreign prefix first (suc n) j map apart =
    get-delete_foreign prefix (suc first) n j _ apart
    ∙ rw (get-delete_item (chunk_key prefix first) j map, apart first) refl
