-- ===== src/Adapter/Chunks/Durable.antt =====
-- adapter.mjs: what a commit of a ChunkedRange leaves in the storage: the new bytes under the range's
-- keys, and every other key as it was.
use fram.Prelude.{
  ℕ, ◌+◌, ◌-◌, ◌*◌, ◌/◌, ◌<◌, ◌≤◌, ◌≡◌, refl, ◌∙◌, ◌⊎◌, inl, inr, false, none, some, List, [], ◌∷◌,
  ◌&&◌, leb, ltb, take, if◌then◌else◌, same_elems, same_elems_self, arith, ok,
}
use fram.Text.{Text}
use fram.Adapter.Storage.{chunk, Storage, get, get-set_item}
use fram.Adapter.Chunks.{
  ChunkedRange, chunk_key, meta_key, chunks_of, plan_with, plan, apply_to, settle,
}
use fram.Adapter.Chunks.Keys.{chunk_key-meta_key, Apart}
use fram.Adapter.Chunks.Effects.{
  chunk_of, prefix_eq, chunk_bytes_eq, get-put_writes, get-delete_keys, get-put_foreign,
  get-delete_foreign,
}
use fram.Adapter.Chunks.Arithmetic.{chunk_of-same_bytes}
use fram.Adapter.Chunks.Commit.{
  HoldsChunks, Published, IsConfigured, apply_to-SameRange, apply_to-map, chunk_after,
}

same_elems-sym : (s t : Text) → same_elems s t ≡ same_elems t s
unfolding same_elems
same_elems-sym [] [] = refl
same_elems-sym [] (y ∷ t) = refl
same_elems-sym (x ∷ s) [] = refl
same_elems-sym (x ∷ s) (y ∷ t) = ground (arith, same_elems-sym s t)

-- A loaded range has a plan.
pub plan-eq :
    {map : Storage} {range : ChunkedRange} {old : List ℕ} {old_size : ℕ} (new : List ℕ)
    (size low : ℕ)
    → HoldsChunks map range old old_size
    → plan range new size low
      ≡ ok (plan_with range (chunks_of old_size range.chunk_bytes) new size low)
unfolding plan
plan-eq new size low held = rw held.counted refl

module _ (range : ChunkedRange) (map : Storage) (count : ℕ) (new : List ℕ) (size low : ℕ) where
  -- A key that is neither a chunk's nor the `meta` keeps its value.
  pub apply_to-foreign :
      (j : Text)
      → 0 < range.batch_keys
      → ((i : ℕ) → same_elems (chunk_key range.prefix i) j ≡ false)
      → same_elems (meta_key range.prefix) j ≡ false
      → get j (apply_to (plan_with range count new size low) (range, map)).1 ≡ get j map
  unfolding plan_with
  apply_to-foreign j hb chunks_apart meta_apart =
      rw
        (
          apply_to-map (plan_with range count new size low) range map hb refl,
          get-set_item (meta_key range.prefix) j,
          meta_apart,
        )
        (get-delete_foreign range.prefix (chunks_of size range.chunk_bytes) _ j _ chunks_apart
          ∙ get-put_foreign range new size (low / range.chunk_bytes) _ j map chunks_apart)

  pub apply_to-Published :
      0 < range.batch_keys
      → Published (apply_to (plan_with range count new size low) (range, map)).1 range size
  unfolding plan_with
  apply_to-Published hb =
      rw
        (
          apply_to-map (plan_with range count new size low) range map hb refl,
          get-set_item (meta_key range.prefix) (meta_key range.prefix),
          same_elems_self (meta_key range.prefix),
        )
        refl

  apply_to-chunk_key :
      (k : ℕ)
      → 0 < range.batch_keys
      → let first = low / range.chunk_bytes in
        let chunks = chunks_of size range.chunk_bytes in
        get
          (chunk_key range.prefix k)
          (apply_to (plan_with range count new size low) (range, map)).1
        ≡ (if leb chunks k && ltb k (chunks + (count - chunks))
            then none
            else (if leb first k && ltb k (first + (chunks - first))
                then some (chunk (chunk_of range new size k))
                else get (chunk_key range.prefix k) map))
  unfolding plan_with
  apply_to-chunk_key k hb =
      rw
        (
          apply_to-map (plan_with range count new size low) range map hb refl,
          get-set_item (meta_key range.prefix) (chunk_key range.prefix k),
          same_elems-sym (meta_key range.prefix) (chunk_key range.prefix k),
          chunk_key-meta_key range.prefix k,
          get-delete_keys range.prefix (chunks_of size range.chunk_bytes),
          get-put_writes range new size (low / range.chunk_bytes),
        )
        refl

-- A storage with the same values at a range's chunk keys holds the same chunks.
pub HoldsChunks-same_values :
    (map other : Storage) (range : ChunkedRange) (bytes : List ℕ) (size : ℕ)
    → ((i : ℕ) → get (chunk_key range.prefix i) other ≡ get (chunk_key range.prefix i) map)
    → HoldsChunks map range bytes size
    → HoldsChunks other range bytes size
HoldsChunks-same_values map other range bytes size values held = record {
  chunk_at = λ k. values k ∙ held.chunk_at k;
  counted = held.counted;
}

-- The range under another record of the same configuration.
HoldsChunks-config :
    (map : Storage) (range other : ChunkedRange) (bytes : List ℕ) (size : ℕ)
    → other.prefix ≡ range.prefix
    → other.chunk_bytes ≡ range.chunk_bytes
    → other.chunk_count ≡ some (chunks_of size range.chunk_bytes)
    → ((k : ℕ)
        → get (chunk_key range.prefix k) map ≡ (
            if ltb (k * range.chunk_bytes) size
            then some (chunk (chunk_of range bytes size k))
            else none))
    → HoldsChunks map other bytes size
HoldsChunks-config map range other bytes size p c n at = record {
  chunk_at = λ k. rw (p, c) (at k);
  counted = rw c n;
}

-- A commit of a range that holds `old`, with bytes that agree with it below the low water mark,
-- leaves the storage holding the new bytes.
pub apply_to-HoldsChunks :
    (map : Storage) (range : ChunkedRange) (old new : List ℕ) (old_size size low : ℕ)
    → IsConfigured range
    → HoldsChunks map range old old_size
    → low ≤ old_size
    → low ≤ size
    → take low old ≡ take low new
    → let pl = plan_with range (chunks_of old_size range.chunk_bytes) new size low in
      let after = apply_to pl (range, map) in HoldsChunks after.1 (settle pl after.0) new size
unfolding settle
apply_to-HoldsChunks map range old new old_size size low (hc, hb) held ho hn agree =
    let count = chunks_of old_size range.chunk_bytes in
    let pl = plan_with range count new size low in
    let kept = apply_to-SameRange pl range map in
    HoldsChunks-config _ range _ new size (prefix_eq kept) (chunk_bytes_eq kept)
      (unfold plan_with in refl)
      (λ k.
        apply_to-chunk_key range map count new size low k hb
        ∙ rw (held.chunk_at k) (chunk_after range old new old_size size low k hc ho hn agree))

pub HoldsChunks-same_bytes :
    (map : Storage) (range : ChunkedRange) (old new : List ℕ) (size : ℕ)
    → take size old ≡ take size new
    → HoldsChunks map range old size
    → HoldsChunks map range new size
HoldsChunks-same_bytes map range old new size agree held = record {
  chunk_at = λ k. held.chunk_at k ∙ rw (chunk_of-same_bytes range old new size k agree) refl;
  counted = held.counted;
}

-- A commit of one range leaves the chunks of the other as they were.
pub apply_to-HoldsChunks_other :
    (map : Storage) (range other : ChunkedRange) (count : ℕ) (new held_bytes : List ℕ)
    (size low held_size : ℕ)
    → 0 < range.batch_keys
    → Apart range.prefix other.prefix
    → HoldsChunks map other held_bytes held_size
    → HoldsChunks
        (apply_to (plan_with range count new size low) (range, map)).1
        other
        held_bytes
        held_size
apply_to-HoldsChunks_other map range other count new held_bytes size low held_size hb apart held =
    HoldsChunks-same_values map _ other held_bytes held_size
      (λ k.
        apply_to-foreign range map count new size low (chunk_key other.prefix k) hb
          (λ i. apart.0 i k) (apart.1 k))
      held

-- Either the `meta` of a range gives the size, or there is no `meta` and nothing is held.
abbrev pub IsPublished : Storage → ChunkedRange → ℕ → Type 0
IsPublished map range size =
    Published map range size ⊎ ((size ≡ 0) × (get (meta_key range.prefix) map ≡ none))

pub apply_to-IsPublished_other :
    (map : Storage) (range other : ChunkedRange) (count : ℕ) (new : List ℕ) (size low held_size : ℕ)
    → 0 < range.batch_keys
    → Apart range.prefix other.prefix
    → IsPublished map other held_size
    → IsPublished (apply_to (plan_with range count new size low) (range, map)).1 other held_size
apply_to-IsPublished_other map range other count new size low held_size hb apart published =
    let kept =
      apply_to-foreign range map count new size low (meta_key other.prefix) hb apart.2 apart.3 in
    elim published [ inl e ↦ inl (kept ∙ e) | inr (z, e) ↦ inr (z, kept ∙ e) ]

-- The range's own `meta`, under the record that the commit leaves.
pub apply_to-IsPublished :
    (map : Storage) (range : ChunkedRange) (count : ℕ) (new : List ℕ) (size low : ℕ)
    → 0 < range.batch_keys
    → let pl = plan_with range count new size low in
      let after = apply_to pl (range, map) in IsPublished after.1 (settle pl after.0) size
unfolding settle
apply_to-IsPublished map range count new size low hb =
    let pl = plan_with range count new size low in
    let kept = apply_to-SameRange pl range map in
    inl (
      rw (prefix_eq kept, chunk_bytes_eq kept) (apply_to-Published range map count new size low hb))
