-- ===== src/Adapter/Store/Replace.antt =====
-- adapter.mjs: `replace` of DurableFramStore, which lands a log and clears the image at once.
use fram.Prelude.{
  ℕ, ◌≡◌, refl, inl, inr, true, false, none, some, List, [], ◌∷◌, has, take, take-length_append,
  append-nil, length, Bool-cases, sym, ap, ◌∙◌, ok, arith,
}
use fram.Text.{Text, codes}
use fram.Adapter.Storage.{Storage, get, delete}
use fram.Adapter.Chunks.{
  ChunkedRange, Plan, chunk_key, meta_key, chunks_of, plan_with, apply_to, settle,
}
use fram.Adapter.Chunks.Keys.{Apart, log-Apart}
use fram.Adapter.Chunks.Effects.{prefix_eq, chunk_bytes_eq, batch_keys_eq}
use fram.Adapter.Chunks.Commit.{HoldsChunks, IsConfigured, apply_to-SameRange}
use fram.Adapter.Chunks.Durable.{
  plan-eq, apply_to-HoldsChunks, apply_to-IsPublished, HoldsChunks-same_values, apply_to-foreign,
}
use fram.Adapter.Inspect.{has-All}
use fram.Adapter.Clear.{starts_with, is_range_key, clear_plan}
use fram.Adapter.Clear.Pages.{keys_of}
use fram.Adapter.Clear.Complete.{IsClearing, clear_plan-IsClearing}
use fram.Adapter.Clear.Cleared.{get-delete, get-absent, apply_to-clearing, range_key-starts_with}
use fram.Adapter.Store.{
  Which, DurableFramStore, Outcome, range_of, set_range, run, apply_all, settle_all, replace_parts,
}
use fram.Adapter.Store.Saved.{Stores, no_chunks, no_chunk_count}

-- The keys of a range start with its prefix, and those of the other do not.
log_key : (k : ℕ) → starts_with (codes "framimage/") (chunk_key (codes "framlog/") k) ≡ false
unfolding starts_with chunk_key
log_key k = refl

log_meta : starts_with (codes "framimage/") (meta_key (codes "framlog/")) ≡ false
unfolding starts_with meta_key
log_meta = refl

image_key : (k : ℕ) → starts_with (codes "framimage/") (chunk_key (codes "framimage/") k) ≡ true
unfolding starts_with chunk_key
image_key k = refl

image_meta : starts_with (codes "framimage/") (meta_key (codes "framimage/")) ≡ true
unfolding starts_with meta_key
image_meta = refl

pub take-all : (bytes : List ℕ) → take (length bytes) bytes ≡ bytes
take-all bytes = ap (take (length bytes)) (sym (append-nil bytes)) ∙ take-length_append bytes []

module _ (range : ChunkedRange) (map : Storage) (clearing : Plan)
    (c : IsClearing range map clearing) where
  -- Deleting the stale keys from a storage that has the same values under the prefix.
  delete_own :
      (other : Storage) (key : Text)
      → starts_with range.prefix key ≡ true
      → get key other ≡ get key map
      → get key (delete clearing.stale other) ≡ none
  delete_own other key under same =
      get-delete clearing.stale key other ∙ elim (Bool-cases (has (keys_of map) key)) [
        | inl there ↦ rw (c.complete key (rw (there, under) refl)) refl
        | inr absent ↦ rw (same, get-absent map key absent) (ground arith)
      ]

  delete_foreign :
      (other : Storage) (key : Text)
      → starts_with range.prefix key ≡ false
      → get key (delete clearing.stale other) ≡ get key other
  delete_foreign other key outside =
      get-delete clearing.stale key other ∙ elim (Bool-cases (has clearing.stale key)) [
        | inl stale ↦
            let found = range_key-starts_with range.prefix key (
              has-All (λ key. is_range_key range.prefix key ≡ true) clearing.stale key
                c.only_range_keys stale) in
            cc
        | inr kept ↦ rw kept refl
      ]

Apart-prefixes : {p q : Text} → p ≡ codes "framlog/" → q ≡ codes "framimage/" → Apart p q
Apart-prefixes e f = rw (e, f) log-Apart

-- A storage that holds a log and nothing of an image, under the ranges of a store.
module _ (store : DurableFramStore) (old bytes : List ℕ) (old_size : ℕ) (clearing : Plan)
    (log_prefix : store.log_range.prefix ≡ codes "framlog/")
    (image_prefix : store.image_range.prefix ≡ codes "framimage/")
    (log_configured : IsConfigured store.log_range)
    (image_configured : IsConfigured store.image_range)
    (held : HoldsChunks store.storage store.log_range old old_size)
    (found : clear_plan store.image_range store.storage ≡ ok clearing) where
  abbrev log_plan : Plan
  log_plan =
      plan_with store.log_range (chunks_of old_size store.log_range.chunk_bytes) bytes
        (length bytes) 0

  abbrev written : ChunkedRange × Storage
  written = apply_to log_plan (store.log_range, store.storage)

  cleared : IsClearing store.image_range store.storage clearing
  cleared = clear_plan-IsClearing store.image_range store.storage clearing image_configured.1 found

  log_Stores : Stores (delete clearing.stale written.1) (codes "framlog/") bytes
  unfolding take
  log_Stores =
      let settled = settle log_plan written.0 in
      let kept = apply_to-SameRange log_plan store.log_range store.storage in
      let prefix : settled.prefix ≡ codes "framlog/" =
        unfold settle in prefix_eq kept ∙ log_prefix in
      let outside : (k : ℕ)
          → starts_with store.image_range.prefix (chunk_key settled.prefix k) ≡ false =
        λ k. rw (prefix, image_prefix) (log_key k) in
      let meta_outside : starts_with store.image_range.prefix (meta_key settled.prefix) ≡ false =
        rw (prefix, image_prefix) log_meta in
      let here =
        apply_to-HoldsChunks store.storage store.log_range old bytes old_size (length bytes) 0
          log_configured held (omega arith) (omega arith) refl in
      record {
        range = settled;
        raw = bytes;
        size = length bytes;
        at_prefix = prefix;
        configured = unfold settle in rw (chunk_bytes_eq kept, batch_keys_eq kept) log_configured;
        held =
            HoldsChunks-same_values written.1 (delete clearing.stale written.1) settled bytes
              (length bytes)
              (λ k.
                delete_foreign store.image_range store.storage clearing cleared written.1
                  (chunk_key settled.prefix k) (outside k))
              here;
        published =
            let own =
              apply_to-IsPublished store.storage store.log_range
                (chunks_of old_size store.log_range.chunk_bytes) bytes (length bytes) 0
                log_configured.1 in
            let same =
              delete_foreign store.image_range store.storage clearing cleared written.1
                (meta_key settled.prefix) meta_outside in
            elim own [ inl e ↦ inl (same ∙ e) | inr (z, e) ↦ inr (z, same ∙ e) ];
        long_enough = omega arith;
        content = take-all bytes;
      }

  image_Stores : Stores (delete clearing.stale written.1) (codes "framimage/") []
  unfolding take
  image_Stores =
      let range : ChunkedRange = record store.image_range { chunk_count = some 0 } in
      let apart = Apart-prefixes log_prefix image_prefix in
      let under : (k : ℕ)
          → starts_with store.image_range.prefix (chunk_key store.image_range.prefix k) ≡ true =
        λ k. rw image_prefix (image_key k) in
      let meta_under : starts_with store.image_range.prefix (meta_key store.image_range.prefix)
          ≡ true =
        rw image_prefix image_meta in
      let kept =
        apply_to-foreign store.log_range store.storage
          (chunks_of old_size store.log_range.chunk_bytes) bytes (length bytes) 0 in
      let gone = delete_own store.image_range store.storage clearing cleared written.1 in
      record {
        range = range;
        raw = [];
        size = 0;
        at_prefix = image_prefix;
        configured = image_configured;
        held = record {
          chunk_at = λ k. rw (no_chunks k store.image_range.chunk_bytes) (
              gone (chunk_key store.image_range.prefix k) (under k) (
                kept (chunk_key store.image_range.prefix k) log_configured.1 (λ i. apart.0 i k)
                  (apart.1 k)));
          counted = rw (no_chunk_count store.image_range.chunk_bytes image_configured.0) refl;
        };
        published = inr (
          refl,
          gone (meta_key store.image_range.prefix) meta_under
              (kept (meta_key store.image_range.prefix) log_configured.1 apart.2 apart.3),
        );
        long_enough = omega arith;
        content = refl;
      }

  abbrev staged : List (Which × Plan)
  staged = (Which.log, log_plan) ∷ (Which.image, clearing) ∷ []

  replaced_storage : (run Outcome.lands staged store).1.storage ≡ delete clearing.stale written.1
  unfolding run apply_all settle_all range_of set_range settle
  replaced_storage =
      apply_to-clearing store.image_range written.1 clearing image_configured.1 cleared.no_writes
        cleared.no_meta

  -- What a landed `replace` leaves: the log that it was given, and nothing of the image.
  pub replace_parts-lands :
      (after : DurableFramStore) × (replace_parts Outcome.lands bytes (length bytes) clearing store
        ≡ ok (true, after))
      × Stores after.storage (codes "framlog/") bytes
      × Stores after.storage (codes "framimage/") []
  unfolding replace_parts range_of
  replace_parts-lands = (
    (run Outcome.lands staged store).1,
    rw (plan-eq bytes (length bytes) 0 held) (unfold run in refl),
    rw replaced_storage log_Stores,
    rw replaced_storage image_Stores,
  )
