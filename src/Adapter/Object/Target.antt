-- ===== src/Adapter/Object/Target.antt =====
-- adapter.mjs: `#loadTarget` of an object whose storage holds a whole log.
use fram.Prelude.{ℕ, ◌≡◌, refl, false, List, [], ◌∷◌, Result, ok, err, >>=-eq-ok, ok-injective}
use fram.Text.{codes}
use fram.Adapter.Chunks.{ChunkedRange, chunks_of, plan_with, new_range, load}
use fram.Adapter.Chunks.Commit.{HoldsChunks, IsConfigured}
use fram.Adapter.Chunks.Durable.{plan-eq}
use fram.Adapter.Clear.{clear_plan}
use fram.Adapter.Store.{
  Which, DurableFramStore, rejects, new_store, range_of, set_range, run, replace_parts,
}
use fram.Adapter.Store.Saved.{load-Stores}
use fram.Adapter.Instance.Opening.{load_object}
use fram.Adapter.Instance.Opened.{new_range-IsConfigured}
use fram.Adapter.Object.{FramObject}
use fram.Adapter.Object.Sound.{IsSound}
use fram.Adapter.Object.Restore.{Target, readable, load_target}

-- A target that `#loadTarget` has read, on the storage of the object.
pub record IsTarget (object : FramObject) (target : Target) : Type 0 where
  pub storage_same : target.store.storage ≡ object.storage
  pub log_prefix : target.store.log_range.prefix ≡ codes "framlog/"
  pub image_prefix : target.store.image_range.prefix ≡ codes "framimage/"
  pub log_configured : IsConfigured target.store.log_range
  pub image_configured : IsConfigured target.store.image_range
  pub old : List ℕ
  pub old_size : ℕ
  pub held : HoldsChunks target.store.storage target.store.log_range old old_size
  pub found : clear_plan target.store.image_range target.store.storage ≡ ok target.clearing

-- The store that `load("log")` leaves.
abbrev store_with : FramObject → ChunkedRange → DurableFramStore
store_with object loaded = record {
  storage = object.storage;
  log_range = loaded;
  image_range = new_range (codes "framimage/") object.chunk_bytes object.batch_keys;
  commits = 0;
}

load_log-eq :
    (object : FramObject) (loaded : ChunkedRange) (bytes : List ℕ)
    → load object.storage (new_range (codes "framlog/") object.chunk_bytes object.batch_keys)
      ≡ ok (loaded, bytes)
    → load_object Which.log (new_store object.storage object.chunk_bytes object.batch_keys)
      ≡ ok (store_with object loaded, bytes)
unfolding load_object new_store range_of set_range
load_log-eq object loaded bytes returns = rw returns refl

readable-eq-ok {ℓ κ} :
    {E : Type ℓ} {A : Type κ} (result : Result E A) (value : A)
    → readable result ≡ ok value
    → result ≡ ok value
readable-eq-ok (ok a) value h = let same = ok-injective h in rw same refl
readable-eq-ok (err e) value h = cc

pub load_target-IsTarget :
    (object : FramObject) (target : Target)
    → IsSound object
    → load_target object ≡ ok target
    → IsTarget object target
unfolding load_target
load_target-IsTarget object target sound h =
    let (log_bytes, image_bytes, whole) = sound.whole in
    let range = new_range (codes "framlog/") object.chunk_bytes object.batch_keys in
    let configured =
      new_range-IsConfigured (codes "framlog/") object.chunk_bytes object.batch_keys
        sound.positive_chunk sound.positive_batch in
    let reads =
      load-Stores object.storage range log_bytes configured
        (unfold new_range in whole.log_stored) in
    let loaded = load_log-eq object reads.loaded log_bytes reads.returns in
    let (clearing, found, same) =
      >>=-eq-ok (readable (clear_plan (store_with object reads.loaded).image_range object.storage))
        _ (rw loaded at h) in
    let found' =
      readable-eq-ok (clear_plan (store_with object reads.loaded).image_range object.storage)
        clearing found in
    rw (← ok-injective same) (record {
      storage_same = refl;
      log_prefix = unfold new_range in reads.prefix_kept;
      image_prefix = unfold new_range in refl;
      log_configured = reads.tracks.configured;
      image_configured =
          new_range-IsConfigured (codes "framimage/") object.chunk_bytes object.batch_keys
            sound.positive_chunk sound.positive_batch;
      old = reads.tracks.old;
      old_size = reads.tracks.old_size;
      held = reads.tracks.held;
      found = found';
    })

-- A rejected transaction of a replacement.
pub rejected_parts :
    {object : FramObject} (bytes : List ℕ) (size : ℕ) (target : Target)
    → IsTarget object target
    → (store : DurableFramStore) × (replace_parts rejects bytes size target.clearing target.store
        ≡ ok (false, store))
unfolding replace_parts range_of
rejected_parts bytes size target t =
    let log_plan =
      plan_with target.store.log_range (chunks_of t.old_size target.store.log_range.chunk_bytes)
        bytes size 0 in
    (
      (run rejects ((Which.log, log_plan) ∷ (Which.image, target.clearing) ∷ []) target.store).1,
      rw (plan-eq bytes size 0 t.held) (unfold run in refl),
    )
