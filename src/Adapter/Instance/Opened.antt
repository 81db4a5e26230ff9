-- ===== src/Adapter/Instance/Opened.antt =====
-- adapter.mjs: FramInstance, `open` over a storage, and what the storage holds after a call.
use fram.Prelude.{
  ℕ, ◌<◌, ◌≡◌, refl, ◌∙◌, inl, inr, true, List, ◌==◌, Bool-cases, Result, ok, err, arith,
}
use fram.Text.{Text, codes}
use fram.Adapter.Storage.{Storage}
use fram.Adapter.Chunks.{new_range}
use fram.Adapter.Chunks.Commit.{IsConfigured}
use fram.Adapter.Store.{DurableFramStore, Outcome, Host, new_store, range_of, set_range}
use fram.Adapter.Store.Commit.{IsTracked}
use fram.Adapter.Store.Saved.{Stores, HoldsImage-Stores, Tracks-Stores, load-Stores}
use fram.Adapter.Instance.{
  Guest, Reply, FramInstance, InstanceError, new_instance, assert_usable, host_calls, finish_call,
}
use fram.Adapter.Instance.Hooks.{host_calls-IsTracked}
use fram.Adapter.Instance.Calls.{
  bytes_of, IsDurable, Ends, finish_call-Ends, finish_call-loaded, serialise-usable,
}
use fram.Adapter.Instance.Opening.{
  load_object, load_objects, resident, mark_opened, open_loaded, open_space,
}

-- The storage holds a log and an image, as bytes.
pub record HoldsBytes (map : Storage) (log_bytes image_bytes : List ℕ) : Type 0 where
  pub log_stored : Stores map (codes "framlog/") log_bytes
  pub image_stored : Stores map (codes "framimage/") image_bytes

-- The storage holds some log and some image.
abbrev pub IsWhole : Storage → Type 0
IsWhole map = (log_bytes : List ℕ) × (image_bytes : List ℕ) × HoldsBytes map log_bytes image_bytes

-- What an instance that tracks its storage stands on.
pub IsTracked-IsWhole : (host : Host) → IsTracked host → IsWhole host.store.storage
IsTracked-IsWhole host tracked = (
  _,
  _,
  record {
    log_stored = Tracks-Stores _ _ host.log_image _ tracked.log_prefix tracked.log_tracks;
    image_stored =
        Tracks-Stores _ _ host.snapshot_image _ tracked.image_prefix tracked.image_tracks;
  },
)

-- After a call, answered or not, the storage holds a log and an image.
pub Ends-IsWhole :
    (guest : Guest) (before : FramInstance) (result : Result InstanceError Reply)
    (after : FramInstance)
    → IsTracked before.host
    → Ends guest before result after
    → IsWhole after.host.store.storage
Ends-IsWhole guest before (ok reply) after tracked durable =
    IsTracked-IsWhole after.host durable.tracked
Ends-IsWhole guest before (err thrown) after tracked refused =
    rw refused.storage_kept (IsTracked-IsWhole before.host tracked)

-- After an answered call the storage holds the bytes of both images.
pub IsDurable-HoldsBytes :
    (guest : Guest) (before after : FramInstance) (reply : Reply)
    → IsTracked before.host
    → IsDurable guest before after reply
    → HoldsBytes after.host.store.storage
        (bytes_of after.host.log_image)
        (bytes_of after.host.snapshot_image)
IsDurable-HoldsBytes guest before after reply tracked durable =
    let ran = host_calls-IsTracked guest.calls before.host tracked in
    record {
      log_stored = rw durable.log_kept (
          HoldsImage-Stores _ after.host.store.log_range
            (host_calls guest.calls before.host).log_image _ durable.tracked.log_prefix
            ran.log_tracks.fits durable.log_stored);
      image_stored = rw durable.image_kept (
          HoldsImage-Stores _ after.host.store.image_range
            (host_calls guest.calls before.host).snapshot_image _ durable.tracked.image_prefix
            ran.image_tracks.fits durable.image_stored);
    }

pub new_range-IsConfigured :
    (prefix : Text) (chunk_bytes batch_keys : ℕ)
    → 0 < chunk_bytes
    → 0 < batch_keys
    → IsConfigured (new_range prefix chunk_bytes batch_keys)
unfolding new_range
new_range-IsConfigured prefix chunk_bytes batch_keys hc hb = (hc, omega arith)

-- What `open` makes resident over a storage.
pub record Resident (map : Storage) (chunk_bytes batch_keys : ℕ) (log_bytes image_bytes : List ℕ)
    : Type 0 where
  pub store : DurableFramStore
  pub loads :
      load_objects (new_store map chunk_bytes batch_keys) ≡ ok (store, (log_bytes, image_bytes))
  pub storage_kept : store.storage ≡ map
  pub tracked :
      IsTracked
        (resident store log_bytes image_bytes
          (new_instance (new_store map chunk_bytes batch_keys))).host

module _ (map : Storage) (chunk_bytes batch_keys : ℕ) (hc : 0 < chunk_bytes) (hb : 0 < batch_keys)
    (log_bytes image_bytes : List ℕ) (held : HoldsBytes map log_bytes image_bytes) where
  pub load_objects-Resident : Resident map chunk_bytes batch_keys log_bytes image_bytes
  unfolding load_objects load_object new_store range_of set_range resident new_range
  load_objects-Resident =
      let log_range = new_range (codes "framlog/") chunk_bytes batch_keys in
      let image_range = new_range (codes "framimage/") chunk_bytes batch_keys in
      let log_reads =
        load-Stores map log_range log_bytes
          (new_range-IsConfigured (codes "framlog/") chunk_bytes batch_keys hc hb)
          held.log_stored in
      let image_reads =
        load-Stores map image_range image_bytes
          (new_range-IsConfigured (codes "framimage/") chunk_bytes batch_keys hc hb)
          held.image_stored in
      record {
        store = record {
          storage = map;
          log_range = log_reads.loaded;
          image_range = image_reads.loaded;
          commits = 0;
        };
        loads = rw (log_reads.returns, image_reads.returns) refl;
        storage_kept = refl;
        tracked = record {
          log_prefix = log_reads.prefix_kept;
          image_prefix = image_reads.prefix_kept;
          log_tracks = log_reads.tracks;
          image_tracks = image_reads.tracks;
        };
      }

-- Marking an instance opened keeps what its call left.
mark_opened-Ends :
    (space_id : Text) (guest : Guest) (before : FramInstance)
    (done : Result InstanceError Reply × FramInstance)
    → Ends guest before done.0 done.1
    → let marked = mark_opened space_id done in Ends guest before marked.0 marked.1
unfolding mark_opened assert_usable
mark_opened-Ends space_id guest before (err thrown, after) refused = refused
mark_opened-Ends space_id guest before (ok reply, after) durable =
    elim (Bool-cases (reply.status == 0)) [
      | inl e ↦ simp e (record {
        replied = durable.replied;
        log_stored = durable.log_stored;
        image_stored = durable.image_stored;
        log_kept = durable.log_kept;
        image_kept = durable.image_kept;
        tracked = durable.tracked;
        usable = durable.usable;
      })
      | inr e ↦ simp e durable
    ]

new_instance-usable : (store : DurableFramStore) → assert_usable (new_instance store) ≡ ok tt
unfolding assert_usable new_instance
new_instance-usable store = refl

resident-usable :
    (store other : DurableFramStore) (log_bytes image_bytes : List ℕ)
    → assert_usable (resident store log_bytes image_bytes (new_instance other)) ≡ ok tt
unfolding assert_usable resident new_instance
resident-usable store other log_bytes image_bytes = refl

mark_opened-loaded :
    (space_id : Text) (done : Result InstanceError Reply × FramInstance)
    → (mark_opened space_id done).1.loaded ≡ done.1.loaded
unfolding mark_opened
mark_opened-loaded space_id (err thrown, after) = refl
mark_opened-loaded space_id (ok reply, after) = elim (Bool-cases (reply.status == 0)) [
  | inl e ↦ simp e refl
  | inr e ↦ simp e refl
]

-- `open` over a storage that holds a log and an image: the guest starts from exactly these bytes, and
-- the call that opens it ends like every call.
pub open_space-Ends :
    (map : Storage) (chunk_bytes batch_keys : ℕ) (log_bytes image_bytes : List ℕ) (space_id : Text)
    (guest : Guest) (outcome : Outcome)
    → 0 < chunk_bytes
    → 0 < batch_keys
    → HoldsBytes map log_bytes image_bytes
    → let instance = new_instance (new_store map chunk_bytes batch_keys) in
      let done = open_space space_id guest outcome instance in
      (r : Resident map chunk_bytes batch_keys log_bytes image_bytes) × Ends guest
        (resident r.store log_bytes image_bytes instance)
        done.0
        done.1
      × (done.1.loaded ≡ true)
unfolding open_space open_loaded
open_space-Ends map chunk_bytes batch_keys log_bytes image_bytes space_id guest outcome hc hb held =
    let instance = new_instance (new_store map chunk_bytes batch_keys) in
    let r = load_objects-Resident map chunk_bytes batch_keys hc hb log_bytes image_bytes held in
    let there = resident r.store log_bytes image_bytes instance in
    let ran : FramInstance = record there { host = host_calls guest.calls there.host } in
    let start = new_instance-usable (new_store map chunk_bytes batch_keys) in
    let usable =
      resident-usable r.store (new_store map chunk_bytes batch_keys) log_bytes image_bytes in
    (
      r,
      rw (serialise-usable _ instance start) (
          unfold new_instance in
          rw r.loads (
            mark_opened-Ends space_id guest there _
              (finish_call-Ends guest outcome there r.tracked usable guest.ending refl))),
      rw (serialise-usable _ instance start) (
          unfold new_instance in
          rw r.loads (
            mark_opened-loaded space_id (finish_call guest.ending outcome ran)
            ∙ finish_call-loaded guest.ending outcome ran
            ∙ unfold resident in refl)),
    )
