-- ===== src/Adapter/Instance/Hooks.antt =====
-- adapter.mjs: the host calls of a guest, against the durable bytes.
use fram.Prelude.{
  ℕ, ◌+◌, ◌∙◌, ◌≡◌, refl, inl, inr, true, List, [], ◌∷◌, ltb, not_ltb→le, Bool-cases,
}
use fram.Adapter.Storage.{Storage}
use fram.Adapter.Chunks.{ChunkedRange}
use fram.Adapter.HostImage.{HostImage, append, truncate}
use fram.Adapter.HostImage.Tracks.{clean, behind, append-Agrees, truncate-Agrees}
use fram.Adapter.Store.{Which, Host, range_of}
use fram.Adapter.Store.Commit.{Tracks, IsTracked}
use fram.Adapter.Instance.{
  HostCall, storage_size, storage_read, storage_truncate, storage_append, storage_sync,
  storage_close, object_of, set_object, host_call, host_calls,
}

append-Tracks :
    (map : Storage) (range : ChunkedRange) (object : HostImage) (piece : List ℕ)
    → Tracks map range object
    → Tracks map range (append piece object)
append-Tracks map range object piece t =
    let (fits, agrees) = append-Agrees piece object t.old t.old_size t.fits t.agrees in
    record {
      old = t.old;
      old_size = t.old_size;
      configured = t.configured;
      held = t.held;
      published = t.published;
      long_enough = t.long_enough;
      fits = fits;
      agrees = agrees;
    }

truncate-Tracks :
    (map : Storage) (range : ChunkedRange) (object : HostImage) (length : ℕ)
    → Tracks map range object
    → Tracks map range (truncate length object).1
truncate-Tracks map range object length t = elim (Bool-cases (ltb object.size length)) [
  | inl e ↦ unfold truncate in rw e t
  | inr e ↦
      let (fits, agrees) =
        truncate-Agrees length object t.old t.old_size (not_ltb→le object.size length e) t.fits
          t.agrees in
      record {
        old = t.old;
        old_size = t.old_size;
        configured = t.configured;
        held = t.held;
        published = t.published;
        long_enough = t.long_enough;
        fits = fits;
        agrees = agrees;
      }
]

count_sync :
    (map : Storage) (range : ChunkedRange) (object : HostImage)
    → Tracks map range object
    → Tracks map range (record object { syncs = object.syncs + 1 })
count_sync map range object t = record {
  old = t.old;
  old_size = t.old_size;
  configured = t.configured;
  held = t.held;
  published = t.published;
  long_enough = t.long_enough;
  fits = t.fits;
  agrees = elim t.agrees [
    | clean low dirty size bytes ↦ clean low dirty size bytes
    | behind low marked dirty below within bytes ↦ behind low marked dirty below within bytes
  ];
}

object_of-Tracks :
    (which : Which) (host : Host)
    → IsTracked host
    → Tracks host.store.storage (range_of which host.store) (object_of which host)
unfolding range_of object_of
object_of-Tracks Which.log host tracked = tracked.log_tracks
object_of-Tracks Which.image host tracked = tracked.image_tracks

set_object-IsTracked :
    (which : Which) (host : Host) (object : HostImage)
    → IsTracked host
    → Tracks host.store.storage (range_of which host.store) object
    → IsTracked (set_object which object host)
unfolding range_of set_object
set_object-IsTracked Which.log host object tracked t = record {
  log_prefix = tracked.log_prefix;
  image_prefix = tracked.image_prefix;
  log_tracks = t;
  image_tracks = tracked.image_tracks;
}
set_object-IsTracked Which.image host object tracked t = record {
  log_prefix = tracked.log_prefix;
  image_prefix = tracked.image_prefix;
  log_tracks = tracked.log_tracks;
  image_tracks = t;
}

sync_set : (host : Host) → IsTracked host → IsTracked (record host { sync_pending = true })
sync_set host tracked = record {
  log_prefix = tracked.log_prefix;
  image_prefix = tracked.image_prefix;
  log_tracks = tracked.log_tracks;
  image_tracks = tracked.image_tracks;
}

-- Every host call leaves the images tracking the durable bytes.
host_call-IsTracked :
    (call : HostCall) (host : Host) → IsTracked host → IsTracked (host_call call host).1
unfolding host_call
host_call-IsTracked (storage_size which) host tracked = tracked
host_call-IsTracked (storage_read which offset length) host tracked = tracked
host_call-IsTracked (storage_truncate which length) host tracked =
    set_object-IsTracked which host _ tracked
      (truncate-Tracks _ _ (object_of which host) length (object_of-Tracks which host tracked))
host_call-IsTracked (storage_append which piece) host tracked =
    set_object-IsTracked which host _ tracked
      (append-Tracks _ _ (object_of which host) piece (object_of-Tracks which host tracked))
host_call-IsTracked (storage_sync which) host tracked = sync_set _ (
    set_object-IsTracked which host _ tracked
      (count_sync _ _ (object_of which host) (object_of-Tracks which host tracked)))
host_call-IsTracked storage_close host tracked = sync_set host tracked

-- What a guest's call leaves of a host: nothing but the images has changed.
pub record Ran (host after : Host) : Type 0 where
  pub store_kept : after.store ≡ host.store
  pub poison_kept : after.poisoned ≡ host.poisoned

set_object-Ran :
    (which : Which) (host : Host) (object : HostImage) → Ran host (set_object which object host)
unfolding set_object
set_object-Ran Which.log host object = record { store_kept = refl; poison_kept = refl }
set_object-Ran Which.image host object = record { store_kept = refl; poison_kept = refl }

host_call-Ran : (call : HostCall) (host : Host) → Ran host (host_call call host).1
unfolding host_call
host_call-Ran (storage_size which) host = record { store_kept = refl; poison_kept = refl }
host_call-Ran (storage_read which offset length) host = record {
  store_kept = refl;
  poison_kept = refl;
}
host_call-Ran (storage_truncate which length) host = set_object-Ran which host _
host_call-Ran (storage_append which piece) host = set_object-Ran which host _
host_call-Ran (storage_sync which) host =
    let r = set_object-Ran which host _ in
    record { store_kept = r.store_kept; poison_kept = r.poison_kept }
host_call-Ran storage_close host = record { store_kept = refl; poison_kept = refl }

pub host_calls-Ran : (calls : List HostCall) (host : Host) → Ran host (host_calls calls host)
unfolding host_calls
host_calls-Ran [] host = record { store_kept = refl; poison_kept = refl }
host_calls-Ran (call ∷ calls) host =
    let first = host_call-Ran call host in
    let rest = host_calls-Ran calls (host_call call host).1 in
    record {
      store_kept = rest.store_kept ∙ first.store_kept;
      poison_kept = rest.poison_kept ∙ first.poison_kept;
    }

-- Whatever calls a guest makes, in any order, the images go on tracking the durable bytes.
pub host_calls-IsTracked :
    (calls : List HostCall) (host : Host) → IsTracked host → IsTracked (host_calls calls host)
unfolding host_calls
host_calls-IsTracked [] host tracked = tracked
host_calls-IsTracked (call ∷ calls) host tracked =
    host_calls-IsTracked calls (host_call call host).1 (host_call-IsTracked call host tracked)
