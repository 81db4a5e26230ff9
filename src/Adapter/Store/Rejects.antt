-- ===== src/Adapter/Store/Rejects.antt =====
-- adapter.mjs: `#commit` of FramInstance where the transaction is rejected.
use fram.Prelude.{◌≡◌, refl, true, false, some, List, ◌++◌, ℕ, Result, ok, err, ◌>>=◌}
use fram.Adapter.Storage.{Storage}
use fram.Adapter.Chunks.{ChunkError, ChunkedRange, Plan}
use fram.Adapter.HostImage.{HostImage, low_of, lower, take_commit, restore_commit}
use fram.Adapter.HostImage.Tracks.{clean, behind}
use fram.Adapter.Store.{
  Which, Outcome, Host, stage, run, commit_parts, part_of, restored, finish, is_clean, commit,
}
use fram.Adapter.Store.Commit.{Tracks, IsTracked}

-- What a rejected commit leaves of a host: the storage and both images as they were, and the
-- instance fenced.
pub record Rejected (host after : Host) : Type 0 where
  pub storage_kept : after.store.storage ≡ host.store.storage
  pub log_kept : after.log_image ≡ host.log_image
  pub image_kept : after.snapshot_image ≡ host.snapshot_image
  pub fenced : after.poisoned ≡ true

restored_same :
    (object : HostImage) (low : ℕ)
    → object.low_water ≡ some low
    → object.dirty ≡ true
    → restored object ≡ object
unfolding restored take_commit restore_commit lower low_of
restored_same object low marked dirty = rw dirty (rw marked refl)

restored_clean : (object : HostImage) → object.dirty ≡ false → restored object ≡ object
unfolding restored
restored_clean object h = rw h refl

restored_lem :
    {map : Storage} {range : ChunkedRange} {object : HostImage}
    → Tracks map range object
    → restored object ≡ object
restored_lem tracks = elim tracks.agrees [
  | clean low dirty size bytes ↦ restored_clean _ dirty
  | behind low marked dirty below within bytes ↦ restored_same _ low marked dirty
]

finish-Rejected :
    (host : Host)
    → restored host.log_image ≡ host.log_image
    → restored host.snapshot_image ≡ host.snapshot_image
    → (r : Result ChunkError (List (Which × Plan)))
    → Rejected host (finish host (r >>= λ staged. ok (run Outcome.rejects staged host.store)))
unfolding finish run
finish-Rejected host l s (err e) = record {
  storage_kept = refl;
  log_kept = l;
  image_kept = s;
  fenced = refl;
}
finish-Rejected host l s (ok staged) = record {
  storage_kept = refl;
  log_kept = l;
  image_kept = s;
  fenced = refl;
}

-- A commit that has something to publish and is rejected changes neither the storage nor what the
-- images still have to publish, and fences the instance.
pub commit-rejects :
    (host : Host)
    → IsTracked host
    → is_clean host ≡ false
    → Rejected host (commit Outcome.rejects host)
unfolding commit commit_parts
commit-rejects host tracked h =
    let parts = part_of Which.log host.log_image ++ part_of Which.image host.snapshot_image in
    let synced : Host = record host { sync_pending = false } in
    let r =
      finish-Rejected synced (restored_lem tracked.log_tracks) (restored_lem tracked.image_tracks)
        (stage host.store parts) in
    rw h (record {
      storage_kept = r.storage_kept;
      log_kept = r.log_kept;
      image_kept = r.image_kept;
      fenced = r.fenced;
    })
