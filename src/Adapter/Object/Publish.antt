-- ===== src/Adapter/Object/Publish.antt =====
-- adapter.mjs: the part of `restoreFramlog` from its storage transaction on, and the whole of it.
use fram.Prelude.{
  ℕ, Bool, true, false, ◌&&◌, Option, none, some, List, ◌==◌, if◌then◌else◌, same_elems, length,
  Result, ok, err, ◌>>◌, ◌>>=◌,
}
use fram.Text.{Text, codes}
use fram.Adapter.Chunks.{ChunkError}
use fram.Adapter.Store.{DurableFramStore, Outcome, lands, rejects, new_store, replace_parts}
use fram.Adapter.Backup.{
  Backup, RestoreError, storage_failed, restore_pending, verified_backup, backup_format,
}
use fram.Adapter.Instance.{Reply, restore_fenced, FramInstance, InstanceError, new_instance}
use fram.Adapter.Instance.Opening.{open_space, portable_framlog}
use fram.Adapter.Object.{FramObject, Marker, without_live}
use fram.Adapter.Object.Restore.{
  ExpectedCurrent, RestoreEvents, Target, preflight_framlog, load_target, is_occupied, check_target,
  peek_target, fence_live, reset_fence, restore_options,
}

-- What a restore returns.
pub record Restored : Type 0 where
  pub format : Text
  pub space_id : Text
  pub served_version : Text
  pub byte_length : ℕ
  pub sha256 : Text
  pub replaced : Bool

abbrev restore_format : Text
restore_format = codes "fram-cloudflare-restore/v1"

unfoldable pub marker_of : Backup → Text → Marker
marker_of backup space_id = record {
  format = restore_format;
  space_id = space_id;
  served_version = backup.served_version;
  byte_length = length backup.bytes;
  sha256 = backup.sha256;
}

-- The object after its publication could not be verified: data stays fenced.
unfoldable pub stay_fenced : FramInstance → FramObject → Result RestoreError (Unit {0}) × FramObject
stay_fenced instance object = (
  err restore_pending,
  record (without_live instance object) { administrative_fence = some restore_fenced },
)

-- The end of a restore that was verified: the marker is deleted in a transaction.
abbrev pub clear_marker :
    Outcome → FramInstance → FramObject → Result RestoreError (Unit {0}) × FramObject
clear_marker rejects instance object = stay_fenced instance object
clear_marker lands instance object = (
  ok tt,
  record object {
    storage = instance.host.store.storage;
    pending = none;
    live = some instance;
    administrative_fence = none;
  },
)

-- The published log, as the guest that was opened on it exports it.
abbrev pub verify_published :
    Backup
    → Outcome
    → Result InstanceError (List ℕ × Text) × FramInstance
    → FramObject
    → Result RestoreError (Unit {0}) × FramObject
verify_published backup clearing (err thrown, instance) object = stay_fenced instance object
verify_published backup clearing (ok (bytes, version), instance) object =
    if same_elems bytes backup.bytes && same_elems version backup.served_version
    then clear_marker clearing instance object
    else stay_fenced instance object

abbrev pub verify_reopened :
    Backup
    → RestoreEvents
    → Result InstanceError Reply × FramInstance
    → FramObject
    → Result RestoreError (Unit {0}) × FramObject
verify_reopened backup events (err thrown, instance) object = stay_fenced instance object
verify_reopened backup events (ok reply, instance) object =
    if reply.status == 0
    then verify_published backup events.clearing
        (portable_framlog object.space_id events.reopen_status events.reopen_outcome instance)
        object
    else stay_fenced instance object

-- `#bootForRestore` over a store that refuses every commit, and the checks behind it.
unfoldable pub reopen_published :
    Backup → RestoreEvents → FramObject → Result RestoreError (Unit {0}) × FramObject
reopen_published backup events object =
    verify_reopened backup events
      (open_space object.space_id events.reopen rejects
        (new_instance (new_store object.storage object.chunk_bytes object.batch_keys)))
      object

-- The storage transaction of a restore, and what follows it.
abbrev pub publish_backup :
    Backup
    → RestoreEvents
    → Result ChunkError (Bool × DurableFramStore)
    → FramObject
    → Result RestoreError (Unit {0}) × FramObject
publish_backup backup events (err thrown) object = (err storage_failed, reset_fence object)
publish_backup backup events (ok (false, store)) object = (err storage_failed, reset_fence object)
publish_backup backup events (ok (true, store)) object =
    reopen_published backup events
      (record object { storage = store.storage; pending = some (marker_of backup object.space_id) })

abbrev pub replace_checked :
    Backup
    → RestoreEvents
    → Target
    → Result RestoreError (Unit {0})
    → FramObject
    → Result RestoreError (Unit {0}) × FramObject
replace_checked backup events target (err thrown) object = (err thrown, reset_fence object)
replace_checked backup events target (ok u) object =
    publish_backup backup events
      (replace_parts events.replacement backup.bytes (length backup.bytes) target.clearing
        target.store)
      object

abbrev pub restore_result :
    Text
    → Backup
    → Target
    → Result RestoreError (Unit {0}) × FramObject
    → Result RestoreError Restored × FramObject
restore_result space_id backup target (err thrown, object) = (err thrown, object)
restore_result space_id backup target (ok u, object) = (
  ok (record {
    format = backup_format;
    space_id = space_id;
    served_version = backup.served_version;
    byte_length = length backup.bytes;
    sha256 = backup.sha256;
    replaced = is_occupied target;
  }),
  object,
)

-- The target as it is read behind the fence.
abbrev pub replace_target :
    (List ℕ → Text)
    → Backup
    → Option ExpectedCurrent
    → RestoreEvents
    → Result RestoreError Target
    → FramObject
    → Result RestoreError Restored × FramObject
replace_target sha256 backup expected events (err thrown) object = (err thrown, reset_fence object)
replace_target sha256 backup expected events (ok target) object =
    restore_result object.space_id backup target
      (replace_checked backup events target (check_target sha256 expected target) object)

-- The checks that leave the live guest alone, and the bytes that the preflight leaves in the array of
-- the backup.
unfoldable pub before_fence :
    (List ℕ → Text)
    → Backup
    → Option ExpectedCurrent
    → RestoreEvents
    → FramObject
    → Result RestoreError (List ℕ)
before_fence sha256 backup expected events object = do
  restore_options expected
  verified_backup sha256 backup object.space_id
  left ← preflight_framlog object.space_id backup events.preflight_open events.preflight_status
  peek_target expected object
  ok left

-- The rest of a restore, with the bytes as the preflight left them under the digest of the backup.
abbrev pub behind_fence :
    (List ℕ → Text)
    → Backup
    → Option ExpectedCurrent
    → RestoreEvents
    → Result RestoreError (List ℕ)
    → FramObject
    → Result RestoreError Restored × FramObject
behind_fence sha256 backup expected events (err thrown) object = (err thrown, object)
behind_fence sha256 backup expected events (ok left) object =
    let quiet = fence_live object in
    replace_target sha256 (record backup { bytes = left }) expected events (load_target quiet) quiet

-- `restoreFramlog(backup, options)`
unfoldable pub restore_framlog :
    (List ℕ → Text)
    → Backup
    → Option ExpectedCurrent
    → RestoreEvents
    → FramObject
    → Result RestoreError Restored × FramObject
restore_framlog sha256 backup expected events object =
    behind_fence sha256 backup expected events (before_fence sha256 backup expected events object)
      object
