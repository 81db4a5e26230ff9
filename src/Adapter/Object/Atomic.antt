-- ===== src/Adapter/Object/Atomic.antt =====
-- adapter.mjs: `restoreFramlog` leaves the target as it was, or replaces it whole.
use fram.Prelude.{
  ℕ, ◌≡◌, ◌⊎◌, refl, inl, inr, Option, none, some, List, [], length, Result, ok, err,
}
use fram.Text.{Text}
use fram.Adapter.Storage.{Storage}
use fram.Adapter.Store.{Outcome, lands, rejects, replace_parts}
use fram.Adapter.Store.Replace.{replace_parts-lands}
use fram.Adapter.Backup.{Backup, RestoreError, storage_failed}
use fram.Adapter.Instance.Opened.{HoldsBytes}
use fram.Adapter.Object.{FramObject}
use fram.Adapter.Object.Sound.{IsSound}
use fram.Adapter.Object.Target.{IsTarget, load_target-IsTarget, rejected_parts}
use fram.Adapter.Object.Restore.{
  ExpectedCurrent, RestoreEvents, Target, load_target, check_target, fence_live, reset_fence,
}
use fram.Adapter.Object.Publish.{
  Restored, marker_of, publish_backup, replace_checked, restore_result, replace_target,
  before_fence, behind_fence, reopen_published, restore_framlog,
}
use fram.Adapter.Object.Restored.{IsRestored, IsFenced, PublishedEnds, reopen_published-Ends}

-- A restore that failed before its publication.
pub record IsUntouched (before after : FramObject) : Type 0 where
  pub storage_kept : after.storage ≡ before.storage
  pub pending_kept : after.pending ≡ before.pending
  pub sound : IsSound after

-- The end of a restore: the backup, or else the target as it was, or a fence behind the publication.
abbrev pub RestoreEnds {ℓ} :
    {A : Type ℓ} → Backup → FramObject → Result RestoreError A → FramObject → Type 0
RestoreEnds backup before (ok value) after = IsRestored backup after
RestoreEnds backup before (err thrown) after =
    IsUntouched before after ⊎ IsFenced (marker_of backup before.space_id) after

reset_fence-IsUntouched :
    (before object : FramObject)
    → IsSound object
    → object.storage ≡ before.storage
    → object.pending ≡ before.pending
    → IsUntouched before (reset_fence object)
unfolding reset_fence
reset_fence-IsUntouched before object sound storage pending = record {
  storage_kept = storage;
  pending_kept = pending;
  sound = record {
    positive_chunk = sound.positive_chunk;
    positive_batch = sound.positive_batch;
    whole = sound.whole;
    live_sound = tt;
  };
}

module _ (backup : Backup) (events : RestoreEvents) (before object : FramObject)
    (sound : IsSound object) (same_space : object.space_id ≡ before.space_id)
    (same_storage : object.storage ≡ before.storage)
    (same_pending : object.pending ≡ before.pending) (none_live : object.live ≡ none) where
  failed :
      (thrown : RestoreError)
      → RestoreEnds {A = Restored} backup before (err thrown) (reset_fence object)
  failed thrown = inl (reset_fence-IsUntouched before object sound same_storage same_pending)

  landed :
      (map : Storage)
      → HoldsBytes map backup.bytes []
      → let done =
          reopen_published backup events
            (record object { storage = map; pending = some (marker_of backup object.space_id) }) in
        PublishedEnds backup (marker_of backup object.space_id) done.0 done.1
  landed map held =
      reopen_published-Ends backup (marker_of backup object.space_id)
        (record object { storage = map; pending = some (marker_of backup object.space_id) })
        (record {
          positive_chunk = sound.positive_chunk;
          positive_batch = sound.positive_batch;
          whole = (backup.bytes, [], held);
          live_sound = rw none_live tt;
        })
        refl events

  published_or_fenced :
      (result : Result RestoreError (Unit {0})) (after : FramObject)
      → PublishedEnds backup (marker_of backup object.space_id) result after
      → RestoreEnds backup before result after
  published_or_fenced (ok u) after ends = ends
  published_or_fenced (err thrown) after ends = inr (rw (← same_space) ends)

  publish_backup-Ends :
      (target : Target) (outcome : Outcome)
      → IsTarget object target
      → let done =
          publish_backup backup events
            (replace_parts outcome backup.bytes (length backup.bytes) target.clearing target.store)
            object in
        RestoreEnds backup before done.0 done.1
  publish_backup-Ends target lands t =
      let (after, lands_eq, log_stored, image_stored) =
        replace_parts-lands target.store t.old backup.bytes t.old_size target.clearing t.log_prefix
          t.image_prefix t.log_configured t.image_configured t.held t.found in
      rw lands_eq (
        published_or_fenced _ _
          (landed after.storage (record { log_stored = log_stored; image_stored = image_stored })))
  publish_backup-Ends target rejects t =
      let (store, rejects_eq) = rejected_parts backup.bytes (length backup.bytes) target t in
      rw rejects_eq (failed storage_failed)

  replace_checked-Ends :
      (target : Target) (checked : Result RestoreError (Unit {0}))
      → IsTarget object target
      → let done = replace_checked backup events target checked object in
        RestoreEnds backup before done.0 done.1
  replace_checked-Ends target (err thrown) t = failed thrown
  replace_checked-Ends target (ok u) t = publish_backup-Ends target events.replacement t

  restore_result-Ends :
      (space_id : Text) (target : Target) (result : Result RestoreError (Unit {0}))
      (after : FramObject)
      → RestoreEnds backup before result after
      → let done = restore_result space_id backup target (result, after) in
        RestoreEnds backup before done.0 done.1
  restore_result-Ends space_id target (ok u) after ends = ends
  restore_result-Ends space_id target (err thrown) after ends = ends

  replace_target-Ends :
      (sha256 : List ℕ → Text) (expected : Option ExpectedCurrent)
      (read : Result RestoreError Target)
      → load_target object ≡ read
      → let done = replace_target sha256 backup expected events read object in
        RestoreEnds backup before done.0 done.1
  replace_target-Ends sha256 expected (err thrown) h = failed thrown
  replace_target-Ends sha256 expected (ok target) h =
      restore_result-Ends object.space_id target _ _ (
        replace_checked-Ends target (check_target sha256 expected target)
          (load_target-IsTarget object target sound h))

-- A guest that is retained is fenced, and the object has none.
pub fence_live-IsSound : (object : FramObject) → IsSound object → IsSound (fence_live object)
unfolding fence_live
fence_live-IsSound object sound = record {
  positive_chunk = sound.positive_chunk;
  positive_batch = sound.positive_batch;
  whole = sound.whole;
  live_sound = tt;
}

-- The backup as a restore publishes it: with the bytes that the preflight left.
abbrev pub published_of : Backup → Result RestoreError (List ℕ) → Backup
published_of backup (ok left) = record backup { bytes = left }
published_of backup (err thrown) = backup

pub behind_fence-Ends :
    (sha256 : List ℕ → Text) (backup : Backup) (expected : Option ExpectedCurrent)
    (events : RestoreEvents) (object : FramObject) (checked : Result RestoreError (List ℕ))
    → IsSound object
    → let done = behind_fence sha256 backup expected events checked object in
      RestoreEnds (published_of backup checked) object done.0 done.1
unfolding fence_live
behind_fence-Ends sha256 backup expected events object (err thrown) sound =
    inl (record { storage_kept = refl; pending_kept = refl; sound = sound })
behind_fence-Ends sha256 backup expected events object (ok left) sound =
    replace_target-Ends (record backup { bytes = left }) events object (fence_live object)
      (fence_live-IsSound object sound) refl refl refl refl sha256 expected
      (load_target (fence_live object)) refl

-- A restore of a sound object, whatever its guests do and its storage answers, ends in one of three
-- ways: it returns, and the storage holds the bytes that the preflight left in the array of the backup,
-- under a live guest, with no fence and nothing pending; it throws, and the storage and what was pending
-- are as they were; or it throws, and the object is fenced, with the marker of this restore pending.
pub restore_framlog-Ends :
    (sha256 : List ℕ → Text) (backup : Backup) (expected : Option ExpectedCurrent)
    (events : RestoreEvents) (object : FramObject)
    → IsSound object
    → let done = restore_framlog sha256 backup expected events object in
      RestoreEnds
        (published_of backup (before_fence sha256 backup expected events object))
        object
        done.0
        done.1
unfolding restore_framlog
restore_framlog-Ends sha256 backup expected events object sound =
    behind_fence-Ends sha256 backup expected events object
      (before_fence sha256 backup expected events object) sound
