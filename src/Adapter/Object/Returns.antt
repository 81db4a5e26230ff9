-- ===== src/Adapter/Object/Returns.antt =====
-- adapter.mjs: a restore returns, where its checks pass, its transactions land and the guests on the
-- published log answer.
use fram.Adapter.Object.Restored.{IsRestored}
use fram.Adapter.Object.Atomic.{RestoreEnds, fence_live-IsSound, behind_fence-Ends}
use fram.Prelude.{
  ℕ, ◌<◌, ◌≡◌, refl, true, Option, none, some, List, [], ◌==◌, length, same_elems_self, Result, ok,
  err,
}
use fram.Text.{Text}
use fram.Adapter.Store.{Outcome, lands, rejects, new_store, replace_parts}
use fram.Adapter.Store.Replace.{replace_parts-lands}
use fram.Adapter.Status.{status_frame, decode_status_served_version}
use fram.Adapter.Backup.{Backup, RestoreError, verified_backup}
use fram.Adapter.Instance.{Guest, Reply}
use fram.Adapter.Instance.Answers.{answers, open_space-answers, portable_framlog-answers}
use fram.Adapter.Instance.Opened.{HoldsBytes, load_objects-Resident}
use fram.Adapter.Object.{FramObject}
use fram.Adapter.Object.Sound.{IsSound}
use fram.Adapter.Object.Target.{IsTarget, load_target-IsTarget}
use fram.Adapter.Object.Restore.{
  ExpectedCurrent, RestoreEvents, Target, preflight_framlog, load_target, check_target, peek_target,
  fence_live, restore_options,
}
use fram.Adapter.Object.Publish.{
  Restored, marker_of, reopen_published, publish_backup, restore_result, replace_target,
  before_fence, behind_fence, restore_framlog,
}

-- A restore whose transactions land and whose guests on the published log answer.
abbrev pub smooth : Reply → Reply → Guest → Guest → Outcome → RestoreEvents
smooth opened status preflight_open preflight_status outcome = record {
  preflight_open = preflight_open;
  preflight_status = preflight_status;
  replacement = lands;
  reopen = answers opened;
  reopen_status = answers status;
  reopen_outcome = outcome;
  clearing = lands;
}

module _ (backup : Backup) (opened status : Reply) (frame : List ℕ) (space : Text)
    (asks : status_frame space ≡ ok frame) (opens : (opened.status == 0) ≡ true)
    (answered : (status.status == 0) ≡ true)
    (version : decode_status_served_version status.response space ≡ ok backup.served_version)
    (preflight_open preflight_status : Guest) (outcome : Outcome) where
  abbrev events : RestoreEvents
  events = smooth opened status preflight_open preflight_status outcome

  reopen_published-returns :
      (object : FramObject)
      → object.space_id ≡ space
      → 0 < object.chunk_bytes
      → 0 < object.batch_keys
      → HoldsBytes object.storage backup.bytes []
      → (reopen_published backup events object).0 ≡ ok tt
  unfolding reopen_published
  reopen_published-returns object same_space positive_chunk positive_batch held =
      let start = new_store object.storage object.chunk_bytes object.batch_keys in
      let r =
        load_objects-Resident object.storage object.chunk_bytes object.batch_keys positive_chunk
          positive_batch backup.bytes [] held in
      simp
        (
          same_space,
          open_space-answers space opened rejects start r.store backup.bytes [] r.loads opens,
          opens,
          portable_framlog-answers space status outcome start r.store backup.bytes [] frame
              backup.served_version asks answered version,
          same_elems_self backup.bytes,
          same_elems_self backup.served_version,
        )
        refl

  publish_backup-returns :
      (object : FramObject) (target : Target)
      → object.space_id ≡ space
      → IsSound object
      → IsTarget object target
      → (publish_backup backup events
          (replace_parts lands backup.bytes (length backup.bytes) target.clearing target.store)
          object).0
        ≡ ok tt
  publish_backup-returns object target same_space sound t =
      let (after, lands_eq, log_stored, image_stored) =
        replace_parts-lands target.store t.old backup.bytes t.old_size target.clearing t.log_prefix
          t.image_prefix t.log_configured t.image_configured t.held t.found in
      simp lands_eq (
        reopen_published-returns
          (record object {
            storage = after.storage;
            pending = some (marker_of backup object.space_id);
          })
          same_space sound.positive_chunk sound.positive_batch
          (record { log_stored = log_stored; image_stored = image_stored }))

  restore_result-returns :
      (space_id : Text) (target : Target) (result : Result RestoreError (Unit {0}))
      (after : FramObject)
      → result ≡ ok tt
      → (value : Restored) × ((restore_result space_id backup target (result, after)).0 ≡ ok value)
  restore_result-returns space_id target (ok u) after h = (_, refl)
  restore_result-returns space_id target (err thrown) after h = absurd (cc)

  replace_target-returns :
      (sha256 : List ℕ → Text) (expected : Option ExpectedCurrent) (object : FramObject)
      (target : Target)
      → object.space_id ≡ space
      → IsSound object
      → load_target object ≡ ok target
      → check_target sha256 expected target ≡ ok tt
      → (value : Restored) × ((replace_target sha256 backup expected events (ok target) object).0
          ≡ ok value)
  replace_target-returns sha256 expected object target same_space sound found accepted =
      rw accepted (
        restore_result-returns object.space_id target _ _ (
          publish_backup-returns object target same_space sound
            (load_target-IsTarget object target sound found)))

  behind_fence-returns :
      (sha256 : List ℕ → Text) (expected : Option ExpectedCurrent) (object : FramObject)
      (target : Target)
      → object.space_id ≡ space
      → IsSound object
      → load_target object ≡ ok target
      → check_target sha256 expected target ≡ ok tt
      → (value : Restored) × ((behind_fence sha256 backup expected events
            (ok backup.bytes)
            object).0
          ≡ ok value)
  unfolding fence_live load_target
  behind_fence-returns sha256 expected object target same_space sound found accepted =
      let quiet = fence_live object in
      let found' : load_target quiet ≡ ok target = found in
      rw found' (
        replace_target-returns sha256 expected quiet target same_space
          (fence_live-IsSound object sound) found' accepted)

-- The look at the target before the fence passes where the check behind it does.
peek_target-accepted :
    (sha256 : List ℕ → Text) (expected : Option ExpectedCurrent) (object : FramObject)
    (target : Target)
    → load_target object ≡ ok target
    → check_target sha256 expected target ≡ ok tt
    → peek_target expected object ≡ ok tt
peek_target-accepted sha256 (some expected) object target found accepted = refl
peek_target-accepted sha256 none object target found accepted = rw found accepted

before_fence-passes :
    (sha256 : List ℕ → Text) (backup : Backup) (expected : Option ExpectedCurrent)
    (events : RestoreEvents) (object : FramObject) (target : Target) (left : List ℕ)
    → restore_options expected ≡ ok tt
    → verified_backup sha256 backup object.space_id ≡ ok tt
    → preflight_framlog object.space_id backup events.preflight_open events.preflight_status
      ≡ ok left
    → load_target object ≡ ok target
    → check_target sha256 expected target ≡ ok tt
    → before_fence sha256 backup expected events object ≡ ok left
unfolding before_fence
before_fence-passes sha256 backup expected events object target left options verified replays found
      accepted =
    rw
      (
        options,
        verified,
        replays,
        peek_target-accepted sha256 expected object target found accepted,
      )
      refl

RestoreEnds-ok :
    (backup : Backup) (before after : FramObject) (result : Result RestoreError Restored)
    (value : Restored)
    → RestoreEnds backup before result after
    → result ≡ ok value
    → IsRestored backup after
RestoreEnds-ok backup before after (ok given) value ends h = ends
RestoreEnds-ok backup before after (err thrown) value ends h = absurd (cc)

-- A restore of a sound object returns, and ends with the bytes that the preflight left in the array of
-- the backup in the storage, under a live guest, no fence and nothing pending, where the options pass
-- their checks, the backup is verified and its preflight passes, the target can be read and is accepted,
-- both transactions land, and on the published log the guest writes nothing, opens with status 0 and
-- answers the status request with the version of the backup.
pub restore_framlog-returns :
    (sha256 : List ℕ → Text) (backup : Backup) (expected : Option ExpectedCurrent)
    (opened status : Reply) (frame : List ℕ) (preflight_open preflight_status : Guest)
    (outcome : Outcome) (object : FramObject) (target : Target) (left : List ℕ)
    → IsSound object
    → restore_options expected ≡ ok tt
    → verified_backup sha256 backup object.space_id ≡ ok tt
    → preflight_framlog object.space_id backup preflight_open preflight_status ≡ ok left
    → load_target object ≡ ok target
    → check_target sha256 expected target ≡ ok tt
    → status_frame object.space_id ≡ ok frame
    → (opened.status == 0) ≡ true
    → (status.status == 0) ≡ true
    → decode_status_served_version status.response object.space_id ≡ ok backup.served_version
    → let events = smooth opened status preflight_open preflight_status outcome in
      let done = restore_framlog sha256 backup expected events object in
      (value : Restored) × (done.0 ≡ ok value) × IsRestored (record backup { bytes = left }) done.1
unfolding restore_framlog
restore_framlog-returns sha256 backup expected opened status frame preflight_open preflight_status
      outcome object target left sound options verified replays found accepted asks opens answered
      version =
    let events = smooth opened status preflight_open preflight_status outcome in
    let passes =
      before_fence-passes sha256 backup expected events object target left options verified replays
        found accepted in
    let (value, returns) =
      behind_fence-returns (record backup { bytes = left }) opened status frame object.space_id asks
        opens answered version preflight_open preflight_status outcome sha256 expected object target
        refl sound found accepted in
    rw passes (
      value,
      returns,
      RestoreEnds-ok (record backup { bytes = left }) object _ _ value
          (behind_fence-Ends sha256 backup expected events object (ok left) sound) returns,
    )
