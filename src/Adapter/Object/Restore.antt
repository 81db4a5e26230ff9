-- ===== src/Adapter/Object/Restore.antt =====
-- adapter.mjs: `restoreFramlog` of FramDurableObjectBase, from the checks of the backup over the
-- replacement of the target to the guest that is opened on it.
use fram.Prelude.{
  ℕ, Bool, true, false, not, ◌&&◌, ◌||◌, Option, none, some, List, [], ◌∷◌, ◌==◌, same_elems,
  length, take, Result, ok, err, require, ◌>>=◌, ◌>>◌, if◌then◌else◌,
}
use fram.Text.{Text}
use fram.Adapter.Chunks.{Plan}
use fram.Adapter.Clear.{clear_plan}
use fram.Adapter.HostImage.{new_image}
use fram.Adapter.Store.{Which, DurableFramStore, Outcome, Host, new_store, taken}
use fram.Adapter.Status.{BackupCode, status_frame, decode_status_served_version}
use fram.Adapter.Backup.{
  Backup, RestoreError, verification, target_not_empty, conflict, storage_failed, engine_failed,
  backup_refused, refused, is_safe_length, is_sha256, invalid_backup,
}
use fram.Adapter.Instance.{
  Guest, Ending, replies, traps, Reply, Fence, administrative_fence, restore_fenced, HostCall,
  host_call,
}
use fram.Adapter.Instance.Opening.{load_object}
use fram.Adapter.Object.{FramObject, Marker}

-- The identity of the log that a replacement expects; none where the target must be empty.
pub record ExpectedCurrent : Type 0 where
  pub byte_length : ℕ
  pub sha256 : Text

-- `validateExpectedCurrent`, and `#restoreOptions` of options that have the right fields.
unfoldable pub validate_expected_current : ExpectedCurrent → Result RestoreError (Unit {0})
validate_expected_current expected = do
  require (is_safe_length expected.byte_length) invalid_backup
  require (is_sha256 expected.sha256) invalid_backup

abbrev pub restore_options : Option ExpectedCurrent → Result RestoreError (Unit {0})
restore_options none = ok tt
restore_options (some expected) = validate_expected_current expected

-- The guests of a restore, and the ends of its transactions.
pub record RestoreEvents : Type 0 where
  pub preflight_open : Guest
  pub preflight_status : Guest
  pub replacement : Outcome
  pub reopen : Guest
  pub reopen_status : Guest
  pub reopen_outcome : Outcome
  pub clearing : Outcome

-- The host of the preflight: the array of the backup's bytes as its log, and no image.
abbrev pub preflight_host : List ℕ → Host
preflight_host bytes = record {
  store = new_store [] 1 1;
  log_image = new_image bytes;
  snapshot_image = new_image [];
  sync_pending = false;
  poisoned = false;
  landed_commits = 0;
}

-- The array of the backup's bytes, which the log image writes in place until it needs a longer one: it
-- is the image's own buffer while the capacity is its length.
abbrev pub written_through : Host → List ℕ → List ℕ
written_through host shared =
    if host.log_image.capacity == length shared then host.log_image.bytes else shared

-- The calls of a guest in the preflight, on the host and the array that it shares.
unfoldable pub shared_calls : List HostCall → Host × List ℕ → Host × List ℕ
shared_calls [] state = state
shared_calls (call ∷ calls) (host, shared) =
    let after = (host_call call host).1 in shared_calls calls (after, written_through after shared)

-- The end of a guest's call over the store of the preflight, which commits nowhere.
abbrev pub in_memory : Ending → Host × List ℕ → Result RestoreError Reply × (Host × List ℕ)
in_memory traps state = (err engine_failed, state)
in_memory (replies reply) (host, shared) = (
  ok reply,
  (
    record host {
      log_image = taken host.log_image;
      snapshot_image = taken host.snapshot_image;
      sync_pending = false;
    },
    shared,
  ),
)

abbrev pub bytes_of_log : Host → List ℕ
bytes_of_log host = take host.log_image.size host.log_image.bytes

-- `#preflightFramlog`: the log of the guest is compared with the array that it was loaded from. The
-- result is what that array holds afterwards, which is what the restore goes on with.
unfoldable pub preflight_framlog : Text → Backup → Guest → Guest → Result RestoreError (List ℕ)
preflight_framlog space_id backup open_guest status_guest = do
  let opened =
      in_memory open_guest.ending
        (shared_calls open_guest.calls (preflight_host backup.bytes, backup.bytes))
  reply ← opened.0
  require (reply.status == 0) (backup_refused BackupCode.invalid_framlog)
  frame ← refused (status_frame space_id)
  let asked = in_memory status_guest.ending (shared_calls status_guest.calls opened.1)
  answer ← asked.0
  require (answer.status == 0) (backup_refused BackupCode.engine)
  version ← refused (decode_status_served_version answer.response space_id)
  require (same_elems (bytes_of_log asked.1.0) asked.1.1)
      (backup_refused BackupCode.invalid_framlog)
  require (same_elems version backup.served_version) verification
  ok asked.1.1

-- What `#loadTarget` reads.
pub record Target : Type 0 where
  pub store : DurableFramStore
  pub log_bytes : List ℕ
  pub clearing : Plan
  pub pending : Option Marker

abbrev pub readable {ℓ κ} : {E : Type ℓ} {A : Type κ} → Result E A → Result RestoreError A
readable (ok value) = ok value
readable (err thrown) = err storage_failed

-- `#loadTarget`
unfoldable pub load_target : FramObject → Result RestoreError Target
load_target object = do
  (store, log_bytes) ←
      readable
        (load_object Which.log (new_store object.storage object.chunk_bytes object.batch_keys))
  clearing ← readable (clear_plan store.image_range store.storage)
  ok (record {
    store = store;
    log_bytes = log_bytes;
    clearing = clearing;
    pending = object.pending;
  })

abbrev is_empty_list {ℓ} : {A : Type ℓ} → List A → Bool
is_empty_list [] = true
is_empty_list (x ∷ xs) = false

abbrev is_pending : Option Marker → Bool
is_pending none = false
is_pending (some marker) = true

unfoldable pub is_occupied : Target → Bool
is_occupied target =
    not (is_empty_list target.log_bytes)
    || (not (is_empty_list target.clearing.stale) || is_pending target.pending)

-- The checks on the target before it is replaced.
abbrev pub check_target :
    (List ℕ → Text) → Option ExpectedCurrent → Target → Result RestoreError (Unit {0})
check_target sha256 none target = require (not (is_occupied target)) target_not_empty
check_target sha256 (some expected) target =
    require
      ((length target.log_bytes == expected.byte_length)
        && same_elems (sha256 target.log_bytes) expected.sha256)
      conflict

-- The look at the target before a healthy guest is fenced.
abbrev pub peek_target : Option ExpectedCurrent → FramObject → Result RestoreError (Unit {0})
peek_target (some expected) object = ok tt
peek_target none object =
    load_target object >>= λ target. require (not (is_occupied target)) target_not_empty

-- `#fenceLiveForRestore`: the fence of the object, and no live instance.
abbrev pub fence_of : Option Fence → Fence
fence_of none = administrative_fence
fence_of (some reason) = reason

unfoldable pub fence_live : FramObject → FramObject
fence_live object = record object {
  administrative_fence = some (fence_of object.administrative_fence);
  live = none;
}

-- The fence that stays after a restore failed before its publication.
abbrev pub kept_fence : Option Fence → Option Fence
kept_fence none = none
kept_fence (some administrative_fence) = none
kept_fence (some restore_fenced) = some restore_fenced

unfoldable pub reset_fence : FramObject → FramObject
reset_fence object = record object {
  administrative_fence = kept_fence object.administrative_fence;
  live = none;
}
