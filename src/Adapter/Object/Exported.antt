-- ===== src/Adapter/Object/Exported.antt =====
-- adapter.mjs: what `exportFramlog` exports, and the object after it.
use fram.Prelude.{
  ℕ, ◌≡◌, true, refl, ap, ◌∙◌, inl, inr, List, length, Result, ok, err, require, >>=-eq-ok,
  require-eq-ok, ok-injective, same_elems, same_elems-eq,
}
use fram.Text.{Text, codes}
use fram.Adapter.Store.Saved.{Stores}
use fram.Adapter.Status.{BackupCode, parse_framlog_header}
use fram.Adapter.Backup.{Backup, RestoreError, space_mismatch, backup_format, refused}
use fram.Adapter.Instance.{FramInstance, InstanceError, assert_usable}
use fram.Adapter.Instance.Calls.{serialise-refused}
use fram.Adapter.Instance.Opened.{IsWhole}
use fram.Adapter.Instance.Opening.{portable_framlog}
use fram.Adapter.Instance.Portable.{ExportEnds, portable_framlog-ExportEnds}
use fram.Adapter.Object.{FramObject, ObjectError, Events, with_live, fram_of, is_poisoned}
use fram.Adapter.Object.Export.{
  export_refused, of_restore, of_instance, backup_of, export_booted, export_framlog,
}
use fram.Adapter.Object.Sound.{
  IsSound, IsReady, with_live-IsSound, poisoned_host, fram_of-IsReady, stale-refused,
}

-- The object with an instance that an export has left.
abbrev HasExported : Result InstanceError (List ℕ × Text) → FramObject → Type 0
HasExported (ok (bytes, version)) object = Stores object.storage (codes "framlog/") bytes
HasExported (err thrown) object = Unit {0}

stale-IsSound :
    (instance : FramInstance) (object : FramObject)
    → IsSound object
    → IsWhole instance.host.store.storage
    → is_poisoned instance ≡ true
    → IsSound (with_live instance object)
unfolding with_live
stale-IsSound instance object sound whole poisoned = record {
  positive_chunk = sound.positive_chunk;
  positive_batch = sound.positive_batch;
  whole = whole;
  live_sound = inr (record { poisoned = poisoned; same_storage = refl });
}

exported-IsSound :
    (result : Result InstanceError (List ℕ × Text)) (instance : FramInstance) (object : FramObject)
    → IsSound object
    → ExportEnds result instance
    → IsSound (with_live instance object) × HasExported result (with_live instance object)
unfolding with_live
exported-IsSound (ok (bytes, version)) instance object sound exported = (
  with_live-IsSound instance object sound exported.loaded exported.tracked exported.usable,
  exported.log_stored,
)
exported-IsSound (err thrown) instance object sound (whole, inl (loaded, tracked, usable)) =
    (with_live-IsSound instance object sound loaded tracked usable, tt)
exported-IsSound (err thrown) instance object sound (whole, inr poisoned) =
    (stale-IsSound instance object sound whole (poisoned_host instance poisoned), tt)

-- What the export of an instance leaves of the object.
abbrev ExportedEnds : Result ObjectError (List ℕ × Text) → FramObject → Type 0
ExportedEnds (ok (bytes, version)) object =
    IsSound object × Stores object.storage (codes "framlog/") bytes
ExportedEnds (err thrown) object = IsSound object

of_instance-Ends :
    (result : Result InstanceError (List ℕ × Text)) (object : FramObject)
    → IsSound object
    → HasExported result object
    → ExportedEnds (of_instance result) object
of_instance-Ends (ok (bytes, version)) object sound stored = (sound, stored)
of_instance-Ends (err thrown) object sound stored = sound

portable-refused :
    (space_id : Text) (events : Events) (instance : FramInstance) (thrown : InstanceError)
    → assert_usable instance ≡ err thrown
    → portable_framlog space_id events.guest events.outcome instance ≡ (err thrown, instance)
unfolding portable_framlog
portable-refused space_id events instance thrown refused =
    serialise-refused _ instance thrown refused

export_booted-Ends :
    (space_id : Text) (events : Events) (ready : Result ObjectError FramInstance)
    (object : FramObject)
    → IsReady ready object
    → let done = export_booted space_id events (ready, object) in ExportedEnds done.0 done.1
export_booted-Ends space_id events (err thrown) object sound = sound
export_booted-Ends space_id events (ok instance) object (sound, inl live) =
    let (kept, stored) = exported-IsSound _ _ object sound (
      portable_framlog-ExportEnds space_id events.guest events.outcome instance live.loaded
        live.tracked live.usable) in
    of_instance-Ends _ _ kept stored
export_booted-Ends space_id events (ok instance) object (sound, inr stale) =
    let (thrown, unusable) = stale-refused instance stale.poisoned in
    rw (portable-refused space_id events instance thrown unusable)
      (stale-IsSound instance object sound (rw stale.same_storage sound.whole) stale.poisoned)

-- What an exported backup is.
pub record IsBackup (sha256 : List ℕ → Text) (space_id : Text) (object : FramObject)
    (backup : Backup) : Type 0 where
  pub stored : Stores object.storage (codes "framlog/") backup.bytes
  pub of_space : parse_framlog_header backup.bytes ≡ ok space_id
  pub same_space : backup.space_id ≡ space_id
  pub has_format : backup.format ≡ backup_format
  pub has_length : backup.byte_length ≡ length backup.bytes
  pub has_digest : backup.sha256 ≡ sha256 backup.bytes

of_restore-eq-ok {ℓ} :
    {A : Type ℓ} (result : Result RestoreError A) (value : A)
    → of_restore result ≡ ok value
    → result ≡ ok value
of_restore-eq-ok (ok a) value h = let same = ok-injective h in rw same refl
of_restore-eq-ok (err e) value h = cc

refused-eq-ok {ℓ} :
    {A : Type ℓ} (result : Result BackupCode A) (value : A)
    → refused result ≡ ok value
    → result ≡ ok value
refused-eq-ok (ok a) value h = let same = ok-injective h in rw same refl
refused-eq-ok (err e) value h = cc

backup_of-IsBackup :
    (sha256 : List ℕ → Text) (space_id : Text) (exported : Result ObjectError (List ℕ × Text))
    (object : FramObject) (backup : Backup)
    → ExportedEnds exported object
    → backup_of sha256 space_id exported ≡ ok backup
    → IsBackup sha256 space_id object backup
unfolding backup_of
backup_of-IsBackup sha256 space_id (err thrown) object backup sound h = cc
backup_of-IsBackup sha256 space_id (ok (bytes, version)) object backup (sound, stored) h =
    let (header, parsed, h1) = >>=-eq-ok (of_restore (refused (parse_framlog_header bytes))) _ h in
    let (u, same, h2) =
      >>=-eq-ok (require (same_elems header space_id) (export_refused space_mismatch)) _ h1 in
    let space = same_elems-eq header space_id (require-eq-ok (same_elems header space_id) _ same) in
    rw (← ok-injective h2) (record {
      stored = stored;
      of_space =
          refused-eq-ok (parse_framlog_header bytes) space_id (
            of_restore-eq-ok (refused (parse_framlog_header bytes)) space_id
              (parsed ∙ ap ok space));
      same_space = space;
      has_format = refl;
      has_length = refl;
      has_digest = refl;
    })

backup_of-IsSound :
    (sha256 : List ℕ → Text) (space_id : Text) (exported : Result ObjectError (List ℕ × Text))
    (object : FramObject)
    → ExportedEnds exported object
    → IsSound object
backup_of-IsSound sha256 space_id (ok (bytes, version)) object (sound, stored) = sound
backup_of-IsSound sha256 space_id (err thrown) object sound = sound

export_framlog-Ends :
    (events : Events) (object : FramObject)
    → IsSound object
    → let done =
        export_booted object.space_id events
          (fram_of events.boot_guest events.boot_outcome object) in
      ExportedEnds done.0 done.1
export_framlog-Ends events object sound =
    export_booted-Ends object.space_id events _ _
      (fram_of-IsReady events.boot_guest events.boot_outcome object sound)

-- The object stays sound whatever `exportFramlog` gives.
pub export_framlog-IsSound :
    (sha256 : List ℕ → Text) (events : Events) (object : FramObject)
    → IsSound object
    → IsSound (export_framlog sha256 events object).1
unfolding export_framlog
export_framlog-IsSound sha256 events object sound =
    backup_of-IsSound sha256 object.space_id _ _ (export_framlog-Ends events object sound)

-- In a sound object, a backup that `exportFramlog` gives is of the log that the storage holds
-- afterwards: that log, its length and its digest, for the space that its header names, which is the
-- space of the object.
pub export_framlog-IsBackup :
    (sha256 : List ℕ → Text) (events : Events) (object : FramObject) (backup : Backup)
    → IsSound object
    → (export_framlog sha256 events object).0 ≡ ok backup
    → IsBackup sha256 object.space_id (export_framlog sha256 events object).1 backup
unfolding export_framlog
export_framlog-IsBackup sha256 events object backup sound h =
    backup_of-IsBackup sha256 object.space_id _ _ backup (export_framlog-Ends events object sound) h
