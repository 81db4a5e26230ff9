-- ===== src/Adapter/Object/Export.antt =====
-- adapter.mjs: `exportFramlog` of FramDurableObjectBase.
use fram.Prelude.{ℕ, List, Result, ok, err, require, ◌>>=◌, ◌>>◌, length, same_elems}
use fram.Text.{Text}
use fram.Adapter.Status.{parse_framlog_header}
use fram.Adapter.Backup.{Backup, RestoreError, space_mismatch, refused, backup_format}
use fram.Adapter.Instance.Opening.{portable_framlog}
use fram.Adapter.Instance.{FramInstance, InstanceError}
use fram.Adapter.Object.{FramObject, ObjectError, instance_failed, Events, with_live, fram_of}

pub data ExportError : Type 0 where
  export_failed : ObjectError → ExportError
  export_refused : RestoreError → ExportError

abbrev pub of_object {ℓ} : {A : Type ℓ} → Result ObjectError A → Result ExportError A
of_object (ok value) = ok value
of_object (err thrown) = err (export_failed thrown)

abbrev pub of_restore {ℓ} : {A : Type ℓ} → Result RestoreError A → Result ExportError A
of_restore (ok value) = ok value
of_restore (err thrown) = err (export_refused thrown)

-- The backup of an exported log.
unfoldable pub backup_of :
    (List ℕ → Text) → Text → Result ObjectError (List ℕ × Text) → Result ExportError Backup
backup_of sha256 space_id exported = do
  (log_bytes, served_version) ← of_object exported
  header ← of_restore (refused (parse_framlog_header log_bytes))
  require (same_elems header space_id) (export_refused space_mismatch)
  ok (record {
    format = backup_format;
    space_id = header;
    served_version = served_version;
    byte_length = length log_bytes;
    sha256 = sha256 log_bytes;
    bytes = log_bytes;
  })

abbrev pub of_instance {ℓ} : {A : Type ℓ} → Result InstanceError A → Result ObjectError A
of_instance (ok value) = ok value
of_instance (err thrown) = err (instance_failed thrown)

-- `instance.portableFramlog()` of the instance that `fram()` gives.
abbrev pub export_booted :
    Text
    → Events
    → Result ObjectError FramInstance × FramObject
    → Result ObjectError (List ℕ × Text) × FramObject
export_booted space_id events (err thrown, object) = (err thrown, object)
export_booted space_id events (ok instance, object) =
    let done = portable_framlog space_id events.guest events.outcome instance in
    (of_instance done.0, with_live done.1 object)

-- `exportFramlog()`. The instance is called outside of `#use`: it is kept whatever it throws.
unfoldable pub export_framlog :
    (List ℕ → Text) → Events → FramObject → Result ExportError Backup × FramObject
export_framlog sha256 events object =
    let done =
      export_booted object.space_id events (fram_of events.boot_guest events.boot_outcome object) in
    (backup_of sha256 object.space_id done.0, done.1)
