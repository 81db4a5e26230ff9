-- ===== src/Adapter/Object/Verified.antt =====
-- adapter.mjs: a backup that `exportFramlog` gives passes `verifiedBackup`.
use fram.Prelude.{
  ℕ, ◌≤◌, ◌≡◌, refl, ap, ◌∙◌, inl, inr, true, false, not, ◌&&◌, ◌-◌, ◌^◌, ◌+◌, List, length, leb,
  ◌==◌, take, drop, Bool-cases, le→leb, same_elems, same_elems_self, Result, ok, err, require,
  >>=-eq-ok, >>=-ok, require-ok, require-eq-ok, ok-injective, not-eq-true, arith,
}
use fram.Text.{Text}
use fram.Text.Numeral.{is_empty}
use fram.Adapter.Status.{
  BackupCode, invalid_framlog, view_field, decoded_or, framlog_magic, framlog_fixed_header_bytes,
  framlog_max_space_bytes, parse_framlog_header, status_frame, decode_status_served_version,
}
use fram.Text.Utf8.{decode}
use fram.Adapter.Backup.{
  Backup, invalid_backup, space_mismatch, verification, backup_format, is_safe_length, is_sha256,
  is_served_version, refused, verified_backup,
}
use fram.Adapter.Backup.Version.{decode_status_served_version-IsServed}
use fram.Adapter.Store.{Outcome}
use fram.Adapter.Instance.{Guest, Reply, FramInstance, InstanceError, enter}
use fram.Adapter.Instance.Calls.{usable_cases, serialise-usable, serialise-refused}
use fram.Adapter.Instance.Opening.{log_bytes, versioned, read_version, ask_status, portable_framlog}
use fram.Adapter.Object.{FramObject, ObjectError, Events, fram_of}
use fram.Adapter.Object.Sound.{IsSound}
use fram.Adapter.Object.Export.{
  export_refused, of_restore, of_instance, backup_of, export_booted, export_framlog,
}
use fram.Adapter.Object.Exported.{IsBackup, export_framlog-IsBackup}

-- An exported point whose version a backup may carry.
abbrev HasVersion {ℓ} : {E : Type ℓ} → Result E (List ℕ × Text) → Type 0
HasVersion (ok (bytes, version)) = is_served_version version ≡ true
HasVersion (err thrown) = Unit {0}

versioned-HasVersion :
    (bytes : List ℕ) (version : Result BackupCode Text)
    → ((t : Text) → version ≡ ok t → is_served_version t ≡ true)
    → HasVersion (versioned bytes version)
versioned-HasVersion bytes (ok t) served = served t refl
versioned-HasVersion bytes (err code) served = tt

read_version-HasVersion :
    (space_id : Text) (done : Result InstanceError Reply × FramInstance)
    → HasVersion (read_version space_id done).0
read_version-HasVersion space_id (err thrown, instance) = tt
read_version-HasVersion space_id (ok reply, instance) = elim (Bool-cases (reply.status == 0)) [
  | inl e ↦ rw e (
      versioned-HasVersion (log_bytes instance)
        (decode_status_served_version reply.response space_id)
        (decode_status_served_version-IsServed reply.response space_id))
  | inr e ↦ rw e tt
]

ask_status-HasVersion :
    (space_id : Text) (frame : Result BackupCode (List ℕ))
    (asked : Result InstanceError Reply × FramInstance) (instance : FramInstance)
    → HasVersion (ask_status space_id frame asked instance).0
ask_status-HasVersion space_id (err code) asked instance = tt
ask_status-HasVersion space_id (ok frame) asked instance = read_version-HasVersion space_id asked

portable_framlog-HasVersion :
    (space_id : Text) (guest : Guest) (outcome : Outcome) (instance : FramInstance)
    → HasVersion (portable_framlog space_id guest outcome instance).0
unfolding portable_framlog
portable_framlog-HasVersion space_id guest outcome instance = elim (usable_cases instance) [
  | inl usable ↦ rw (serialise-usable _ instance usable) (
      ask_status-HasVersion space_id (status_frame space_id) (enter guest outcome instance)
        instance)
  | inr (thrown, unusable) ↦ rw (serialise-refused _ instance thrown unusable) tt
]

of_instance-HasVersion :
    (result : Result InstanceError (List ℕ × Text))
    → HasVersion result
    → HasVersion (of_instance result)
of_instance-HasVersion (ok (bytes, version)) served = served
of_instance-HasVersion (err thrown) served = tt

export_booted-HasVersion :
    (space_id : Text) (events : Events) (ready : Result ObjectError FramInstance × FramObject)
    → HasVersion (export_booted space_id events ready).0
export_booted-HasVersion space_id events (err thrown, object) = tt
export_booted-HasVersion space_id events (ok instance, object) =
    of_instance-HasVersion _
      (portable_framlog-HasVersion space_id events.guest events.outcome instance)

backup_of-HasVersion :
    (sha256 : List ℕ → Text) (space_id : Text) (exported : Result ObjectError (List ℕ × Text))
    (backup : Backup)
    → HasVersion exported
    → backup_of sha256 space_id exported ≡ ok backup
    → is_served_version backup.served_version ≡ true
unfolding backup_of
backup_of-HasVersion sha256 space_id (err thrown) backup served h = cc
backup_of-HasVersion sha256 space_id (ok (bytes, version)) backup served h =
    let (header, parsed, h1) = >>=-eq-ok (of_restore (refused (parse_framlog_header bytes))) _ h in
    let (u, same, h2) =
      >>=-eq-ok (require (same_elems header space_id) (export_refused space_mismatch)) _ h1 in
    rw (← ok-injective h2) served

-- The space that a FRAMLOG header names is not empty.
parse_framlog_header-filled :
    (bytes : List ℕ) (space : Text) → parse_framlog_header bytes ≡ ok space → is_empty space ≡ false
unfolding parse_framlog_header
parse_framlog_header-filled bytes space h =
    let (u1, e1, h1) =
      >>=-eq-ok (require (leb framlog_fixed_header_bytes (length bytes)) invalid_framlog) _ h in
    let (u2, e2, h2) =
      >>=-eq-ok (require (same_elems (take 8 bytes) framlog_magic) invalid_framlog) _ h1 in
    let (u3, e3, h3) =
      >>=-eq-ok
        (require ((view_field bytes 8 2 == 1) && (view_field bytes 10 2 == 0)) invalid_framlog) _
        h2 in
    let size = view_field bytes 12 4 in
    let (u4, e4, h4) =
      >>=-eq-ok (require (not (size == 0) && leb size framlog_max_space_bytes) invalid_framlog) _
        h3 in
    let (u5, e5, h5) =
      >>=-eq-ok (require (leb (framlog_fixed_header_bytes + size) (length bytes)) invalid_framlog) _
        h4 in
    let (name, e6, h6) =
      >>=-eq-ok
        (decoded_or invalid_framlog (decode (take size (drop framlog_fixed_header_bytes bytes)))) _
        h5 in
    let (u7, filled, h7) = >>=-eq-ok (require (not (is_empty name)) invalid_framlog) _ h6 in
    rw (← ok-injective h7)
      (not-eq-true (is_empty name) (require-eq-ok (not (is_empty name)) invalid_framlog filled))

-- A backup of the log of an object passes the checks that restore a backup into that object or into
-- another one of its space.
backup-verified :
    (sha256 : List ℕ → Text) (space : Text) (object : FramObject) (backup : Backup)
    → IsBackup sha256 space object backup
    → is_served_version backup.served_version ≡ true
    → is_sha256 (sha256 backup.bytes) ≡ true
    → length backup.bytes ≤ 2 ^ 53 - 1
    → verified_backup sha256 backup space ≡ ok tt
unfolding verified_backup
backup-verified sha256 space object backup made served digested small =
    let filled = parse_framlog_header-filled backup.bytes space made.of_space in
    require-ok (same_elems backup.format backup_format) invalid_backup _
      (rw made.has_format (same_elems_self backup_format))
    ∙ require-ok (not (is_empty backup.space_id)) invalid_backup _
        (rw (made.same_space, filled) refl)
    ∙ require-ok (same_elems backup.space_id space) space_mismatch _
        (rw made.same_space (same_elems_self space))
    ∙ require-ok (is_safe_length backup.byte_length) invalid_backup _
        (rw made.has_length (le→leb (length backup.bytes) (2 ^ 53 - 1) small))
    ∙ require-ok (is_served_version backup.served_version) invalid_backup _ served
    ∙ require-ok (is_sha256 backup.sha256) invalid_backup _ (rw made.has_digest digested)
    ∙ require-ok (length backup.bytes == backup.byte_length) verification _
        (rw made.has_length (ground arith))
    ∙ >>=-ok (refused (parse_framlog_header backup.bytes)) _ (ap refused made.of_space)
    ∙ require-ok (same_elems space backup.space_id) space_mismatch _
        (rw made.same_space (same_elems_self space))
    ∙ rw (made.has_digest, same_elems_self (sha256 backup.bytes)) refl

-- Where every digest is of the form of a SHA-256, a backup that `exportFramlog` gives of a sound
-- object, of at most 2^53 - 1 bytes, passes `verifiedBackup` for the space of the object.
pub export_framlog-verified_backup :
    (sha256 : List ℕ → Text) (events : Events) (object : FramObject) (backup : Backup)
    → IsSound object
    → (export_framlog sha256 events object).0 ≡ ok backup
    → ((bytes : List ℕ) → is_sha256 (sha256 bytes) ≡ true)
    → length backup.bytes ≤ 2 ^ 53 - 1
    → verified_backup sha256 backup object.space_id ≡ ok tt
unfolding export_framlog
export_framlog-verified_backup sha256 events object backup sound h digested small =
    backup-verified sha256 object.space_id (export_framlog sha256 events object).1 backup
      (export_framlog-IsBackup sha256 events object backup sound h)
      (backup_of-HasVersion sha256 object.space_id _ backup
        (export_booted-HasVersion object.space_id events
          (fram_of events.boot_guest events.boot_outcome object))
        h)
      (digested backup.bytes) small
