-- ===== src/Adapter/Backup.antt =====
-- adapter.mjs: a portable backup of a FRAMLOG, and its checks before a restore. SHA-256 is the
-- platform's: a function from bytes to a text.
pub mod Version
use fram.Prelude.{
  ℕ, ◌-◌, ◌^◌, Bool, false, not, ◌&&◌, ◌||◌, List, [], ◌∷◌, leb, ◌==◌, same_elems, length, Result,
  ok, err, require, ◌>>=◌, ◌>>◌,
}
use fram.Text.{Text, codes}
use fram.Text.Numeral.{is_empty, every, is_digit, read_digits, starts_with_zero}
use fram.Adapter.Status.{BackupCode, parse_framlog_header}

abbrev pub backup_format : Text
backup_format = codes "fram-cloudflare-backup/v1"

-- A captured backup, whose fields have the types that they should have.
pub record Backup : Type 0 where
  pub format : Text
  pub space_id : Text
  pub served_version : Text
  pub byte_length : ℕ
  pub sha256 : Text
  pub bytes : List ℕ

-- The codes of `FramBackupError`; those of the header and of the status are of type BackupCode.
pub data RestoreError : Type 0 where
  invalid_backup space_mismatch verification target_not_empty conflict storage_failed : RestoreError
  engine_failed restore_pending : RestoreError
  backup_refused : BackupCode → RestoreError

-- `Number.isSafeInteger`, of a number that is not negative.
abbrev pub is_safe_length : ℕ → Bool
is_safe_length n = leb n (2 ^ 53 - 1)

abbrev is_lower_hex : ℕ → Bool
is_lower_hex code = is_digit code || (leb 97 code && leb code 102)

-- `SHA256.test`
unfoldable pub is_sha256 : Text → Bool
is_sha256 text = (length text == 64) && every is_lower_hex text

-- `/^(?:0|[1-9][0-9]*)$/`, and at most the greatest i64.
unfoldable pub is_served_version : Text → Bool
is_served_version text =
    not (is_empty text)
    && (every is_digit text
        && ((not (starts_with_zero text) || (length text == 1))
            && leb (read_digits 10 0 text) (2 ^ 63 - 1)))

abbrev pub refused {ℓ} : {A : Type ℓ} → Result BackupCode A → Result RestoreError A
refused (ok value) = ok value
refused (err code) = err (backup_refused code)

-- `verifiedBackup`, whose result is the captured backup.
unfoldable pub verified_backup : (List ℕ → Text) → Backup → Text → Result RestoreError (Unit {0})
verified_backup sha256 backup configured = do
  require (same_elems backup.format backup_format) invalid_backup
  require (not (is_empty backup.space_id)) invalid_backup
  require (same_elems backup.space_id configured) space_mismatch
  require (is_safe_length backup.byte_length) invalid_backup
  require (is_served_version backup.served_version) invalid_backup
  require (is_sha256 backup.sha256) invalid_backup
  require (length backup.bytes == backup.byte_length) verification
  header ← refused (parse_framlog_header backup.bytes)
  require (same_elems header backup.space_id) space_mismatch
  require (same_elems (sha256 backup.bytes) backup.sha256) verification
