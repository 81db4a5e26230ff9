-- ===== src/Examples/Restores.antt =====
-- A backup of the space "s" that is restored into an empty Durable Object, and the theorems on restores.
use fram.Adapter.Object.Kept.{restore_framlog-keeps}
use fram.Adapter.Instance.Answers.{answers}
use fram.Adapter.Object.Preflight.{all_keep_log, overwrites, preflight_framlog-overwrites}
use fram.Adapter.Object.Restored.{IsRestored}
use fram.Adapter.Object.Returns.{smooth, restore_framlog-returns}
use fram.Prelude.{
  ℕ, ◌≡◌, refl, false, none, some, List, [], ◌∷◌, ◌++◌, take, drop, replicate, same_elems, arith,
  if◌then◌else◌, ok, Bool-cases, inl, inr, true,
}
use fram.Text.{Text, codes}
use fram.Text.Utf8.{encode, decode, encode_point, decode_from, step, lead, trail, units, strip_mark}
use fram.Client.Request.{query}
use fram.Adapter.Store.{
  lands, log, new_store, commit, is_clean, part_of, finish, taken, commit_parts, stage, run,
  apply_all, settle_all, range_of, set_range,
}
use fram.Adapter.Backup.{Backup, backup_format, is_sha256, verified_backup}
use fram.Adapter.Status.{
  parse_framlog_header, status_frame, text_bytes, decode_status_served_version, text_term,
}
use fram.Adapter.Instance.{
  Guest, replies, storage_append, storage_sync, object_of, set_object, host_call, host_calls,
  new_instance, assert_usable, commit_now, finish_call, enter, serialise, call, Reply,
}
use fram.Adapter.Object.{FramObject, Marker, Events, with_live, boot, fram_of, exchange, evict}
use fram.Adapter.Object.Restore.{
  RestoreEvents, Target, preflight_framlog, load_target, is_occupied, shared_calls,
}
use fram.Adapter.Object.Publish.{Restored, restore_framlog, marker_of, before_fence}
use fram.Adapter.Object.Atomic.{RestoreEnds, restore_framlog-Ends, published_of}
use fram.Text.Numeral.{every, to_decimal, to_radix, to_string, pad_start}
use fram.Client.Reader.{le_value, from_u64}
use fram.Client.Bytes.{le_bytes, u16, u32, i64, u64, to_u64}
use fram.Adapter.Storage.{get, put, set_item, delete, delete_item}
use fram.Adapter.Chunks.{
  new_range, load, load_from, meta_key, plan, plan_with, apply_to, publish, settle, put_batches,
  delete_batches, batches, batches_from, entries, chunk_writes, chunk_keys, indices, total_bytes,
  chunk_key, set_bytes,
}
use fram.Adapter.HostImage.{new_image, append, reserve, double_until, lower, low_of, take_commit}
use fram.Adapter.Instance.Opening.{
  load_object, load_objects, resident, mark_opened, open_loaded, open_space, log_bytes,
  portable_framlog,
}
use fram.Adapter.Object.Export.{backup_of, export_framlog}
use fram.Adapter.Object.Exported.{IsBackup, export_framlog-IsBackup}
use fram.Adapter.Object.Life.{here, then_step, exchanges, is_evicted}
use fram.Adapter.Object.Pending.{ServesNothing, Reach-ServesNothing}
use fram.Adapter.Clear.{clear_plan, stale_from, list, listed_keys, sort, check_keys, last_of}
use fram.Examples.Requests.{version_frame}
use fram.Adapter.Object.Verified.{export_framlog-verified_backup}
use fram.Examples.Objects.{empty_object, empty_object-IsSound, done_reply, writes_log}

-- The FRAMLOG header of "s", with nothing behind it.
abbrev empty_log : List ℕ
empty_log =
    0x46 ∷ 0x52 ∷ 0x41 ∷ 0x4d ∷ 0x4c ∷ 0x4f ∷ 0x47 ∷ 0 ∷ 1 ∷ 0 ∷ 0 ∷ 0 ∷ 1 ∷ 0 ∷ 0 ∷ 0 ∷ 0x73 ∷ []

-- A digest that tells the lengths of two logs apart.
abbrev digest : List ℕ → Text
digest bytes = replicate 63 97 ++ (if same_elems bytes empty_log then 98 else 99) ∷ []

abbrev status_response : List ℕ
status_response =
    0x46
      ∷ 0x52
      ∷ 0x41
      ∷ 0x4d
      ∷ 0x52
      ∷ 0x50
      ∷ 0x43
      ∷ 0
      ∷ 2
      ∷ 0
      ∷ 0
      ∷ 0
      ∷ 2
      ∷ 0
      ∷ 33
      ∷ 0
      ∷ 0
      ∷ 0
      ∷ 0
      ∷ 0
      ∷ 0
      ∷ 0
      ∷ 0
      ∷ 0
      ∷ 0
      ∷ 0
      ∷ 1
      ∷ 1
      ∷ 0
      ∷ 0
      ∷ 0
      ∷ 0x73
      ∷ 6
      ∷ 10
      ∷ 0
      ∷ 0
      ∷ 0
      ∷ codes "rpc/status"
    ++ 7 ∷ 0 ∷ 0 ∷ 0 ∷ 0 ∷ 0 ∷ 0 ∷ 0 ∷ 0 ∷ 0 ∷ 1 ∷ 0 ∷ []

abbrev status_guest : Guest
status_guest = record {
  calls = [];
  ending = replies (record done_reply { response = status_response });
}

abbrev opening_guest : Guest
opening_guest = record { calls = []; ending = replies done_reply }

abbrev backup : Backup
backup = record {
  format = backup_format;
  space_id = codes "s";
  served_version = codes "7";
  byte_length = 17;
  sha256 = digest empty_log;
  bytes = empty_log;
}

abbrev restoring : RestoreEvents
restoring = record {
  preflight_open = opening_guest;
  preflight_status = status_guest;
  replacement = lands;
  reopen = opening_guest;
  reopen_status = status_guest;
  reopen_outcome = lands;
  clearing = lands;
}

restore_framlog-Ends_example :
    let done = restore_framlog digest backup none restoring empty_object in
    RestoreEnds
      (published_of backup (before_fence digest backup none restoring empty_object))
      empty_object
      done.0
      done.1
restore_framlog-Ends_example =
    restore_framlog-Ends digest backup none restoring empty_object empty_object-IsSound

abbrev exporting : Events
exporting = record writes_log {
  boot_guest = record {
    calls = storage_append log empty_log ∷ storage_sync log ∷ [];
    ending = replies done_reply;
  };
  guest = status_guest;
}

export_writes : (export_framlog digest exporting empty_object).0 ≡ ok backup
unfolding export_framlog backup_of portable_framlog log_bytes status_frame text_bytes encode
    encode_point decode decode_status_served_version text_term parse_framlog_header fram_of boot
    open_space new_store new_instance new_image load_objects load_object load load_from range_of
    set_range new_range serialise assert_usable open_loaded resident mark_opened finish_call
    commit_now host_calls host_call object_of set_object append reserve double_until lower commit
    is_clean part_of finish taken commit_parts stage run apply_all settle_all take_commit low_of
    plan plan_with apply_to publish settle put_batches delete_batches batches batches_from entries
    chunk_writes chunk_keys indices total_bytes chunk_key meta_key get put set_item delete
    delete_item take drop replicate same_elems pad_start to_string to_radix set_bytes with_live call
    enter to_decimal le_value from_u64 le_bytes u16 u32 i64 u64 to_u64
export_writes = refl

export_framlog-IsBackup_example :
    IsBackup digest (codes "s") (export_framlog digest exporting empty_object).1 backup
export_framlog-IsBackup_example =
    export_framlog-IsBackup digest exporting empty_object backup empty_object-IsSound export_writes

digest-IsSha256 : (bytes : List ℕ) → is_sha256 (digest bytes) ≡ true
unfolding is_sha256 every replicate
digest-IsSha256 bytes = elim (Bool-cases (same_elems bytes empty_log)) [
  | inl e ↦ rw e refl
  | inr e ↦ rw e refl
]

export_framlog-verified_backup_example : verified_backup digest backup (codes "s") ≡ ok tt
export_framlog-verified_backup_example =
    export_framlog-verified_backup digest exporting empty_object backup empty_object-IsSound
      export_writes digest-IsSha256 (omega arith)

abbrev status_reply : Reply
status_reply = record done_reply { response = status_response }

abbrev empty_target : Target
empty_target = record {
  store = record (new_store [] 2 2) {
    log_range = record (new_range (codes "framlog/") 2 2) { chunk_count = some 0; gets = 1 };
  };
  log_bytes = [];
  clearing = record { writes = []; stale = []; chunks = 0; size = 0; publish_meta = false };
  pending = none;
}

backup-replays : preflight_framlog (codes "s") backup opening_guest status_guest ≡ ok empty_log
unfolding preflight_framlog shared_calls new_store new_image new_range host_calls taken status_frame
    text_bytes encode encode_point decode decode_from step lead trail units strip_mark
    decode_status_served_version text_term take drop same_elems to_decimal to_string to_radix
    le_value from_u64 le_bytes u16 u32 i64 u64 to_u64
backup-replays = refl

target-IsEmpty : load_target empty_object ≡ ok empty_target
unfolding load_target new_store load_object load load_from range_of set_range new_range get meta_key
    clear_plan stale_from list listed_keys sort check_keys last_of take
target-IsEmpty = refl

restore_framlog-returns_example :
    let done =
      restore_framlog digest backup none
        (smooth done_reply status_reply opening_guest status_guest lands)
        empty_object in
    (value : Restored) × (done.0 ≡ ok value)
    × IsRestored (record backup { bytes = empty_log }) done.1
unfolding status_frame text_bytes encode encode_point decode decode_from step lead trail units
    strip_mark decode_status_served_version text_term take drop same_elems to_decimal to_string
    to_radix le_value from_u64 le_bytes u16 u32 i64 u64 to_u64 is_occupied
restore_framlog-returns_example =
    restore_framlog-returns digest backup none done_reply status_reply _ opening_guest status_guest
      lands empty_object empty_target empty_log empty_object-IsSound refl
      (export_framlog-verified_backup digest exporting empty_object backup empty_object-IsSound
        export_writes digest-IsSha256 (omega arith))
      backup-replays target-IsEmpty refl refl refl refl refl

restore_framlog-keeps_example :
    let done = restore_framlog digest backup none restoring empty_object in
    RestoreEnds backup empty_object done.0 done.1
unfolding all_keep_log
restore_framlog-keeps_example =
    restore_framlog-keeps digest backup none restoring empty_object empty_object-IsSound refl refl

preflight_framlog-overwrites_example :
    preflight_framlog
      (codes "s")
      backup
      (overwrites 16 (0x74 ∷ []) done_reply)
      (answers status_reply)
    ≡ ok (take 16 empty_log ++ 0x74 ∷ [])
unfolding status_frame text_bytes encode encode_point decode decode_from step lead trail units
    strip_mark decode_status_served_version text_term take drop same_elems to_decimal to_string
    to_radix le_value from_u64 le_bytes u16 u32 i64 u64 to_u64
preflight_framlog-overwrites_example =
    preflight_framlog-overwrites (codes "s") backup 16 (0x74 ∷ []) _ done_reply status_reply refl
      refl refl refl refl

abbrev marker : Marker
marker = marker_of backup (codes "s")

-- An object that was evicted before the restore of the backup was verified.
abbrev waiting_object : FramObject
waiting_object = record empty_object { pending = some marker }

Reach-ServesNothing_example :
    ServesNothing
      (version_frame (codes "s"))
      query
      (codes "s")
      digest
      exporting
      marker
      []
      (evict (exchange (version_frame (codes "s")) query (codes "s") exporting waiting_object).1)
Reach-ServesNothing_example =
    Reach-ServesNothing (version_frame (codes "s")) query (codes "s") digest exporting marker
      waiting_object
      (evict (exchange (version_frame (codes "s")) query (codes "s") exporting waiting_object).1)
      (then_step (exchanges (version_frame (codes "s")) query (codes "s") exporting)
        (then_step is_evicted here))
      refl refl refl
