-- ===== src/Adapter/Object/Preflight.antt =====
-- adapter.mjs: what the guest of `#preflightFramlog` does to the bytes of the backup.
use fram.Prelude.{
  ℕ, zero, suc, leb→le, ◌+◌, ◌*◌, ◌<◌, ◌≤◌, ◌≡◌, ◌⊎◌, refl, sym, ◌∙◌, inl, inr, Bool, true, false,
  ◌&&◌, max, none, List, [], ◌∷◌, ◌++◌, ltb, leb, ◌==◌, length, take, drop, take-drop, length-take,
  length-append, append-nil, same_elems, same_elems_self, Bool-cases, &&-eq-true, ok, require,
  >>=-eq-ok, ok-injective, eq→==, le→leb, le→not_ltb, arith,
}
use fram.Text.{Text}
use fram.Adapter.Chunks.{set_bytes}
use fram.Adapter.HostImage.{
  HostImage, new_image, double_until, reserve, append, truncate, take_commit, lower,
}
use fram.Adapter.Store.{Which, Host, taken}
use fram.Adapter.Store.Replace.{take-all}
use fram.Adapter.Status.{BackupCode, status_frame, decode_status_served_version}
use fram.Adapter.Backup.{Backup, verification, backup_refused, refused}
use fram.Adapter.Instance.{
  HostCall, storage_size, storage_read, storage_truncate, storage_append, storage_sync,
  storage_close, Guest, Ending, replies, traps, Reply, host_call, object_of, set_object,
}
use fram.Adapter.Instance.Answers.{answers}
use fram.Adapter.Object.Restore.{
  preflight_host, written_through, shared_calls, in_memory, bytes_of_log, preflight_framlog,
}

-- Calls that never truncate the log.
abbrev pub keeps_log : HostCall → Bool
keeps_log (storage_truncate Which.log length) = false
keeps_log call = true

unfoldable pub all_keep_log : List HostCall → Bool
all_keep_log [] = true
all_keep_log (call ∷ calls) = keeps_log call && all_keep_log calls

-- A log image over an array: it holds the whole of it, or has moved to a longer one.
record IsUnwritten (bytes : List ℕ) (image : HostImage) : Type 0 where
  whole_or_moved :
      ((image.bytes ≡ bytes) × (image.size ≡ length bytes) × (image.capacity ≡ length bytes))
      ⊎ (length bytes < image.capacity)

written_through-IsUnwritten :
    (bytes : List ℕ) (host : Host)
    → IsUnwritten bytes host.log_image
    → written_through host bytes ≡ bytes
written_through-IsUnwritten bytes host unwritten = elim unwritten.whole_or_moved [
  | inl (same, size, capacity) ↦ rw (capacity, eq→== (length bytes) (length bytes) refl) same
  | inr moved ↦
      let other : (host.log_image.capacity == length bytes) ≡ false = ground arith in rw other refl
]

-- Doubling does not shrink.
double_until_grows : (fuel wanted capacity : ℕ) → capacity ≤ double_until fuel wanted capacity
unfolding double_until
double_until_grows zero wanted capacity = omega arith
double_until_grows (suc fuel) wanted capacity =
    ground (arith, double_until_grows fuel wanted (capacity * 2))

set_nothing :
    (bytes : List ℕ) (at : ℕ) (piece : List ℕ) → length piece ≡ 0 → set_bytes bytes at piece ≡ bytes
unfolding set_bytes
set_nothing bytes at [] h = let same : at + 0 ≡ at = omega arith in rw same (take-drop at bytes)
set_nothing bytes at (b ∷ piece) h = absurd (omega arith)

append-IsUnwritten :
    (bytes piece : List ℕ) (image : HostImage)
    → IsUnwritten bytes image
    → IsUnwritten bytes (append piece image)
unfolding append reserve
append-IsUnwritten bytes piece image unwritten =
    let wanted = image.size + length piece in
    let grown = double_until_grows wanted wanted (max (image.capacity * 2) 65536) in
    elim (Bool-cases (leb wanted image.capacity)) [
      | inl e ↦ simp e (record {
        whole_or_moved = elim unwritten.whole_or_moved [
          | inl (same, size, capacity) ↦
              let empty : length piece ≡ 0 =
                omega (arith, leb→le wanted image.capacity e, size, capacity) in
              inl (
                set_nothing image.bytes image.size piece empty ∙ same,
                omega (arith, size, empty),
                capacity,
              )
          | inr moved ↦ inr moved
        ];
      })
      | inr e ↦ simp e (record {
        whole_or_moved = inr (elim unwritten.whole_or_moved [
          | inl (same, size, capacity) ↦ omega (arith, grown, capacity)
          | inr moved ↦ omega (arith, grown, moved)
        ]);
      })
    ]

host_call-IsUnwritten :
    (bytes : List ℕ) (call : HostCall) (host : Host)
    → keeps_log call ≡ true
    → IsUnwritten bytes host.log_image
    → IsUnwritten bytes (host_call call host).1.log_image
unfolding host_call object_of set_object truncate
host_call-IsUnwritten bytes (storage_size which) host h unwritten = unwritten
host_call-IsUnwritten bytes (storage_read which offset length) host h unwritten = unwritten
host_call-IsUnwritten bytes (storage_truncate Which.log size) host h unwritten = absurd (cc)
host_call-IsUnwritten bytes (storage_truncate Which.image size) host h unwritten = unwritten
host_call-IsUnwritten bytes (storage_append Which.log piece) host h unwritten =
    append-IsUnwritten bytes piece host.log_image unwritten
host_call-IsUnwritten bytes (storage_append Which.image piece) host h unwritten = unwritten
host_call-IsUnwritten bytes (storage_sync Which.log) host h unwritten = record {
  whole_or_moved = unwritten.whole_or_moved;
}
host_call-IsUnwritten bytes (storage_sync Which.image) host h unwritten = unwritten
host_call-IsUnwritten bytes storage_close host h unwritten = unwritten

shared_calls-IsUnwritten :
    (bytes : List ℕ) (calls : List HostCall) (host : Host)
    → all_keep_log calls ≡ true
    → IsUnwritten bytes host.log_image
    → ((shared_calls calls (host, bytes)).1 ≡ bytes)
      × IsUnwritten bytes (shared_calls calls (host, bytes)).0.log_image
unfolding shared_calls all_keep_log
shared_calls-IsUnwritten bytes [] host h unwritten = (refl, unwritten)
shared_calls-IsUnwritten bytes (call ∷ calls) host h unwritten =
    let (first, others) = &&-eq-true (keeps_log call) (all_keep_log calls) h in
    let after = (host_call call host).1 in
    let still = host_call-IsUnwritten bytes call host first unwritten in
    rw (shared_calls, written_through-IsUnwritten bytes after still)
      (shared_calls-IsUnwritten bytes calls after others still)

-- The end of a guest's call leaves the array alone.
in_memory-IsUnwritten :
    (bytes : List ℕ) (ending : Ending) (state : Host × List ℕ)
    → (state.1 ≡ bytes) × IsUnwritten bytes state.0.log_image
    → let done = in_memory ending state in (done.1.1 ≡ bytes) × IsUnwritten bytes done.1.0.log_image
unfolding taken take_commit
in_memory-IsUnwritten bytes traps state kept = kept
in_memory-IsUnwritten bytes (replies reply) (host, shared) (same, unwritten) = (
  same,
  elim (Bool-cases host.log_image.dirty) [
    | inl e ↦ simp e (record { whole_or_moved = unwritten.whole_or_moved })
    | inr e ↦ simp e unwritten
  ],
)

-- What a call of a guest that keeps the log leaves of the array.
guest_keeps :
    (bytes : List ℕ) (guest : Guest) (state : Host × List ℕ)
    → all_keep_log guest.calls ≡ true
    → (state.1 ≡ bytes) × IsUnwritten bytes state.0.log_image
    → let done = in_memory guest.ending (shared_calls guest.calls state) in
      (done.1.1 ≡ bytes) × IsUnwritten bytes done.1.0.log_image
guest_keeps bytes guest (host, shared) h (same, unwritten) =
    in_memory-IsUnwritten bytes guest.ending (shared_calls guest.calls (host, shared))
      (rw same (shared_calls-IsUnwritten bytes guest.calls host h unwritten))

-- The result of a preflight that passes, as the array that its two calls share leaves it.
preflight_framlog-ok :
    (space : Text) (backup : Backup) (open_guest status_guest : Guest) (left : List ℕ)
    → preflight_framlog space backup open_guest status_guest ≡ ok left
    → let opened =
        in_memory open_guest.ending
          (shared_calls open_guest.calls (preflight_host backup.bytes, backup.bytes)) in
      left ≡ (in_memory status_guest.ending (shared_calls status_guest.calls opened.1)).1.1
unfolding preflight_framlog
preflight_framlog-ok space backup open_guest status_guest left h =
    let opened =
      in_memory open_guest.ending
        (shared_calls open_guest.calls (preflight_host backup.bytes, backup.bytes)) in
    let asked = in_memory status_guest.ending (shared_calls status_guest.calls opened.1) in
    let (reply, e1, h1) = >>=-eq-ok opened.0 _ h in
    let (u2, e2, h2) =
      >>=-eq-ok (require (reply.status == 0) (backup_refused BackupCode.invalid_framlog)) _ h1 in
    let (frame, e3, h3) = >>=-eq-ok (refused (status_frame space)) _ h2 in
    let (answer, e4, h4) = >>=-eq-ok asked.0 _ h3 in
    let (u5, e5, h5) =
      >>=-eq-ok (require (answer.status == 0) (backup_refused BackupCode.engine)) _ h4 in
    let (version, e6, h6) =
      >>=-eq-ok (refused (decode_status_served_version answer.response space)) _ h5 in
    let (u7, e7, h7) =
      >>=-eq-ok
        (require (same_elems (bytes_of_log asked.1.0) asked.1.1)
          (backup_refused BackupCode.invalid_framlog))
        _ h6 in
    let (u8, e8, h8) =
      >>=-eq-ok (require (same_elems version backup.served_version) verification) _ h7 in
    sym (ok-injective h8)

-- A preflight that passes leaves the bytes of the backup as they were, where no call of its guest
-- truncates the log.
pub preflight_framlog-keeps :
    (space : Text) (backup : Backup) (open_guest status_guest : Guest) (left : List ℕ)
    → all_keep_log open_guest.calls ≡ true
    → all_keep_log status_guest.calls ≡ true
    → preflight_framlog space backup open_guest status_guest ≡ ok left
    → left ≡ backup.bytes
unfolding new_image
preflight_framlog-keeps space backup open_guest status_guest left opens asks h =
    let bytes = backup.bytes in
    let start : IsUnwritten bytes (preflight_host bytes).log_image = record {
      whole_or_moved = inl (refl, refl, refl);
    } in
    let opened =
      in_memory open_guest.ending (shared_calls open_guest.calls (preflight_host bytes, bytes)) in
    let kept = guest_keeps bytes open_guest (preflight_host bytes, bytes) opens (refl, start) in
    preflight_framlog-ok space backup open_guest status_guest left h
    ∙ (guest_keeps bytes status_guest opened.1 asks kept).0

-- A guest that truncates the log, and appends a piece as long as what it cut.
abbrev pub overwrites : ℕ → List ℕ → Reply → Guest
overwrites kept piece reply = record {
  calls = storage_truncate Which.log kept ∷ storage_append Which.log piece ∷ [];
  ending = replies reply;
}

drop_everything : (bytes : List ℕ) → drop (length bytes) bytes ≡ []
unfolding drop
drop_everything [] = refl
drop_everything (b ∷ bytes) = drop_everything bytes

overwrite-written :
    (bytes piece : List ℕ) (kept : ℕ)
    → kept + length piece ≡ length bytes
    → set_bytes bytes kept piece ≡ take kept bytes ++ piece
unfolding set_bytes
overwrite-written bytes piece kept h =
    let nothing_behind : drop (kept + length piece) bytes ≡ [] = rw h (drop_everything bytes) in
    rw (nothing_behind, append-nil piece) refl

-- The log image and the array behind it, after the guest has overwritten the end of the log.
abbrev overwritten : List ℕ → ℕ → List ℕ → Host
overwritten bytes kept piece = record (preflight_host bytes) {
  log_image = record (new_image bytes) {
    bytes = take kept bytes ++ piece;
    size = kept + length piece;
    low_water = lower (lower none kept) kept;
    dirty = true;
  };
}

shared_calls-overwrites :
    (bytes piece : List ℕ) (kept : ℕ) (reply : Reply)
    → kept + length piece ≡ length bytes
    → shared_calls (overwrites kept piece reply).calls (preflight_host bytes, bytes)
      ≡ (overwritten bytes kept piece, take kept bytes ++ piece)
unfolding shared_calls host_call object_of set_object truncate append reserve new_image
shared_calls-overwrites bytes piece kept reply fits =
    let cut : ltb (length bytes) kept ≡ false = le→not_ltb (length bytes) kept (omega arith) in
    let room : leb (kept + length piece) (length bytes) ≡ true =
      le→leb (kept + length piece) (length bytes) (omega arith) in
    let self : (length bytes == length bytes) ≡ true = eq→== (length bytes) (length bytes) refl in
    simp (cut, room, self, overwrite-written bytes piece kept fits) refl

-- The preflight passes with the end of the backup's bytes replaced, where its guest truncates the log
-- when it is opened, appends as many bytes as it cut, opens with status 0 and then answers the status
-- request with the version of the backup.
pub preflight_framlog-overwrites :
    (space : Text) (backup : Backup) (kept : ℕ) (piece frame : List ℕ) (opened status : Reply)
    → kept + length piece ≡ length backup.bytes
    → status_frame space ≡ ok frame
    → (opened.status == 0) ≡ true
    → (status.status == 0) ≡ true
    → decode_status_served_version status.response space ≡ ok backup.served_version
    → preflight_framlog space backup (overwrites kept piece opened) (answers status)
      ≡ ok (take kept backup.bytes ++ piece)
unfolding preflight_framlog
preflight_framlog-overwrites space backup kept piece frame opened status fits asks opens answered
      version =
    let bytes = backup.bytes in
    let left = take kept bytes ++ piece in
    let whole : kept + length piece ≡ length left =
      omega (arith, length-append (take kept bytes) piece, length-take kept bytes) in
    let same : take (kept + length piece) left ≡ left = rw whole (take-all left) in
    simp (shared_calls-overwrites bytes piece kept opened fits, opens, asks, answered, version)
      (unfold shared_calls taken take_commit new_image in
        simp (same, same_elems_self left, same_elems_self backup.served_version) refl)
