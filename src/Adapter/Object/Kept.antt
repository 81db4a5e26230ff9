-- ===== src/Adapter/Object/Kept.antt =====
-- adapter.mjs: `restoreFramlog` whose preflight leaves the bytes of the backup alone.
use fram.Prelude.{ℕ, ◌≡◌, refl, true, Option, List, Result, ok, err, >>=-eq-ok, ok-injective}
use fram.Text.{Text}
use fram.Adapter.Backup.{Backup, RestoreError, verified_backup}
use fram.Adapter.Object.{FramObject}
use fram.Adapter.Object.Sound.{IsSound}
use fram.Adapter.Object.Restore.{
  ExpectedCurrent, RestoreEvents, restore_options, preflight_framlog, peek_target,
}
use fram.Adapter.Object.Publish.{before_fence, restore_framlog}
use fram.Adapter.Object.Preflight.{all_keep_log, preflight_framlog-keeps}
use fram.Adapter.Object.Atomic.{RestoreEnds, published_of, restore_framlog-Ends}

-- What the checks before the fence give is what the preflight left.
before_fence-left :
    (sha256 : List ℕ → Text) (backup : Backup) (expected : Option ExpectedCurrent)
    (events : RestoreEvents) (object : FramObject) (left : List ℕ)
    → before_fence sha256 backup expected events object ≡ ok left
    → preflight_framlog object.space_id backup events.preflight_open events.preflight_status
      ≡ ok left
unfolding before_fence
before_fence-left sha256 backup expected events object left h =
    let (u1, e1, h1) = >>=-eq-ok (restore_options expected) _ h in
    let (u2, e2, h2) = >>=-eq-ok (verified_backup sha256 backup object.space_id) _ h1 in
    let (bytes, e3, h3) =
      >>=-eq-ok
        (preflight_framlog object.space_id backup events.preflight_open events.preflight_status) _
        h2 in
    let (u4, e4, h4) = >>=-eq-ok (peek_target expected object) _ h3 in rw (← ok-injective h4) e3

published_of-same :
    (backup : Backup) (result : Result RestoreError (List ℕ))
    → ((left : List ℕ) → result ≡ ok left → left ≡ backup.bytes)
    → published_of backup result ≡ backup
published_of-same backup (ok left) same = rw (same left refl) refl
published_of-same backup (err thrown) same = refl

-- A restore of a sound object, where no call of the guest of the preflight truncates the log, whatever its
-- guests do besides and its storage answers, ends in one of three ways: it returns, and the storage holds
-- the log of the backup under a live guest, with no fence and nothing pending; it throws, and the storage
-- and what was pending are as they were; or it throws, and the object is fenced, with the marker of this
-- restore pending.
pub restore_framlog-keeps :
    (sha256 : List ℕ → Text) (backup : Backup) (expected : Option ExpectedCurrent)
    (events : RestoreEvents) (object : FramObject)
    → IsSound object
    → all_keep_log events.preflight_open.calls ≡ true
    → all_keep_log events.preflight_status.calls ≡ true
    → let done = restore_framlog sha256 backup expected events object in
      RestoreEnds backup object done.0 done.1
restore_framlog-keeps sha256 backup expected events object sound opens asks =
    let checked = before_fence sha256 backup expected events object in
    let same : published_of backup checked ≡ backup = published_of-same backup checked (λ left h.
      preflight_framlog-keeps object.space_id backup events.preflight_open events.preflight_status
        left opens asks (before_fence-left sha256 backup expected events object left h)) in
    rw same at (restore_framlog-Ends sha256 backup expected events object sound)
