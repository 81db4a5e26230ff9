-- ===== src/Adapter/Object/Restored.antt =====
-- adapter.mjs: what `restoreFramlog` leaves of the object: the backup, nothing, or a fence.
use fram.Prelude.{
  ℕ, ◌≡◌, refl, inl, inr, true, ◌&&◌, none, some, List, ◌==◌, same_elems, same_elems-eq, Bool-cases,
  Result, ok, err, &&-eq-true,
}
use fram.Text.{Text, codes}
use fram.Adapter.Store.{Outcome, lands, rejects}
use fram.Adapter.Store.Commit.{IsTracked}
use fram.Adapter.Backup.{Backup, RestoreError}
use fram.Adapter.Instance.{Reply, restore_fenced, FramInstance, InstanceError}
use fram.Adapter.Instance.Calls.{Ends}
use fram.Adapter.Instance.Opened.{IsWhole, Ends-IsWhole, IsTracked-IsWhole, open_space-Ends}
use fram.Adapter.Instance.Portable.{IsExported, ExportEnds, portable_framlog-ExportEnds}
use fram.Adapter.Store.Saved.{Stores}
use fram.Adapter.Object.{FramObject, Marker, without_live}
use fram.Adapter.Object.Sound.{IsSound}
use fram.Adapter.Object.Restore.{RestoreEvents}
use fram.Adapter.Object.Publish.{
  stay_fenced, clear_marker, verify_published, verify_reopened, reopen_published,
}

-- A restore that was verified: the log of the backup, and a live guest over it.
pub record IsRestored (backup : Backup) (after : FramObject) : Type 0 where
  pub sound : IsSound after
  pub log_stored : Stores after.storage (codes "framlog/") backup.bytes
  pub not_pending : after.pending ≡ none
  pub not_fenced : after.administrative_fence ≡ none
  pub instance : FramInstance
  pub is_kept : after.live ≡ some instance

-- A restore that was published but not verified: no data is served until another one.
pub record IsFenced (marker : Marker) (after : FramObject) : Type 0 where
  pub sound : IsSound after
  pub still_pending : after.pending ≡ some marker
  pub fence : after.administrative_fence ≡ some restore_fenced
  pub none_live : after.live ≡ none

-- The end of a restore whose transaction has landed.
abbrev pub PublishedEnds : Backup → Marker → Result RestoreError (Unit {0}) → FramObject → Type 0
PublishedEnds backup marker (ok u) after = IsRestored backup after
PublishedEnds backup marker (err thrown) after = IsFenced marker after

module _ (backup : Backup) (marker : Marker) (object : FramObject) (sound : IsSound object)
    (pending : object.pending ≡ some marker) where
  stay_fenced-IsFenced :
      (instance : FramInstance)
      → IsWhole instance.host.store.storage
      → IsFenced marker (stay_fenced instance object).1
  unfolding stay_fenced without_live
  stay_fenced-IsFenced instance whole = record {
    sound = record {
      positive_chunk = sound.positive_chunk;
      positive_batch = sound.positive_batch;
      whole = whole;
      live_sound = tt;
    };
    still_pending = pending;
    fence = refl;
    none_live = refl;
  }

  stay_fenced-Ends :
      (instance : FramInstance)
      → IsWhole instance.host.store.storage
      → let done = stay_fenced instance object in PublishedEnds backup marker done.0 done.1
  unfolding stay_fenced
  stay_fenced-Ends instance whole = stay_fenced-IsFenced instance whole

  clear_marker-Ends :
      (outcome : Outcome) (instance : FramInstance)
      → IsExported backup.bytes instance
      → let done = clear_marker outcome instance object in PublishedEnds backup marker done.0 done.1
  clear_marker-Ends rejects instance exported =
      stay_fenced-Ends instance (IsTracked-IsWhole instance.host exported.tracked)
  clear_marker-Ends lands instance exported = record {
    sound = record {
      positive_chunk = sound.positive_chunk;
      positive_batch = sound.positive_batch;
      whole = IsTracked-IsWhole instance.host exported.tracked;
      live_sound = inl (record {
        loaded = exported.loaded;
        tracked = exported.tracked;
        same_storage = refl;
        usable = exported.usable;
      });
    };
    log_stored = exported.log_stored;
    not_pending = refl;
    not_fenced = refl;
    instance = instance;
    is_kept = refl;
  }

  verify_published-Ends :
      (clearing : Outcome) (result : Result InstanceError (List ℕ × Text)) (instance : FramInstance)
      → ExportEnds result instance
      → let done = verify_published backup clearing (result, instance) object in
        PublishedEnds backup marker done.0 done.1
  verify_published-Ends clearing (err thrown) instance (whole, after) =
      stay_fenced-Ends instance whole
  verify_published-Ends clearing (ok (bytes, version)) instance exported =
      elim (Bool-cases
        (same_elems bytes backup.bytes && same_elems version backup.served_version)) [
          | inl e ↦
              let (same, same_version) = &&-eq-true (same_elems bytes backup.bytes) _ e in
              rw e (
                clear_marker-Ends clearing instance
                  (rw (← same_elems-eq bytes backup.bytes same) exported))
          | inr e ↦
              rw e (stay_fenced-Ends instance (IsTracked-IsWhole instance.host exported.tracked))
        ]

  reopened-Ends :
      (events : RestoreEvents) (before : FramInstance) (result : Result InstanceError Reply)
      (instance : FramInstance)
      → IsTracked before.host
      → Ends events.reopen before result instance
      → instance.loaded ≡ true
      → let done = verify_reopened backup events (result, instance) object in
        PublishedEnds backup marker done.0 done.1
  reopened-Ends events before (err thrown) instance tracked ends loaded =
      stay_fenced-Ends instance
        (Ends-IsWhole events.reopen before (err thrown) instance tracked ends)
  reopened-Ends events before (ok reply) instance tracked ends loaded =
      elim (Bool-cases (reply.status == 0)) [
        | inl e ↦ rw e (
            verify_published-Ends events.clearing _ _ (
              portable_framlog-ExportEnds object.space_id events.reopen_status events.reopen_outcome
                instance loaded ends.tracked ends.usable))
        | inr e ↦ rw e (stay_fenced-Ends instance (IsTracked-IsWhole instance.host ends.tracked))
      ]

  pub reopen_published-Ends :
      (events : RestoreEvents)
      → let done = reopen_published backup events object in
        PublishedEnds backup marker done.0 done.1
  unfolding reopen_published
  reopen_published-Ends events =
      let (log_bytes, image_bytes, held) = sound.whole in
      let (r, ends, loaded) =
        open_space-Ends object.storage object.chunk_bytes object.batch_keys log_bytes image_bytes
          object.space_id events.reopen rejects sound.positive_chunk sound.positive_batch held in
      reopened-Ends events _ _ _ r.tracked ends loaded
