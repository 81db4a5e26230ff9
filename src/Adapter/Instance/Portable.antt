-- ===== src/Adapter/Instance/Portable.antt =====
-- adapter.mjs: `portableFramlog` of an instance that tracks its storage.
use fram.Prelude.{
  ℕ, List, ◌≡◌, refl, ap, ◌∙◌, inl, inr, true, ◌==◌, Bool-cases, Result, ok, err, ◌⊎◌,
}
use fram.Text.{Text, codes}
use fram.Adapter.Store.{Outcome}
use fram.Adapter.Store.Commit.{IsTracked}
use fram.Adapter.Store.Saved.{Stores}
use fram.Adapter.Status.{BackupCode, status_frame, decode_status_served_version}
use fram.Adapter.Instance.{Guest, Reply, FramInstance, InstanceError, assert_usable, enter}
use fram.Adapter.Instance.Calls.{
  Ends, enter-loaded, finish_call-Ends, finish_call-loaded, serialise-usable,
}
use fram.Adapter.Instance.Opened.{IsWhole, Ends-IsWhole, IsTracked-IsWhole, IsDurable-HoldsBytes}
use fram.Adapter.Instance.Opening.{log_bytes, versioned, read_version, ask_status, portable_framlog}

-- An exported log: the instance goes on, and its storage holds these bytes.
pub record IsExported (bytes : List ℕ) (after : FramInstance) : Type 0 where
  pub loaded : after.loaded ≡ true
  pub tracked : IsTracked after.host
  pub usable : assert_usable after ≡ ok tt
  pub log_stored : Stores after.host.store.storage (codes "framlog/") bytes

-- An instance that can take its next turn.
abbrev pub IsGoing : FramInstance → Type 0
IsGoing after = (after.loaded ≡ true) × IsTracked after.host × (assert_usable after ≡ ok tt)

-- An export that fails leaves the storage whole, and an instance that goes on or is poisoned.
abbrev pub ExportEnds : Result InstanceError (List ℕ × Text) → FramInstance → Type 0
ExportEnds (ok (bytes, version)) after = IsExported bytes after
ExportEnds (err thrown) after =
    IsWhole after.host.store.storage × (IsGoing after ⊎ (after.host.poisoned ≡ true))

versioned-ExportEnds :
    (version : Result BackupCode Text) (after : FramInstance)
    → IsExported (log_bytes after) after
    → ExportEnds (versioned (log_bytes after) version) after
versioned-ExportEnds (ok version) after exported = exported
versioned-ExportEnds (err code) after exported = (
  IsTracked-IsWhole after.host exported.tracked,
  inl (exported.loaded, exported.tracked, exported.usable),
)

read_version-ExportEnds :
    (space_id : Text) (guest : Guest) (before : FramInstance) (result : Result InstanceError Reply)
    (after : FramInstance)
    → IsTracked before.host
    → assert_usable before ≡ ok tt
    → after.loaded ≡ true
    → Ends guest before result after
    → let done = read_version space_id (result, after) in ExportEnds done.0 done.1
read_version-ExportEnds space_id guest before (err thrown) after tracked usable loaded ends = (
  Ends-IsWhole guest before (err thrown) after tracked ends,
  elim ends.goes_on_or_not [
    | inl (failed, still_tracked, still_usable) ↦ inl (loaded, still_tracked, still_usable)
    | inr (unusable, inl poisoned) ↦ inr poisoned
    | inr (unusable, inr same) ↦ let moved = ap assert_usable same in cc
  ],
)
read_version-ExportEnds space_id guest before (ok reply) after tracked usable loaded ends =
    let held = IsDurable-HoldsBytes guest before after reply tracked ends in
    let exported : IsExported (log_bytes after) after = record {
      loaded = loaded;
      tracked = ends.tracked;
      usable = ends.usable;
      log_stored = unfold log_bytes in held.log_stored;
    } in
    elim (Bool-cases (reply.status == 0)) [
      | inl e ↦ rw e (
          versioned-ExportEnds (decode_status_served_version reply.response space_id) after
            exported)
      | inr e ↦
          rw e (IsTracked-IsWhole after.host ends.tracked, inl (loaded, ends.tracked, ends.usable))
    ]

ask_status-ExportEnds :
    (space_id : Text) (frame : Result BackupCode (List ℕ)) (guest : Guest) (outcome : Outcome)
    (before : FramInstance)
    → before.loaded ≡ true
    → IsTracked before.host
    → assert_usable before ≡ ok tt
    → let done = ask_status space_id frame (enter guest outcome before) before in
      ExportEnds done.0 done.1
ask_status-ExportEnds space_id (err code) guest outcome before loaded tracked usable =
    (IsTracked-IsWhole before.host tracked, inl (loaded, tracked, usable))
ask_status-ExportEnds space_id (ok frame) guest outcome before loaded tracked usable =
    rw (enter-loaded guest outcome before loaded) (
      read_version-ExportEnds space_id guest before _ _ tracked usable
        (finish_call-loaded guest.ending outcome _ ∙ loaded)
        (finish_call-Ends guest outcome before tracked usable guest.ending refl))

-- What `portableFramlog` gives of an instance that tracks its storage is what the storage holds.
pub portable_framlog-ExportEnds :
    (space_id : Text) (guest : Guest) (outcome : Outcome) (before : FramInstance)
    → before.loaded ≡ true
    → IsTracked before.host
    → assert_usable before ≡ ok tt
    → let done = portable_framlog space_id guest outcome before in ExportEnds done.0 done.1
unfolding portable_framlog
portable_framlog-ExportEnds space_id guest outcome before loaded tracked usable =
    rw (serialise-usable _ before usable) (
      ask_status-ExportEnds space_id (status_frame space_id) guest outcome before loaded tracked
        usable)
