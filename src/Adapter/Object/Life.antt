-- ===== src/Adapter/Object/Life.antt =====
-- adapter.mjs: FramDurableObjectBase from one operation to the next, and what an answer of `exchange`
-- means for the storage.
use fram.Prelude.{
  ℕ, List, ◌≡◌, refl, inl, inr, not, ◌&&◌, Option, none, some, Bool-cases, Result, ok, err,
  &&-eq-true, not-eq-true,
}
use fram.Text.{Text}
use fram.Client.Request.{Entry}
use fram.Adapter.Requests.{Request, Inspected, authorize}
use fram.Adapter.Storage.{Storage}
use fram.Adapter.Store.{Outcome}
use fram.Adapter.Instance.{Guest, Reply, FramInstance, InstanceError, call, enter, assert_usable}
use fram.Adapter.Instance.Calls.{call-Ends, call-loaded, serialise-usable, serialise-refused}
use fram.Adapter.Instance.Opening.{mark_closed, close}
use fram.Adapter.Instance.Opened.{IsWhole, Ends-IsWhole}
use fram.Adapter.Object.{
  FramObject, ObjectError, Events, drop_live, is_poisoned, use_booted, use_instance, use_call,
  exchanged, exchange, recycled, recycle_live, recycle, evict,
}
use fram.Adapter.Backup.{Backup, RestoreError}
use fram.Adapter.Object.Restore.{ExpectedCurrent, RestoreEvents}
use fram.Adapter.Object.Publish.{restore_framlog}
use fram.Adapter.Object.Export.{export_framlog}
use fram.Adapter.Object.Exported.{export_framlog-IsSound}
use fram.Adapter.Object.Atomic.{RestoreEnds, restore_framlog-Ends}
use fram.Adapter.Object.Sound.{
  IsLive, IsLiveOrNone, IsSound, IsReady, without_live-IsSound, fram_of-IsReady, used-IsSound,
  stale-refused, stale-dropped,
}

pub call-refused :
    (guest : Guest) (outcome : Outcome) (instance : FramInstance) (thrown : InstanceError)
    → assert_usable instance ≡ err thrown
    → call guest outcome instance ≡ (err thrown, instance)
unfolding call
call-refused guest outcome instance thrown refused =
    serialise-refused (enter guest outcome) instance thrown refused

use_booted-IsSound :
    (guest : Guest) (outcome : Outcome) (ready : Result ObjectError FramInstance)
    (object : FramObject)
    → IsReady ready object
    → IsSound (use_booted (call guest outcome) (ready, object)).1
use_booted-IsSound guest outcome (err thrown) object sound = sound
use_booted-IsSound guest outcome (ok instance) object (sound, inl live) =
    used-IsSound guest instance object _ _ sound live.tracked live.usable
      (call-loaded guest outcome instance live.loaded live.usable)
      (call-Ends guest outcome instance live.loaded live.tracked)
use_booted-IsSound guest outcome (ok instance) object (sound, inr stale) =
    let (thrown, refused) = stale-refused instance stale.poisoned in
    rw (call-refused guest outcome instance thrown refused, stale.poisoned)
      (stale-dropped instance object sound stale)

pub use_call-IsSound :
    (events : Events) (object : FramObject) → IsSound object → IsSound (use_call events object).1
unfolding use_call use_instance
use_call-IsSound events object sound =
    use_booted-IsSound events.guest events.outcome _ _
      (fram_of-IsReady events.boot_guest events.boot_outcome object sound)

exchanged-IsSound :
    (request : Inspected Request) (done : Result ObjectError Reply × FramObject)
    (object : FramObject)
    → IsSound object
    → IsSound done.1
    → IsSound (exchanged request done object).1
exchanged-IsSound (err code) done object before after = before
exchanged-IsSound (ok request) done object before after = after

dropped-IsSound : (object : FramObject) → IsSound object → IsSound (drop_live object)
unfolding drop_live
dropped-IsSound object sound = record {
  positive_chunk = sound.positive_chunk;
  positive_batch = sound.positive_batch;
  whole = sound.whole;
  live_sound = tt;
}

-- The storage after an instance was closed.
mark_closed-host :
    (done : Result InstanceError Reply × FramInstance)
    → (mark_closed done).1.host.store.storage ≡ done.1.host.store.storage
unfolding mark_closed
mark_closed-host (err thrown, after) = refl
mark_closed-host (ok reply, after) = refl

close-IsWhole :
    (guest : Guest) (outcome : Outcome) (map : Storage) (instance : FramInstance)
    → IsLive map instance
    → IsWhole (close guest outcome instance).1.host.store.storage
unfolding close
close-IsWhole guest outcome map instance live =
    let ends = call-Ends guest outcome instance live.loaded live.tracked in
    let whole = Ends-IsWhole guest instance _ _ live.tracked ends in
    rw (serialise-usable _ instance live.usable, mark_closed-host (enter guest outcome instance))
      (unfold call in rw (serialise-usable (enter guest outcome) instance live.usable) at whole)

recycled-IsSound :
    (closing : Result InstanceError Reply × FramInstance) (object : FramObject)
    → IsSound object
    → IsWhole closing.1.host.store.storage
    → IsSound (recycled closing object).1
recycled-IsSound (err thrown, instance) object sound whole =
    without_live-IsSound instance object sound whole
recycled-IsSound (ok reply, instance) object sound whole =
    without_live-IsSound instance object sound whole

recycle_live-IsSound :
    (live : Option FramInstance) (events : Events) (object : FramObject)
    → IsSound object
    → IsLiveOrNone object.storage live
    → IsSound (recycle_live live events object).1
recycle_live-IsSound none events object sound live = dropped-IsSound object sound
recycle_live-IsSound (some instance) events object sound (inl live) =
    elim (Bool-cases (not instance.closed && not (is_poisoned instance))) [
      | inl e ↦ rw e (
          recycled-IsSound (close events.guest events.outcome instance) object sound
            (close-IsWhole events.guest events.outcome object.storage instance live))
      | inr e ↦ rw e (dropped-IsSound object sound)
    ]
recycle_live-IsSound (some instance) events object sound (inr stale) =
    elim (Bool-cases (not instance.closed && not (is_poisoned instance))) [
      | inl e ↦
          let (open_still, usable) =
            &&-eq-true (not instance.closed) (not (is_poisoned instance)) e in
          let poisoned = stale.poisoned in
          let sane = not-eq-true (is_poisoned instance) usable in cc
      | inr e ↦ rw e (dropped-IsSound object sound)
    ]

-- The operations of the object, and the eviction of its isolate between two of them.
pub data Step (object : FramObject) : FramObject → Type 0 where
  uses : (events : Events) → Step object (use_call events object).1
  exchanges :
      (frame : List ℕ) (entry : Entry) (space : Text) (events : Events)
      → Step object (exchange frame entry space events object).1
  recycles : (events : Events) → Step object (recycle events object).1
  exports :
      (sha256 : List ℕ → Text) (events : Events)
      → Step object (export_framlog sha256 events object).1
  restores :
      (sha256 : List ℕ → Text) (backup : Backup) (expected : Option ExpectedCurrent)
      (events : RestoreEvents)
      → Step object (restore_framlog sha256 backup expected events object).1
  is_evicted : Step object (evict object)

pub data Reach : FramObject → FramObject → Type 0 where
  here : {object : FramObject} → Reach object object
  then_step :
      {object middle last : FramObject} → Step object middle → Reach middle last → Reach object last

RestoreEnds-IsSound {ℓ} :
    {A : Type ℓ} (backup : Backup) (before : FramObject) (result : Result RestoreError A)
    (after : FramObject)
    → RestoreEnds backup before result after
    → IsSound after
RestoreEnds-IsSound backup before (ok value) after ends = ends.sound
RestoreEnds-IsSound backup before (err thrown) after (inl untouched) = untouched.sound
RestoreEnds-IsSound backup before (err thrown) after (inr fenced) = fenced.sound

Step-IsSound : (object after : FramObject) → IsSound object → Step object after → IsSound after
unfolding exchange recycle evict
Step-IsSound object _ sound (uses events) = use_call-IsSound events object sound
Step-IsSound object _ sound (exchanges frame entry space events) =
    exchanged-IsSound (authorize object.space_id frame entry space) (use_call events object) object
      sound (use_call-IsSound events object sound)
Step-IsSound object _ sound (recycles events) =
    recycle_live-IsSound object.live events object sound sound.live_sound
Step-IsSound object _ sound (exports sha256 events) =
    export_framlog-IsSound sha256 events object sound
Step-IsSound object _ sound (restores sha256 backup expected events) =
    RestoreEnds-IsSound _ object _ _
      (restore_framlog-Ends sha256 backup expected events object sound)
Step-IsSound object _ sound is_evicted = record {
  positive_chunk = sound.positive_chunk;
  positive_batch = sound.positive_batch;
  whole = sound.whole;
  live_sound = tt;
}

-- Whatever a sound object is asked, its guest does, its storage answers, and whenever its isolate is
-- evicted: the storage holds a whole log and a whole image, and an instance that the object keeps is
-- usable and tracks them, or is poisoned over the same storage.
pub Reach-IsSound :
    (object after : FramObject) → IsSound object → Reach object after → IsSound after
Reach-IsSound object _ sound here = sound
Reach-IsSound object after sound (then_step {middle} first rest) =
    Reach-IsSound middle after (Step-IsSound object middle sound first) rest
