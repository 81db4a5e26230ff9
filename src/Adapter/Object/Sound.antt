-- ===== src/Adapter/Object/Sound.antt =====
-- adapter.mjs: FramDurableObjectBase keeps a whole log and image in its storage, and a live instance
-- that tracks them.
use fram.Prelude.{
  ◌<◌, ◌≡◌, refl, ap, inl, inr, Bool, true, false, Option, none, some, ◌==◌, Bool-cases, Result, ok,
  err, ◌⊎◌,
}
use fram.Adapter.Storage.{Storage}
use fram.Adapter.Store.{Outcome}
use fram.Adapter.Store.Commit.{IsTracked}
use fram.Adapter.Instance.{
  Guest, Reply, Fence, restore_fenced, FramInstance, InstanceError, assert_open, assert_usable,
}
use fram.Adapter.Instance.Calls.{Ends, usable_cases}
use fram.Adapter.Instance.Opened.{IsWhole, Ends-IsWhole, IsTracked-IsWhole, open_space-Ends}
use fram.Adapter.Object.{
  FramObject, ObjectError, Marker, with_live, without_live, booted, boot, boot_data, live_or_boot,
  unless_fenced, fram_of, has_fence, is_poisoned, used,
}

-- An instance that the object keeps.
pub record IsLive (map : Storage) (instance : FramInstance) : Type 0 where
  pub loaded : instance.loaded ≡ true
  pub tracked : IsTracked instance.host
  pub same_storage : instance.host.store.storage ≡ map
  pub usable : assert_usable instance ≡ ok tt

-- An instance that `exportFramlog` left poisoned: it is dropped when it is used next.
pub record IsStale (map : Storage) (instance : FramInstance) : Type 0 where
  pub poisoned : is_poisoned instance ≡ true
  pub same_storage : instance.host.store.storage ≡ map

abbrev pub IsHeld : Storage → FramInstance → Type 0
IsHeld map instance = IsLive map instance ⊎ IsStale map instance

abbrev pub IsLiveOrNone : Storage → Option FramInstance → Type 0
IsLiveOrNone map none = Unit {0}
IsLiveOrNone map (some instance) = IsHeld map instance

pub record IsSound (object : FramObject) : Type 0 where
  pub positive_chunk : 0 < object.chunk_bytes
  pub positive_batch : 0 < object.batch_keys
  pub whole : IsWhole object.storage
  pub live_sound : IsLiveOrNone object.storage object.live

pub without_live-IsSound :
    (instance : FramInstance) (object : FramObject)
    → IsSound object
    → IsWhole instance.host.store.storage
    → IsSound (without_live instance object)
unfolding without_live
without_live-IsSound instance object sound whole = record {
  positive_chunk = sound.positive_chunk;
  positive_batch = sound.positive_batch;
  whole = whole;
  live_sound = tt;
}

pub with_live-IsSound :
    (instance : FramInstance) (object : FramObject)
    → IsSound object
    → instance.loaded ≡ true
    → IsTracked instance.host
    → assert_usable instance ≡ ok tt
    → IsSound (with_live instance object)
unfolding with_live
with_live-IsSound instance object sound loaded tracked usable = record {
  positive_chunk = sound.positive_chunk;
  positive_batch = sound.positive_batch;
  whole = IsTracked-IsWhole instance.host tracked;
  live_sound =
      inl (record { loaded = loaded; tracked = tracked; same_storage = refl; usable = usable });
}

-- What `fram()` gives: a sound object, and an instance to use where it succeeds.
abbrev pub IsReady : Result ObjectError FramInstance → FramObject → Type 0
IsReady (ok instance) object = IsSound object × IsHeld object.storage instance
IsReady (err thrown) object = IsSound object

booted-IsReady :
    (guest : Guest) (before : FramInstance) (object : FramObject)
    (result : Result InstanceError Reply) (instance : FramInstance)
    → IsSound object
    → IsTracked before.host
    → Ends guest before result instance
    → instance.loaded ≡ true
    → let done = booted (result, instance) object in IsReady done.0 done.1
booted-IsReady guest before object (err thrown) instance sound tracked ends loaded =
    without_live-IsSound instance object sound
      (Ends-IsWhole guest before (err thrown) instance tracked ends)
booted-IsReady guest before object (ok reply) instance sound tracked ends loaded =
    elim (Bool-cases (reply.status == 0)) [
      | inl e ↦
          let kept = with_live-IsSound instance object sound loaded ends.tracked ends.usable in
          rw e (kept, unfold with_live in kept.live_sound)
      | inr e ↦ rw e (
          without_live-IsSound instance object sound
            (Ends-IsWhole guest before (ok reply) instance tracked ends))
    ]

boot-IsReady :
    (guest : Guest) (outcome : Outcome) (object : FramObject)
    → IsSound object
    → let done = boot guest outcome object in IsReady done.0 done.1
unfolding boot
boot-IsReady guest outcome object sound =
    let (log_bytes, image_bytes, held) = sound.whole in
    let (r, ends, loaded) =
      open_space-Ends object.storage object.chunk_bytes object.batch_keys log_bytes image_bytes
        object.space_id guest outcome sound.positive_chunk sound.positive_batch held in
    booted-IsReady guest _ object _ _ sound r.tracked ends loaded

pub fenced-IsSound :
    (object : FramObject) (reason : Option Fence)
    → IsSound object
    → IsSound (record object { administrative_fence = reason })
fenced-IsSound object reason sound = record {
  positive_chunk = sound.positive_chunk;
  positive_batch = sound.positive_batch;
  whole = sound.whole;
  live_sound = sound.live_sound;
}

boot_data-IsReady :
    (pending : Option Marker) (guest : Guest) (outcome : Outcome) (object : FramObject)
    → IsSound object
    → let done = boot_data pending guest outcome object in IsReady done.0 done.1
boot_data-IsReady (some marker) guest outcome object sound =
    fenced-IsSound object (some restore_fenced) sound
boot_data-IsReady none guest outcome object sound = boot-IsReady guest outcome object sound

live_or_boot-IsReady :
    (live : Option FramInstance) (guest : Guest) (outcome : Outcome) (object : FramObject)
    → IsSound object
    → IsLiveOrNone object.storage live
    → let done = live_or_boot live guest outcome object in IsReady done.0 done.1
live_or_boot-IsReady (some instance) guest outcome object sound live = (sound, live)
live_or_boot-IsReady none guest outcome object sound live =
    boot_data-IsReady object.pending guest outcome object sound

unless_fenced-IsReady :
    (fence : Option Fence) (guest : Guest) (outcome : Outcome) (object : FramObject)
    → IsSound object
    → let done = unless_fenced fence guest outcome object in IsReady done.0 done.1
unless_fenced-IsReady (some reason) guest outcome object sound = sound
unless_fenced-IsReady none guest outcome object sound =
    live_or_boot-IsReady object.live guest outcome object sound sound.live_sound

pub fram_of-IsReady :
    (guest : Guest) (outcome : Outcome) (object : FramObject)
    → IsSound object
    → let done = fram_of guest outcome object in IsReady done.0 done.1
unfolding fram_of
fram_of-IsReady guest outcome object sound =
    unless_fenced-IsReady object.administrative_fence guest outcome object sound

no_fence :
    (fence : Option Fence) (closed : Bool)
    → assert_open fence closed ≡ ok tt
    → has_fence fence ≡ false
no_fence none closed usable = refl
no_fence (some reason) closed usable = cc

usable-not_poisoned :
    (instance : FramInstance) → assert_usable instance ≡ ok tt → is_poisoned instance ≡ false
unfolding assert_usable is_poisoned
usable-not_poisoned instance usable = elim (Bool-cases instance.host.poisoned) [
  | inl e ↦ let u = rw e at usable in cc
  | inr e ↦ rw e (no_fence instance.fence instance.closed (rw e at usable))
]

pub poisoned_host :
    (instance : FramInstance) → instance.host.poisoned ≡ true → is_poisoned instance ≡ true
unfolding is_poisoned
poisoned_host instance h = rw h refl

-- The end of `#use`, whatever the guest and the storage did.
pub used-IsSound :
    (guest : Guest) (before : FramInstance) (object : FramObject)
    (result : Result InstanceError Reply) (after : FramInstance)
    → IsSound object
    → IsTracked before.host
    → assert_usable before ≡ ok tt
    → after.loaded ≡ true
    → Ends guest before result after
    → IsSound (used (result, after) object).1
used-IsSound guest before object (ok reply) after sound tracked usable loaded ends =
    with_live-IsSound after object sound loaded ends.tracked ends.usable
used-IsSound guest before object (err thrown) after sound tracked usable loaded ends =
    let whole = Ends-IsWhole guest before (err thrown) after tracked ends in
    elim ends.goes_on_or_not [
      | inl (failed, still_tracked, still_usable) ↦
          rw (usable-not_poisoned after still_usable)
            (with_live-IsSound after object sound loaded still_tracked still_usable)
      | inr (unusable, inl poisoned) ↦
          rw (poisoned_host after poisoned) (without_live-IsSound after object sound whole)
      | inr (unusable, inr same) ↦ let moved = ap assert_usable same in cc
    ]

-- An instance that is poisoned throws in every turn.
pub stale-refused :
    (instance : FramInstance)
    → is_poisoned instance ≡ true
    → (thrown : InstanceError) × (assert_usable instance ≡ err thrown)
stale-refused instance poisoned = elim (usable_cases instance) [
  | inl usable ↦ let not_poisoned = usable-not_poisoned instance usable in cc
  | inr refused ↦ refused
]

pub stale-dropped :
    (instance : FramInstance) (object : FramObject)
    → IsSound object
    → IsStale object.storage instance
    → IsSound (without_live instance object)
stale-dropped instance object sound stale =
    without_live-IsSound instance object sound (rw stale.same_storage sound.whole)
