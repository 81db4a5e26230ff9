-- ===== src/Adapter/Object/Pending.antt =====
-- adapter.mjs: FramDurableObjectBase while a restore is pending.
use fram.Prelude.{
  ◌≡◌, refl, ◌||◌, Bool, true, false, ℕ, List, Option, none, some, Bool-cases, Result, ok, err, inl,
  inr,
}
use fram.Text.{Text}
use fram.Client.Request.{Entry}
use fram.Adapter.Requests.{Request, Inspected, authorize}
use fram.Adapter.Storage.{Storage}
use fram.Adapter.Store.{Outcome}
use fram.Adapter.Instance.{Guest, Reply, Fence, restore_fenced, FramInstance, InstanceError, call}
use fram.Adapter.Object.{
  FramObject, ObjectError, object_fenced, request_refused, Marker, Events, fram_of, use_booted,
  use_instance, use_call, exchanged, exchange, unless_fenced, live_or_boot, recycle, drop_live,
  evict,
}
use fram.Adapter.Object.Export.{
  ExportError, export_failed, backup_of, export_booted, export_framlog,
}
use fram.Adapter.Object.Life.{
  Step, uses, exchanges, recycles, exports, restores, is_evicted, Reach, here, then_step,
}

-- An object whose restore was published and not verified.
pub record IsWaiting (marker : Marker) (map : Storage) (object : FramObject) : Type 0 where
  pub still_pending : object.pending ≡ some marker
  pub none_live : object.live ≡ none
  pub storage_kept : object.storage ≡ map

-- `fram()` gives no instance of an object that waits.
record IsRefused {ℓ κ} {E : Type ℓ} {A : Type κ} (marker : Marker) (map : Storage)
    (done : Result E A × FramObject) : Type (ℓ ⊔ κ) where
  reason : E
  thrown : done.0 ≡ err reason
  waits : IsWaiting marker map done.1

live_or_boot-IsRefused :
    (marker : Marker) (map : Storage) (guest : Guest) (outcome : Outcome) (object : FramObject)
    → IsWaiting marker map object
    → IsRefused marker map (live_or_boot object.live guest outcome object)
live_or_boot-IsRefused marker map guest outcome object waits =
    rw (waits.none_live, waits.still_pending)
      (record {
        reason = object_fenced restore_fenced;
        thrown = refl;
        waits = record {
          still_pending = refl;
          none_live = refl;
          storage_kept = waits.storage_kept;
        };
      })

unless_fenced-IsRefused :
    (marker : Marker) (map : Storage) (fence : Option Fence) (guest : Guest) (outcome : Outcome)
    (object : FramObject)
    → IsWaiting marker map object
    → IsRefused marker map (unless_fenced fence guest outcome object)
unless_fenced-IsRefused marker map none guest outcome object waits =
    live_or_boot-IsRefused marker map guest outcome object waits
unless_fenced-IsRefused marker map (some reason) guest outcome object waits = record {
  reason = object_fenced reason;
  thrown = refl;
  waits = waits;
}

use_booted-IsRefused :
    (marker : Marker) (map : Storage)
    (body : FramInstance → Result InstanceError Reply × FramInstance)
    (done : Result ObjectError FramInstance × FramObject)
    → IsRefused marker map done
    → IsRefused marker map (use_booted body done)
use_booted-IsRefused marker map body (err thrown, object) refused = record {
  reason = thrown;
  thrown = refl;
  waits = refused.waits;
}
use_booted-IsRefused marker map body (ok instance, object) refused =
    let absurd = refused.thrown in cc

use_call-IsRefused :
    (marker : Marker) (map : Storage) (events : Events) (object : FramObject)
    → IsWaiting marker map object
    → IsRefused marker map (use_call events object)
unfolding use_call use_instance fram_of
use_call-IsRefused marker map events object waits =
    use_booted-IsRefused marker map (call events.guest events.outcome) _ (
      unless_fenced-IsRefused marker map object.administrative_fence events.boot_guest
        events.boot_outcome object waits)

exchanged-IsRefused :
    (marker : Marker) (map : Storage) (request : Inspected Request)
    (done : Result ObjectError Reply × FramObject) (object : FramObject)
    → IsWaiting marker map object
    → IsRefused marker map done
    → IsRefused marker map (exchanged request done object)
exchanged-IsRefused marker map (err code) done object waits refused = record {
  reason = request_refused code;
  thrown = refl;
  waits = waits;
}
exchanged-IsRefused marker map (ok request) done object waits refused = record {
  reason = refused.reason;
  thrown = rw refused.thrown refl;
  waits = refused.waits;
}

exchange-IsRefused :
    (marker : Marker) (map : Storage) (frame : List ℕ) (entry : Entry) (space : Text)
    (events : Events) (object : FramObject)
    → IsWaiting marker map object
    → IsRefused marker map (exchange frame entry space events object)
unfolding exchange
exchange-IsRefused marker map frame entry space events object waits =
    exchanged-IsRefused marker map (authorize object.space_id frame entry space) _ object waits
      (use_call-IsRefused marker map events object waits)

export_booted-IsRefused :
    (sha256 : List ℕ → Text) (space_id : Text) (marker : Marker) (map : Storage) (events : Events)
    (done : Result ObjectError FramInstance × FramObject)
    → IsRefused marker map done
    → let exported = export_booted space_id events done in
      IsRefused marker map (backup_of sha256 space_id exported.0, exported.1)
unfolding backup_of
export_booted-IsRefused sha256 space_id marker map events (err thrown, object) refused = record {
  reason = export_failed thrown;
  thrown = refl;
  waits = refused.waits;
}
export_booted-IsRefused sha256 space_id marker map events (ok instance, object) refused =
    let absurd = refused.thrown in cc

export_framlog-IsRefused :
    (sha256 : List ℕ → Text) (marker : Marker) (map : Storage) (events : Events)
    (object : FramObject)
    → IsWaiting marker map object
    → IsRefused marker map (export_framlog sha256 events object)
unfolding export_framlog fram_of
export_framlog-IsRefused sha256 marker map events object waits =
    export_booted-IsRefused sha256 object.space_id marker map events _ (
      unless_fenced-IsRefused marker map object.administrative_fence events.boot_guest
        events.boot_outcome object waits)

-- Whether a step is a restore.
abbrev pub is_restore : {object after : FramObject} → Step object after → Bool
is_restore (uses events) = false
is_restore (exchanges frame entry space events) = false
is_restore (recycles events) = false
is_restore (exports sha256 events) = false
is_restore (restores sha256 backup expected events) = true
is_restore is_evicted = false

abbrev pub has_restore : {object last : FramObject} → Reach object last → Bool
has_restore here = false
has_restore (then_step first rest) = is_restore first || has_restore rest

Step-IsWaiting :
    (marker : Marker) (map : Storage) (object after : FramObject) (step : Step object after)
    → IsWaiting marker map object
    → is_restore step ≡ false
    → IsWaiting marker map after
unfolding recycle drop_live evict
Step-IsWaiting marker map object _ (uses events) waits h =
    (use_call-IsRefused marker map events object waits).waits
Step-IsWaiting marker map object _ (exchanges frame entry space events) waits h =
    (exchange-IsRefused marker map frame entry space events object waits).waits
Step-IsWaiting marker map object _ (recycles events) waits h = rw waits.none_live (record {
  still_pending = waits.still_pending;
  none_live = refl;
  storage_kept = waits.storage_kept;
})
Step-IsWaiting marker map object _ (exports sha256 events) waits h =
    (export_framlog-IsRefused sha256 marker map events object waits).waits
Step-IsWaiting marker map object _ (restores sha256 backup expected events) waits h = cc
Step-IsWaiting marker map object _ is_evicted waits h = record {
  still_pending = waits.still_pending;
  none_live = refl;
  storage_kept = waits.storage_kept;
}

Reach-IsWaiting :
    (marker : Marker) (map : Storage) (object last : FramObject) (path : Reach object last)
    → IsWaiting marker map object
    → has_restore path ≡ false
    → IsWaiting marker map last
Reach-IsWaiting marker map object _ here waits h = waits
Reach-IsWaiting marker map object last (then_step {middle} first rest) waits h =
    elim (Bool-cases (is_restore first)) [
      | inl e ↦ let absurd = rw e at h in cc
      | inr e ↦
          Reach-IsWaiting marker map middle last rest
            (Step-IsWaiting marker map object middle first waits e) (rw e at h)
    ]

-- What an object gives that waits for a restore.
pub record ServesNothing (frame : List ℕ) (entry : Entry) (space : Text) (sha256 : List ℕ → Text)
    (events : Events) (marker : Marker) (map : Storage) (object : FramObject) : Type 0 where
  pub waits : IsWaiting marker map object
  pub reason : ObjectError
  pub not_served : (exchange frame entry space events object).0 ≡ err reason
  pub export_reason : ExportError
  pub not_exported : (export_framlog sha256 events object).0 ≡ err export_reason

-- An object without an instance whose storage has the marker of a restore, whatever it is asked but
-- another restore, and however often its isolate is evicted: the marker and the storage stay, and
-- neither `exchange` nor `exportFramlog` gives a result.
pub Reach-ServesNothing :
    (frame : List ℕ) (entry : Entry) (space : Text) (sha256 : List ℕ → Text) (events : Events)
    (marker : Marker) (object last : FramObject) (path : Reach object last)
    → object.pending ≡ some marker
    → object.live ≡ none
    → has_restore path ≡ false
    → ServesNothing frame entry space sha256 events marker object.storage last
Reach-ServesNothing frame entry space sha256 events marker object last path pending none_live h =
    let waits =
      Reach-IsWaiting marker object.storage object last path
        (record { still_pending = pending; none_live = none_live; storage_kept = refl }) h in
    let exchanged = exchange-IsRefused marker object.storage frame entry space events last waits in
    let exported = export_framlog-IsRefused sha256 marker object.storage events last waits in
    record {
      waits = waits;
      reason = exchanged.reason;
      not_served = exchanged.thrown;
      export_reason = exported.reason;
      not_exported = exported.thrown;
    }
