-- ===== src/Adapter/Object.antt =====
-- adapter.mjs: class FramDurableObjectBase, the object that owns one FRAMLOG and boots a guest over it.
-- Its operations are serialised: each is a step from one state to the next, with the calls of the
-- guest and the ends of the storage transactions as arguments. A boot is awaited by the operation
-- that starts it, so `booting` is null between two operations.
pub mod Sound
pub mod Life
pub mod Served
pub mod Restore
pub mod Export
pub mod Exported
pub mod Publish
pub mod Restored
pub mod Target
pub mod Atomic
pub mod Pending
pub mod Verified
pub mod Returns
pub mod Preflight
pub mod Kept
use fram.Prelude.{
  ℕ, Bool, true, false, not, ◌&&◌, ◌||◌, Option, none, some, List, ◌==◌, leb, if◌then◌else◌, length,
  Result, ok, err, ◌>>=◌, ◌>>◌, require,
}
use fram.Text.{Text}
use fram.Client.Request.{Entry}
use fram.Adapter.Storage.{Storage}
use fram.Adapter.Requests.{RequestCode, Request, Inspected, authorize, framrpc_max_frame_bytes}
use fram.Adapter.Store.{DurableFramStore, Outcome, new_store}
use fram.Adapter.Instance.{
  Guest, Reply, Fence, restore_fenced, FramInstance, InstanceError, new_instance, call,
}
use fram.Adapter.Instance.Opening.{open_space, close}

-- The pending restore, as its marker names it.
pub record Marker : Type 0 where
  pub format : Text
  pub space_id : Text
  pub served_version : Text
  pub byte_length : ℕ
  pub sha256 : Text

pub record FramObject : Type 0 where
  pub space_id : Text
  pub chunk_bytes : ℕ
  pub batch_keys : ℕ
  -- the storage of the object, under the keys of the two ranges
  pub storage : Storage
  -- what it holds under the key of a restore that is pending
  pub pending : Option Marker
  pub live : Option FramInstance
  pub administrative_fence : Option Fence

pub data ObjectError : Type 0 where
  object_fenced : Fence → ObjectError
  instance_failed : InstanceError → ObjectError
  open_failed : ℕ → ObjectError
  request_refused : RequestCode → ObjectError
  exchange_failed : ℕ → ObjectError

-- What an operation does besides: the calls of the guest and the ends of its transactions, those of
-- a boot first.
pub record Events : Type 0 where
  pub boot_guest : Guest
  pub boot_outcome : Outcome
  pub guest : Guest
  pub outcome : Outcome

-- The object over the storage that an instance leaves.
unfoldable pub with_live : FramInstance → FramObject → FramObject
with_live instance object = record object {
  storage = instance.host.store.storage;
  live = some instance;
}

-- `#drop`
unfoldable pub drop_live : FramObject → FramObject
drop_live object = record object { live = none }

-- The storage that a dropped instance leaves.
unfoldable pub without_live : FramInstance → FramObject → FramObject
without_live instance object = record object { storage = instance.host.store.storage; live = none }

-- The end of `#boot`, for what `open` returned.
abbrev pub booted :
    Result InstanceError Reply × FramInstance
    → FramObject
    → Result ObjectError FramInstance × FramObject
booted (err thrown, instance) object = (err (instance_failed thrown), without_live instance object)
booted (ok reply, instance) object =
    if reply.status == 0
    then (ok instance, with_live instance object)
    else (err (open_failed reply.status), without_live instance object)

-- `#boot`
unfoldable pub boot : Guest → Outcome → FramObject → Result ObjectError FramInstance × FramObject
boot guest outcome object =
    let store = new_store object.storage object.chunk_bytes object.batch_keys in
    booted (open_space object.space_id guest outcome (new_instance store)) object

-- `#bootData`: no data is served while a restore is pending.
abbrev pub boot_data :
    Option Marker → Guest → Outcome → FramObject → Result ObjectError FramInstance × FramObject
boot_data (some marker) guest outcome object = (
  err (object_fenced restore_fenced),
  record object { administrative_fence = some restore_fenced },
)
boot_data none guest outcome object = boot guest outcome object

abbrev pub live_or_boot :
    Option FramInstance
    → Guest
    → Outcome
    → FramObject
    → Result ObjectError FramInstance × FramObject
live_or_boot (some instance) guest outcome object = (ok instance, object)
live_or_boot none guest outcome object = boot_data object.pending guest outcome object

abbrev pub unless_fenced :
    Option Fence → Guest → Outcome → FramObject → Result ObjectError FramInstance × FramObject
unless_fenced (some reason) guest outcome object = (err (object_fenced reason), object)
unless_fenced none guest outcome object = live_or_boot object.live guest outcome object

-- `fram()`
unfoldable pub fram_of : Guest → Outcome → FramObject → Result ObjectError FramInstance × FramObject
fram_of guest outcome object = unless_fenced object.administrative_fence guest outcome object

abbrev pub has_fence : Option Fence → Bool
has_fence none = false
has_fence (some reason) = true

-- `instance.poisoned`
unfoldable pub is_poisoned : FramInstance → Bool
is_poisoned instance = instance.host.poisoned || has_fence instance.fence

-- The end of `#use`, for what the body left of the instance.
abbrev pub used {ℓ} :
    {A : Type ℓ}
    → Result InstanceError A × FramInstance
    → FramObject
    → Result ObjectError A × FramObject
used (ok a, instance) object = (ok a, with_live instance object)
used (err thrown, instance) object = (
  err (instance_failed thrown),
  if is_poisoned instance then without_live instance object else with_live instance object,
)

abbrev pub use_booted {ℓ} :
    {A : Type ℓ}
    → (FramInstance → Result InstanceError A × FramInstance)
    → Result ObjectError FramInstance × FramObject
    → Result ObjectError A × FramObject
use_booted body (err thrown, object) = (err thrown, object)
use_booted body (ok instance, object) = used (body instance) object

-- `#use`
unfoldable pub use_instance {ℓ} :
    {A : Type ℓ}
    → (FramInstance → Result InstanceError A × FramInstance)
    → Events
    → FramObject
    → Result ObjectError A × FramObject
use_instance body events object =
    use_booted body (fram_of events.boot_guest events.boot_outcome object)

-- `query`, `transact` and `snapshot`, of the entry that the guest was given.
unfoldable pub use_call : Events → FramObject → Result ObjectError Reply × FramObject
use_call events object = use_instance (call events.guest events.outcome) events object

-- The checks of `exchange` on the guest's answer.
abbrev pub answered : Result ObjectError Reply → Result ObjectError (List ℕ)
answered (err thrown) = err thrown
answered (ok reply) = do
  require (reply.status == 0) (exchange_failed reply.status)
  require (leb (length reply.response) framrpc_max_frame_bytes) (exchange_failed reply.status)
  require reply.released (exchange_failed reply.status)
  ok reply.response

abbrev pub exchanged :
    Inspected Request
    → Result ObjectError Reply × FramObject
    → FramObject
    → Result ObjectError (List ℕ) × FramObject
exchanged (err code) done object = (err (request_refused code), object)
exchanged (ok request) done object = (answered done.0, done.1)

-- `exchange(frame, { entry, space })`
unfoldable pub exchange :
    List ℕ → Entry → Text → Events → FramObject → Result ObjectError (List ℕ) × FramObject
exchange frame entry space events object =
    exchanged (authorize object.space_id frame entry space) (use_call events object) object

abbrev pub recycled :
    Result InstanceError Reply × FramInstance
    → FramObject
    → Result ObjectError (Option Reply) × FramObject
recycled (err thrown, instance) object =
    (err (instance_failed thrown), without_live instance object)
recycled (ok reply, instance) object = (ok (some reply), without_live instance object)

abbrev pub recycle_live :
    Option FramInstance → Events → FramObject → Result ObjectError (Option Reply) × FramObject
recycle_live none events object = (ok none, drop_live object)
recycle_live (some instance) events object =
    let closing = close events.guest events.outcome instance in
    if not instance.closed && not (is_poisoned instance)
    then recycled closing object
    else (ok none, drop_live object)

-- `recycle()`
unfoldable pub recycle : Events → FramObject → Result ObjectError (Option Reply) × FramObject
recycle events object = recycle_live object.live events object

-- The object when its isolate is evicted: the constructor runs again on the storage.
unfoldable pub evict : FramObject → FramObject
evict object = record object { live = none; administrative_fence = none }
