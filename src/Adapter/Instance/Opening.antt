-- ===== src/Adapter/Instance/Opening.antt =====
-- adapter.mjs: `open`, `close`, `fence` and `portableFramlog` of FramInstance.
use fram.Prelude.{
  ℕ, true, false, Option, none, some, List, ◌==◌, if◌then◌else◌, take, Result, ok, err, ◌>>=◌,
}
use fram.Text.{Text}
use fram.Adapter.Chunks.{ChunkError, load}
use fram.Adapter.HostImage.{new_image}
use fram.Adapter.Store.{Which, DurableFramStore, Outcome, range_of, set_range}
use fram.Adapter.Status.{BackupCode, status_frame, decode_status_served_version}
use fram.Adapter.Instance.{
  Guest, Reply, Fence, FramInstance, InstanceError, storage_rejected, already_open, fenced,
  load_failed, backup_failed, host_calls, finish_call, enter, serialise,
}

-- `store.load(which)`
unfoldable pub load_object :
    Which → DurableFramStore → Result ChunkError (DurableFramStore × List ℕ)
load_object which store = do
  (range, loaded_bytes) ← load store.storage (range_of which store)
  ok (set_range which range store, loaded_bytes)

-- Both objects, in the order of `open`.
unfoldable pub load_objects :
    DurableFramStore → Result ChunkError (DurableFramStore × (List ℕ × List ℕ))
load_objects store = do
  (store', log_bytes) ← load_object Which.log store
  (store'', image_bytes) ← load_object Which.image store'
  ok (store'', (log_bytes, image_bytes))

-- The objects as `open` makes them.
unfoldable pub resident : DurableFramStore → List ℕ → List ℕ → FramInstance → FramInstance
resident store log_bytes image_bytes instance = record instance {
  host = record instance.host {
    store = store;
    log_image = new_image log_bytes;
    snapshot_image = new_image image_bytes;
    sync_pending = false;
  };
  loaded = true;
}

unfoldable pub mark_opened :
    Text → Result InstanceError Reply × FramInstance → Result InstanceError Reply × FramInstance
mark_opened space_id (err thrown, instance) = (err thrown, instance)
mark_opened space_id (ok reply, instance) = (
  ok reply,
  if reply.status == 0
      then record instance { space_id = some space_id; opened = true }
      else instance,
)

unfoldable pub open_loaded :
    Text
    → Guest
    → Outcome
    → FramInstance
    → Result ChunkError (DurableFramStore × (List ℕ × List ℕ))
    → Result InstanceError Reply × FramInstance
open_loaded space_id guest outcome instance (err thrown) = (err (load_failed thrown), instance)
open_loaded space_id guest outcome instance (ok (store, (log_bytes, image_bytes))) =
    mark_opened space_id (
      finish_call guest.ending outcome (
        let there = resident store log_bytes image_bytes instance in
        record there { host = host_calls guest.calls there.host }))

-- `open(spaceId)`, with the call of `fram_open`.
unfoldable pub open_space :
    Text → Guest → Outcome → FramInstance → Result InstanceError Reply × FramInstance
open_space space_id guest outcome instance =
    serialise
      (λ usable.
        if usable.opened
        then (err already_open, usable)
        else open_loaded space_id guest outcome usable (load_objects usable.host.store))
      instance

unfoldable pub mark_closed :
    Result InstanceError Reply × FramInstance → Result InstanceError Reply × FramInstance
mark_closed (err thrown, instance) = (err thrown, instance)
mark_closed (ok reply, instance) = (ok reply, record instance { closed = true; opened = false })

-- `close()`, with the call of `fram_close`.
unfoldable pub close : Guest → Outcome → FramInstance → Result InstanceError Reply × FramInstance
close guest outcome instance =
    serialise (λ usable. mark_closed (enter guest outcome usable)) instance

-- `if (!this.poisoned) this.poisoned = error`, without a rejected commit.
abbrev pub fence_over : Option Fence → Fence → FramInstance → InstanceError × FramInstance
fence_over (some earlier) reason instance = (fenced earlier, instance)
fence_over none reason instance = (fenced reason, record instance { fence = some reason })

-- `fence(error)`, and the error that the instance is fenced with after it.
unfoldable pub fence_instance : Fence → FramInstance → InstanceError × FramInstance
fence_instance reason instance =
    if instance.host.poisoned
    then (storage_rejected, instance)
    else fence_over instance.fence reason instance

-- `logBytes`
unfoldable pub log_bytes : FramInstance → List ℕ
log_bytes instance = take instance.host.log_image.size instance.host.log_image.bytes

-- The log with the version that the status names.
abbrev pub versioned : List ℕ → Result BackupCode Text → Result InstanceError (List ℕ × Text)
versioned bytes (err code) = err (backup_failed code)
versioned bytes (ok version) = ok (bytes, version)

abbrev pub read_version :
    Text
    → Result InstanceError Reply × FramInstance
    → Result InstanceError (List ℕ × Text) × FramInstance
read_version space_id (err thrown, instance) = (err thrown, instance)
read_version space_id (ok reply, instance) = (
  if reply.status == 0
      then versioned (log_bytes instance) (decode_status_served_version reply.response space_id)
      else err (backup_failed BackupCode.engine),
  instance,
)

abbrev pub ask_status :
    Text
    → Result BackupCode (List ℕ)
    → Result InstanceError Reply × FramInstance
    → FramInstance
    → Result InstanceError (List ℕ × Text) × FramInstance
ask_status space_id (err code) asked instance = (err (backup_failed code), instance)
ask_status space_id (ok frame) asked instance = read_version space_id asked

-- `portableFramlog`: the log with the version that it contains.
unfoldable pub portable_framlog :
    Text → Guest → Outcome → FramInstance → Result InstanceError (List ℕ × Text) × FramInstance
portable_framlog space_id guest outcome instance =
    serialise
      (λ usable. ask_status space_id (status_frame space_id) (enter guest outcome usable) usable)
      instance
