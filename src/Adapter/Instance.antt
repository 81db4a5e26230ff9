-- ===== src/Adapter/Instance.antt =====
-- adapter.mjs: class FramInstance, one guest over the two storage objects. What a guest does in a
-- call is the sequence of host calls that it makes, and how the call ends. `allocate` and
-- `deallocate`, which act on the arena alone, are in Adapter.Arena; the clock keeps no state.
pub mod Hooks
pub mod Opening
pub mod Calls
pub mod Opened
pub mod Fenced
pub mod Portable
pub mod Answers
use fram.Prelude.{
  ℕ, ◌+◌, Bool, true, false, ◌&&◌, ◌||◌, not, Option, none, some, List, [], ◌∷◌, ◌==◌,
  if◌then◌else◌, length, Result, ok, err, ◌>>=◌,
}
use fram.Text.{Text}
use fram.Adapter.Chunks.{ChunkError}
use fram.Adapter.HostImage.{HostImage, new_image, append, truncate, read}
use fram.Adapter.Store.{Which, DurableFramStore, Outcome, Host, commit}
use fram.Adapter.Status.{BackupCode}

-- A call of `fram_host_v1` on storage.
pub data HostCall : Type 0 where
  storage_size : Which → HostCall
  storage_read : Which → ℕ → ℕ → HostCall
  storage_truncate : Which → ℕ → HostCall
  storage_append : Which → List ℕ → HostCall
  storage_sync : Which → HostCall
  storage_close : HostCall

-- What the guest is answered: a status, or the number or the bytes that are put in its memory.
pub data Answer : Type 0 where
  done failed : Answer
  size : ℕ → Answer
  bytes : List ℕ → Answer

-- `#object(context)`
unfoldable pub object_of : Which → Host → HostImage
object_of Which.log host = host.log_image
object_of Which.image host = host.snapshot_image

unfoldable pub set_object : Which → HostImage → Host → Host
set_object Which.log object host = record host { log_image = object }
set_object Which.image object host = record host { snapshot_image = object }

abbrev answer_read : Option (List ℕ) → Answer
answer_read none = failed
answer_read (some slice) = bytes slice

-- One call of the imports, with the host after it.
unfoldable pub host_call : HostCall → Host → Answer × Host
host_call (storage_size which) host = (size (object_of which host).size, host)
host_call (storage_read which offset length) host =
    (answer_read (read offset length (object_of which host)), host)
host_call (storage_truncate which length) host =
    let (succeeded, object) = truncate length (object_of which host) in
    (if succeeded then done else failed, set_object which object host)
host_call (storage_append which piece) host =
    (done, set_object which (append piece (object_of which host)) host)
host_call (storage_sync which) host =
    let object = object_of which host in
    (
      done,
      record (set_object which (record object { syncs = object.syncs + 1 }) host) {
        sync_pending = true;
      },
    )
host_call storage_close host = (done, record host { sync_pending = true })

-- How a call of the guest ends: with a reply, or with an exception of the guest or of its memory.
pub record Reply : Type 0 where
  pub status : ℕ
  pub message : Text
  pub response : List ℕ
  pub released : Bool

pub data Ending : Type 0 where
  replies : Reply → Ending
  traps : Ending

-- One call of the guest.
pub record Guest : Type 0 where
  pub calls : List HostCall
  pub ending : Ending

unfoldable pub host_calls : List HostCall → Host → Host
host_calls [] host = host
host_calls (call ∷ calls) host = host_calls calls (host_call call host).1

-- The errors that an instance is fenced with.
pub data Fence : Type 0 where
  administrative_fence restore_fenced : Fence

pub data InstanceError : Type 0 where
  storage_rejected is_closed already_open not_loaded guest_failed : InstanceError
  fenced : Fence → InstanceError
  load_failed : ChunkError → InstanceError
  backup_failed : BackupCode → InstanceError

pub record FramInstance : Type 0 where
  pub host : Host
  -- whether `log` and `image` are not null
  pub loaded : Bool
  pub opened : Bool
  pub closed : Bool
  pub space_id : Option Text
  -- `poisoned`, where it was set by `fence`; a rejected commit sets that of the host
  pub fence : Option Fence

-- The constructor, over a store.
unfoldable pub new_instance : DurableFramStore → FramInstance
unfolding new_image
new_instance store = record {
  host = record {
    store = store;
    log_image = new_image [];
    snapshot_image = new_image [];
    sync_pending = false;
    poisoned = false;
    landed_commits = 0;
  };
  loaded = false;
  opened = false;
  closed = false;
  space_id = none;
  fence = none;
}

-- Without a rejected commit: `fence` may have poisoned the instance, or it is closed.
abbrev pub assert_open : Option Fence → Bool → Result InstanceError (Unit {0})
assert_open (some reason) closed = err (fenced reason)
assert_open none closed = if closed then err is_closed else ok tt

-- `#assertUsable`
unfoldable pub assert_usable : FramInstance → Result InstanceError (Unit {0})
assert_usable instance =
    if instance.host.poisoned
    then err storage_rejected
    else assert_open instance.fence instance.closed

-- `#commit` at the end of a call, which throws where the store rejects it.
unfoldable pub commit_now : Outcome → FramInstance → Result InstanceError (Unit {0}) × FramInstance
commit_now outcome instance =
    let after : FramInstance = record instance { host = commit outcome instance.host } in
    if after.host.poisoned then (err storage_rejected, after) else (ok tt, after)

-- The end of a guest's call: its reply once the commit is done.
unfoldable pub finish_call :
    Ending → Outcome → FramInstance → Result InstanceError Reply × FramInstance
finish_call traps outcome instance = (err guest_failed, instance)
finish_call (replies reply) outcome instance =
    let committed = commit_now outcome instance in (committed.0 >>= λ u. ok reply, committed.1)

-- A call of the guest, up to the commit that follows it. Without objects the first storage call of
-- the guest throws, or the commit.
unfoldable pub enter : Guest → Outcome → FramInstance → Result InstanceError Reply × FramInstance
enter guest outcome instance =
    if instance.loaded
    then finish_call guest.ending outcome
        (record instance { host = host_calls guest.calls instance.host })
    else (err not_loaded, instance)

-- `#serialise`: a body runs once the instance is usable.
abbrev turn {ℓ} :
    {A : Type ℓ}
    → Result InstanceError (Unit {0})
    → (FramInstance → Result InstanceError A × FramInstance)
    → FramInstance
    → Result InstanceError A × FramInstance
turn (err thrown) body instance = (err thrown, instance)
turn (ok u) body instance = body instance

unfoldable pub serialise {ℓ} :
    {A : Type ℓ}
    → (FramInstance → Result InstanceError A × FramInstance)
    → FramInstance
    → Result InstanceError A × FramInstance
serialise body instance = turn (assert_usable instance) body instance

-- `call`, of the entry that the guest was given.
unfoldable pub call : Guest → Outcome → FramInstance → Result InstanceError Reply × FramInstance
call guest outcome instance = serialise (enter guest outcome) instance
