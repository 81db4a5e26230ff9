-- ===== src/Adapter/Store.antt =====
-- adapter.mjs: class DurableFramStore, the FRAMLOG and the snapshot image as two ranges of one
-- storage, and `commit` of FramInstance, which publishes what the two images changed.
pub mod Commit
pub mod Lands
pub mod Rejects
pub mod Reload
pub mod Saved
pub mod Replace
use fram.Prelude.{
  ℕ, ◌+◌, Bool, true, false, ◌&&◌, not, Option, none, some, List, [], ◌∷◌, ◌++◌, if◌then◌else◌,
  Result, ok, err, ◌>>=◌,
}
use fram.Text.{codes}
use fram.Adapter.Storage.{Storage}
use fram.Adapter.Chunks.{ChunkedRange, ChunkError, Plan, new_range, plan, apply_to, settle}
use fram.Adapter.HostImage.{HostImage, take_commit, restore_commit}

pub data Which : Type 0 where
  log image : Which

pub record DurableFramStore : Type 0 where
  pub storage : Storage
  pub log_range : ChunkedRange
  pub image_range : ChunkedRange
  pub commits : ℕ

-- The constructor, for a storage, a chunk size and the keys of a batch.
unfoldable pub new_store : Storage → ℕ → ℕ → DurableFramStore
new_store storage chunk_bytes batch_keys = record {
  storage = storage;
  log_range = new_range (codes "framlog/") chunk_bytes batch_keys;
  image_range = new_range (codes "framimage/") chunk_bytes batch_keys;
  commits = 0;
}

-- `this.ranges[which]`
unfoldable pub range_of : Which → DurableFramStore → ChunkedRange
range_of Which.log store = store.log_range
range_of Which.image store = store.image_range

unfoldable pub set_range : Which → ChunkedRange → DurableFramStore → DurableFramStore
set_range Which.log range store = record store { log_range = range }
set_range Which.image range store = record store { image_range = range }

pub record Part : Type 0 where
  pub which : Which
  pub bytes : List ℕ
  pub size : ℕ
  pub low_water : ℕ

-- The plans of the parts, made before the transaction is queued.
unfoldable pub stage : DurableFramStore → List Part → Result ChunkError (List (Which × Plan))
stage store [] = ok []
stage store (part ∷ rest) = do
  first ← plan (range_of part.which store) part.bytes part.size part.low_water
  others ← stage store rest
  ok ((part.which, first) ∷ others)

-- The body of the transaction, on the storage that it stages.
unfoldable pub apply_all : List (Which × Plan) → DurableFramStore → DurableFramStore
apply_all [] store = store
apply_all ((which, pl) ∷ rest) store =
    let after = apply_to pl (range_of which store, store.storage) in
    apply_all rest (record (set_range which after.0 store) { storage = after.1 })

unfoldable pub settle_all : List (Which × Plan) → DurableFramStore → DurableFramStore
settle_all [] store = store
settle_all ((which, pl) ∷ rest) store =
    settle_all rest (set_range which (settle pl (range_of which store)) store)

-- The end of a storage transaction: a rejected one publishes nothing.
pub data Outcome : Type 0 where
  lands rejects : Outcome

-- `run`: the transaction over the staged plans; on a rejection only the counters of the ranges have
-- moved.
unfoldable pub run : Outcome → List (Which × Plan) → DurableFramStore → Bool × DurableFramStore
run Outcome.lands staged store =
    let settled = settle_all staged (apply_all staged store) in
    (true, record settled { commits = settled.commits + 1 })
run Outcome.rejects staged store =
    (false, record (apply_all staged store) { storage = store.storage })

-- `commit(parts)`: whether it landed, with the store that it leaves.
unfoldable pub commit_parts :
    Outcome → List Part → DurableFramStore → Result ChunkError (Bool × DurableFramStore)
commit_parts outcome parts store = do staged ← stage store parts; ok (run outcome staged store)

-- `replace(parts, marker)` of the log's bytes and a plan that clears the image: whether it landed, with
-- the store that it leaves. The marker is put in the same transaction.
unfoldable pub replace_parts :
    Outcome → List ℕ → ℕ → Plan → DurableFramStore → Result ChunkError (Bool × DurableFramStore)
replace_parts outcome bytes size clearing store = do
  log_plan ← plan (range_of Which.log store) bytes size 0
  ok (run outcome ((Which.log, log_plan) ∷ (Which.image, clearing) ∷ []) store)

-- What `commit` of FramInstance works on.
pub record Host : Type 0 where
  pub store : DurableFramStore
  pub log_image : HostImage
  pub snapshot_image : HostImage
  pub sync_pending : Bool
  pub poisoned : Bool
  pub landed_commits : ℕ

-- The part of an image, where it is dirty.
unfoldable pub part_of : Which → HostImage → List Part
part_of which object =
    if object.dirty
    then record {
      which = which;
      bytes = object.bytes;
      size = object.size;
      low_water = (take_commit object).0;
    }
      ∷ []
    else []

-- The image after its part was taken.
unfoldable pub taken : HostImage → HostImage
taken object = if object.dirty then (take_commit object).1 else object

-- A rejected commit published nothing: the range it covered is dirty again.
unfoldable pub restored : HostImage → HostImage
restored object =
    if object.dirty then restore_commit (take_commit object).0 (take_commit object).1 else object

-- The instance after the store's answer. A plan that cannot be made throws out of `store.commit`
-- too.
unfoldable pub finish : Host → Result ChunkError (Bool × DurableFramStore) → Host
finish host (ok (true, store)) = record host {
  store = store;
  log_image = taken host.log_image;
  snapshot_image = taken host.snapshot_image;
  landed_commits = host.landed_commits + 1;
}
finish host (ok (false, store)) = record host {
  store = store;
  log_image = restored host.log_image;
  snapshot_image = restored host.snapshot_image;
  poisoned = true;
}
finish host (err thrown) = record host {
  log_image = restored host.log_image;
  snapshot_image = restored host.snapshot_image;
  poisoned = true;
}

unfoldable pub is_clean : Host → Bool
is_clean host = not host.log_image.dirty && not host.snapshot_image.dirty

-- `#commit`
unfoldable pub commit : Outcome → Host → Host
commit outcome host =
    let parts = part_of Which.log host.log_image ++ part_of Which.image host.snapshot_image in
    let synced : Host = record host { sync_pending = false } in
    if is_clean host then synced else finish synced (commit_parts outcome parts host.store)
