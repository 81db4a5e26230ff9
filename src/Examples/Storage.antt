-- ===== src/Examples/Storage.antt =====
-- Tests of the chunked storage, and the theorems on concrete images.
use fram.Prelude.{
  ℕ, ◌≡◌, refl, inr, true, false, none, some, List, [], ◌∷◌, take, drop, replicate, same_elems,
  arith, Result, ok, ◌>>=◌,
}
use fram.Text.{codes}
use fram.Text.Numeral.{to_radix, to_string, pad_start}
use fram.Adapter.Storage.{Storage, get, put, set_item, delete, delete_item}
use fram.Adapter.Chunks.{
  ChunkedRange, ChunkError, new_range, load, plan, plan_with, apply_to, publish, settle,
  put_batches, delete_batches, batches, batches_from, entries, chunk_writes, chunk_keys, indices,
  total_bytes, chunk_key, meta_key, load_from, load_batches, load_batch, chunk_value, set_bytes,
}
use fram.Adapter.Chunks.Commit.{HoldsChunks}
use fram.Adapter.HostImage.{HostImage, append, truncate, low_of, take_commit}
use fram.Adapter.HostImage.Tracks.{Agrees, clean, behind, Fits, append-Agrees, truncate-Agrees}
use fram.Adapter.Store.{
  new_store, Host, Outcome, commit, is_clean, part_of, finish, taken, commit_parts, stage, run,
  apply_all, settle_all, range_of, set_range,
}
use fram.Adapter.Store.Commit.{IsTracked}
use fram.Adapter.Store.Lands.{Landed, commit-lands}
use fram.Adapter.Store.Rejects.{Rejected, commit-rejects}
use fram.Adapter.Store.Reload.{Loads, load-commit}

-- A range as `load` leaves it on an empty storage, in chunks of two bytes.
abbrev range_named : List ℕ → ChunkedRange
range_named prefix = record {
  prefix = prefix;
  chunk_bytes = 2;
  batch_keys = 2;
  chunk_count = some 0;
  puts = 0;
  gets = 1;
  deletes = 0;
  bytes_written = 0;
  bytes_read = 0;
}

abbrev five_bytes : HostImage
five_bytes = record {
  bytes = 1 ∷ 2 ∷ 3 ∷ 4 ∷ 5 ∷ [];
  capacity = 5;
  size = 5;
  low_water = some 0;
  dirty = true;
  syncs = 0;
}

abbrev no_bytes : HostImage
no_bytes = record { bytes = []; capacity = 0; size = 0; low_water = none; dirty = false; syncs = 0 }

-- An instance on an empty storage whose log has five bytes to publish.
abbrev pub host : Host
host = record {
  store = record {
    storage = [];
    log_range = range_named (codes "framlog/");
    image_range = range_named (codes "framimage/");
    commits = 0;
  };
  log_image = five_bytes;
  snapshot_image = no_bytes;
  sync_pending = true;
  poisoned = false;
  landed_commits = 0;
}

empty-HoldsChunks : (prefix : List ℕ) → HoldsChunks [] (range_named prefix) [] 0
unfolding get
empty-HoldsChunks prefix = record { chunk_at = λ k. ground arith; counted = refl }

pub host-IsTracked : IsTracked host
unfolding get take
host-IsTracked = record {
  log_prefix = refl;
  image_prefix = refl;
  log_tracks = record {
    old = [];
    old_size = 0;
    configured = omega arith;
    held = empty-HoldsChunks (codes "framlog/");
    published = inr (refl, refl);
    long_enough = omega arith;
    fits = (refl, omega arith);
    agrees = behind 0 refl refl (omega arith) (omega arith) refl;
  };
  image_tracks = record {
    old = [];
    old_size = 0;
    configured = omega arith;
    held = empty-HoldsChunks (codes "framimage/");
    published = inr (refl, refl);
    long_enough = omega arith;
    fits = (refl, omega arith);
    agrees = clean refl refl refl refl;
  };
}

commit-lands_example : Landed host (commit Outcome.lands host)
commit-lands_example = commit-lands host host-IsTracked

commit-rejects_example : Rejected host (commit Outcome.rejects host)
unfolding is_clean
commit-rejects_example = commit-rejects host host-IsTracked refl

-- Each range gives the bytes back, the last chunk with the byte that is left.
abbrev reloaded : Storage → Result ChunkError (List ℕ)
reloaded map = load map (new_range (codes "framlog/") 64 100) >>= λ (range, bytes). ok bytes

reload_five : reloaded (commit Outcome.lands host).store.storage ≡ ok (1 ∷ 2 ∷ 3 ∷ 4 ∷ 5 ∷ [])
unfolding commit is_clean part_of finish taken commit_parts stage run apply_all settle_all range_of
    set_range take_commit low_of plan plan_with apply_to publish settle put_batches delete_batches
    batches batches_from entries chunk_writes chunk_keys indices total_bytes chunk_key meta_key get
    put set_item delete delete_item take drop replicate same_elems pad_start to_string to_radix load
    load_from load_batches load_batch chunk_value set_bytes new_range
reload_five = refl

load-commit_example :
    Loads
      (commit Outcome.lands host).store.storage
      (new_store (commit Outcome.lands host).store.storage 4 100).log_range
      (take 5 (1 ∷ 2 ∷ 3 ∷ 4 ∷ 5 ∷ []))
    × Loads
        (commit Outcome.lands host).store.storage
        (new_store (commit Outcome.lands host).store.storage 4 100).image_range
        (take 0 [])
load-commit_example = load-commit host 4 100 host-IsTracked (omega arith)

append-Agrees_example : Fits (append (6 ∷ []) five_bytes) × Agrees (append (6 ∷ []) five_bytes) [] 0
unfolding take
append-Agrees_example =
    append-Agrees (6 ∷ []) five_bytes [] 0 (refl, omega arith)
      (behind 0 refl refl (omega arith) (omega arith) refl)

truncate-Agrees_example : Fits (truncate 3 five_bytes).1 × Agrees (truncate 3 five_bytes).1 [] 0
unfolding take
truncate-Agrees_example =
    truncate-Agrees 3 five_bytes [] 0 (omega arith) (refl, omega arith)
      (behind 0 refl refl (omega arith) (omega arith) refl)
