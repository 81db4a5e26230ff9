-- ===== src/Examples/Objects.antt =====
-- A Durable Object on an empty storage that a request makes write, and the theorems on it.
use fram.Prelude.{
  ◌≡◌, refl, inr, true, false, none, some, [], ◌∷◌, take, drop, replicate, same_elems, arith, ok,
}
use fram.Text.{Text, codes}
use fram.Client.Request.{query}
use fram.Adapter.Storage.{get, put, set_item, delete, delete_item}
use fram.Adapter.Chunks.{
  new_range, load, load_from, meta_key, plan, plan_with, apply_to, publish, settle, put_batches,
  delete_batches, batches, batches_from, entries, chunk_writes, chunk_keys, indices, total_bytes,
  chunk_key, set_bytes,
}
use fram.Text.Numeral.{to_radix, to_string, pad_start}
use fram.Adapter.HostImage.{new_image, append, reserve, double_until, lower, low_of, take_commit}
use fram.Adapter.Store.{
  log, lands, rejects, new_store, commit, is_clean, part_of, finish, taken, commit_parts, stage,
  run, apply_all, settle_all, range_of, set_range,
}
use fram.Adapter.Store.Saved.{Stores}
use fram.Adapter.Instance.{
  Reply, fenced, administrative_fence, restore_fenced, replies, FramInstance, storage_append,
  storage_sync, object_of, set_object, host_call, host_calls, new_instance, assert_usable,
  commit_now, finish_call, enter, serialise, call,
}
use fram.Adapter.Instance.Calls.{Ends}
use fram.Adapter.Instance.Opening.{
  load_object, load_objects, resident, mark_opened, open_loaded, open_space,
}
use fram.Adapter.Instance.Opened.{HoldsBytes, Resident, open_space-Ends}
use fram.Adapter.Object.{
  FramObject, Events, with_live, boot, fram_of, use_instance, use_call, exchange, evict,
}
use fram.Adapter.Object.Sound.{IsSound}
use fram.Adapter.Object.Life.{here, then_step, exchanges, is_evicted, Reach-IsSound}
use fram.Adapter.Object.Served.{IsServed, exchange-IsServed}
use fram.Adapter.Instance.Fenced.{
  calls, closes, fences, take_turns, take_turns-refused, throws, resolves_with, refused_ends,
}
use fram.Examples.Storage.{host}
use fram.Examples.Requests.{version_frame, authorize_version}

empty-Stores : (prefix : Text) → Stores [] prefix []
unfolding get take
empty-Stores prefix = record {
  range = record {
    prefix = prefix;
    chunk_bytes = 2;
    batch_keys = 2;
    chunk_count = some 0;
    puts = 0;
    gets = 0;
    deletes = 0;
    bytes_written = 0;
    bytes_read = 0;
  };
  raw = [];
  size = 0;
  at_prefix = refl;
  configured = omega arith;
  held = record { chunk_at = λ k. ground arith; counted = refl };
  published = inr (refl, refl);
  long_enough = omega arith;
  content = refl;
}

empty_holds : HoldsBytes [] [] []
empty_holds = record {
  log_stored = empty-Stores (codes "framlog/");
  image_stored = empty-Stores (codes "framimage/");
}

abbrev pub empty_object : FramObject
empty_object = record {
  space_id = codes "s";
  chunk_bytes = 2;
  batch_keys = 2;
  storage = [];
  pending = none;
  live = none;
  administrative_fence = none;
}

pub empty_object-IsSound : IsSound empty_object
empty_object-IsSound = record {
  positive_chunk = omega arith;
  positive_batch = omega arith;
  whole = ([], [], empty_holds);
  live_sound = tt;
}

abbrev pub done_reply : Reply
done_reply = record { status = 0; message = []; response = 7 ∷ []; released = true }

-- A guest that writes a byte of the log in its boot, and two in its call.
abbrev pub writes_log : Events
writes_log = record {
  boot_guest = record {
    calls = storage_append log (1 ∷ []) ∷ storage_sync log ∷ [];
    ending = replies done_reply;
  };
  boot_outcome = lands;
  guest = record {
    calls = storage_append log (2 ∷ 3 ∷ []) ∷ storage_sync log ∷ [];
    ending = replies done_reply;
  };
  outcome = lands;
}

open_space-Ends_example :
    let instance = new_instance (new_store [] 2 2) in
    let done = open_space (codes "s") writes_log.boot_guest rejects instance in
    (r : Resident [] 2 2 [] []) × Ends writes_log.boot_guest
      (resident r.store [] [] instance)
      done.0
      done.1
    × (done.1.loaded ≡ true)
open_space-Ends_example =
    open_space-Ends [] 2 2 [] [] (codes "s") writes_log.boot_guest rejects (omega arith)
      (omega arith) empty_holds

Reach-IsSound_example :
    IsSound
      (evict (exchange (version_frame (codes "s")) query (codes "s") writes_log empty_object).1)
Reach-IsSound_example =
    Reach-IsSound empty_object
      (evict (exchange (version_frame (codes "s")) query (codes "s") writes_log empty_object).1)
      empty_object-IsSound
      (then_step (exchanges (version_frame (codes "s")) query (codes "s") writes_log)
        (then_step is_evicted here))

exchange_writes :
    exchange (version_frame (codes "s")) query (codes "s") writes_log empty_object
    ≡ (ok (7 ∷ []), (use_call writes_log empty_object).1)
unfolding exchange use_call use_instance fram_of boot open_space new_store new_instance new_image
    load_objects load_object load load_from range_of set_range new_range serialise assert_usable
    open_loaded resident mark_opened finish_call commit_now host_calls host_call object_of
    set_object append reserve double_until lower commit is_clean part_of finish taken commit_parts
    stage run apply_all settle_all take_commit low_of plan plan_with apply_to publish settle
    put_batches delete_batches batches batches_from entries chunk_writes chunk_keys indices
    total_bytes chunk_key meta_key get put set_item delete delete_item take drop replicate
    same_elems pad_start to_string to_radix set_bytes with_live call enter
exchange_writes = rw authorize_version refl

exchange-IsServed_example :
    IsServed empty_object
      (use_call writes_log empty_object).1
      (version_frame (codes "s"))
      (7 ∷ [])
      query
      (codes "s")
      writes_log
exchange-IsServed_example =
    exchange-IsServed empty_object (use_call writes_log empty_object).1 (version_frame (codes "s"))
      (7 ∷ []) query (codes "s") writes_log empty_object-IsSound exchange_writes

-- An instance whose log has five bytes to publish.
abbrev running : FramInstance
running = record {
  host = host;
  loaded = true;
  opened = true;
  closed = false;
  space_id = some (codes "s");
  fence = none;
}

abbrev fenced_instance : FramInstance
fenced_instance = record running { fence = some administrative_fence }

take_turns-refused_example :
    take_turns
      (calls writes_log.guest lands ∷ closes writes_log.guest lands ∷ fences restore_fenced ∷ [])
      fenced_instance
    ≡ (
      throws (fenced administrative_fence)
          ∷ throws (fenced administrative_fence)
          ∷ resolves_with (fenced administrative_fence)
          ∷ [],
      fenced_instance,
    )
unfolding assert_usable refused_ends
take_turns-refused_example =
    take_turns-refused
      (calls writes_log.guest lands ∷ closes writes_log.guest lands ∷ fences restore_fenced ∷ [])
      fenced_instance (fenced administrative_fence) refl (λ h. cc)
