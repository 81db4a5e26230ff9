-- ===== src/Adapter/Instance/Answers.antt =====
-- adapter.mjs: FramInstance, a guest that only reads and answers.
use fram.Prelude.{ℕ, ◌≡◌, refl, true, some, List, [], ◌==◌, ok}
use fram.Text.{Text}
use fram.Adapter.HostImage.{new_image}
use fram.Adapter.Store.{DurableFramStore, Outcome, commit, is_clean}
use fram.Adapter.Store.Replace.{take-all}
use fram.Adapter.Status.{status_frame, decode_status_served_version}
use fram.Adapter.Instance.{
  Guest, Reply, replies, FramInstance, new_instance, host_calls, assert_usable, serialise, enter,
  finish_call, commit_now,
}
use fram.Adapter.Instance.Opening.{
  load_objects, resident, mark_opened, open_loaded, open_space, log_bytes, portable_framlog,
}

-- A guest that answers from what it has read, and writes nothing.
abbrev pub answers : Reply → Guest
answers reply = record { calls = []; ending = replies reply }

-- An instance that such a guest opened, over the objects that were loaded.
abbrev pub opened_over : Text → DurableFramStore → List ℕ → List ℕ → FramInstance → FramInstance
opened_over space store log image before = record (resident store log image before) {
  space_id = some space;
  opened = true;
}

pub open_space-answers :
    (space : Text) (reply : Reply) (outcome : Outcome) (start store : DurableFramStore)
    (log image : List ℕ)
    → load_objects start ≡ ok (store, (log, image))
    → (reply.status == 0) ≡ true
    → open_space space (answers reply) outcome (new_instance start)
      ≡ (ok reply, opened_over space store log image (new_instance start))
unfolding open_space serialise assert_usable new_instance open_loaded resident mark_opened
    finish_call commit_now commit is_clean host_calls new_image
open_space-answers space reply outcome start store log image loads succeeds =
    simp (loads, succeeds) refl

pub portable_framlog-answers :
    (space : Text) (reply : Reply) (outcome : Outcome) (start store : DurableFramStore)
    (log image frame : List ℕ) (version : Text)
    → status_frame space ≡ ok frame
    → (reply.status == 0) ≡ true
    → decode_status_served_version reply.response space ≡ ok version
    → portable_framlog space
        (answers reply)
        outcome
        (opened_over space store log image (new_instance start))
      ≡ (ok (log, version), opened_over space store log image (new_instance start))
unfolding portable_framlog serialise assert_usable new_instance resident enter finish_call
    commit_now commit is_clean host_calls new_image log_bytes
portable_framlog-answers space reply outcome start store log image frame version asks succeeds
      decodes =
    simp (asks, succeeds, decodes, take-all log) refl
