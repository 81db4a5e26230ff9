-- ===== src/Adapter/Object/Served.antt =====
-- adapter.mjs: an answer of `exchange`, and the storage behind it.
use fram.Prelude.{
  ℕ, List, ◌≡◌, refl, sym, ap, ◌∙◌, true, some, ◌==◌, leb, length, Result, ok, err, require,
  >>=-eq-ok, ok-injective, require-eq-ok, inl, inr,
}
use fram.Text.{Text}
use fram.Client.Request.{Entry}
use fram.Adapter.Requests.{Request, Inspected, authorize, framrpc_max_frame_bytes}
use fram.Adapter.Store.{Outcome}
use fram.Adapter.Instance.{Guest, replies, Reply, FramInstance, InstanceError, call}
use fram.Adapter.Instance.Calls.{bytes_of, Ends, call-Ends}
use fram.Adapter.Instance.Opened.{HoldsBytes, Resident, load_objects-Resident, IsDurable-HoldsBytes}
use fram.Adapter.Object.{
  FramObject, ObjectError, exchange_failed, Events, with_live, used, use_booted, use_instance,
  use_call, answered, exchanged, exchange,
}
use fram.Adapter.Object.Sound.{IsLive, IsSound, IsReady, fram_of-IsReady, stale-refused}
use fram.Adapter.Object.Life.{use_call-IsSound, call-refused}

-- A call that the object answered: the guest that it keeps, and the storage with the bytes of its
-- images.
pub record IsAnswered (guest : Guest) (after : FramObject) (reply : Reply) : Type 0 where
  pub instance : FramInstance
  pub is_kept : after.live ≡ some instance
  pub replied : guest.ending ≡ replies reply
  pub stored :
      HoldsBytes after.storage
        (bytes_of instance.host.log_image)
        (bytes_of instance.host.snapshot_image)

used-IsAnswered :
    (guest : Guest) (before : FramInstance) (object : FramObject)
    (result : Result InstanceError Reply) (after : FramInstance) (reply : Reply)
    → IsLive object.storage before
    → Ends guest before result after
    → (used (result, after) object).0 ≡ ok reply
    → IsAnswered guest (used (result, after) object).1 reply
unfolding with_live
used-IsAnswered guest before object (err thrown) after reply live ends h = cc
used-IsAnswered guest before object (ok given) after reply live ends h =
    let same : given ≡ reply = ok-injective h in
    record {
      instance = after;
      is_kept = refl;
      replied = ends.replied ∙ ap replies same;
      stored = IsDurable-HoldsBytes guest before after given live.tracked ends;
    }

use_booted-IsAnswered :
    (guest : Guest) (outcome : Outcome) (ready : Result ObjectError FramInstance)
    (object : FramObject) (reply : Reply)
    → IsReady ready object
    → (use_booted (call guest outcome) (ready, object)).0 ≡ ok reply
    → IsAnswered guest (use_booted (call guest outcome) (ready, object)).1 reply
use_booted-IsAnswered guest outcome (err thrown) object reply sound h = cc
use_booted-IsAnswered guest outcome (ok instance) object reply (sound, inr stale) h =
    let (thrown, refused) = stale-refused instance stale.poisoned in
    let h' = rw (call-refused guest outcome instance thrown refused) at h in cc
use_booted-IsAnswered guest outcome (ok instance) object reply (sound, inl live) h =
    used-IsAnswered guest instance object _ _ reply live
      (call-Ends guest outcome instance live.loaded live.tracked) h

use_call-IsAnswered :
    (events : Events) (object : FramObject) (reply : Reply)
    → IsSound object
    → (use_call events object).0 ≡ ok reply
    → IsAnswered events.guest (use_call events object).1 reply
unfolding use_call use_instance
use_call-IsAnswered events object reply sound h =
    use_booted-IsAnswered events.guest events.outcome _ _ reply
      (fram_of-IsReady events.boot_guest events.boot_outcome object sound) h

-- What `exchange` checked of the guest's reply.
record IsChecked (reply : Reply) (response : List ℕ) : Type 0 where
  no_failure : (reply.status == 0) ≡ true
  bounded : leb (length reply.response) framrpc_max_frame_bytes ≡ true
  is_released : reply.released ≡ true
  is_response : reply.response ≡ response

answered-IsChecked :
    (result : Result ObjectError Reply) (response : List ℕ)
    → answered result ≡ ok response
    → (reply : Reply) × (result ≡ ok reply) × IsChecked reply response
answered-IsChecked (err thrown) response h = cc
answered-IsChecked (ok reply) response h =
    let (u, first, h1) =
      >>=-eq-ok (require (reply.status == 0) (exchange_failed reply.status)) _ h in
    let (u', second, h2) =
      >>=-eq-ok
        (require (leb (length reply.response) framrpc_max_frame_bytes)
          (exchange_failed reply.status))
        _ h1 in
    let (u'', third, h3) = >>=-eq-ok (require reply.released (exchange_failed reply.status)) _ h2 in
    (
      reply,
      refl,
      record {
        no_failure = require-eq-ok (reply.status == 0) _ first;
        bounded = require-eq-ok (leb (length reply.response) framrpc_max_frame_bytes) _ second;
        is_released = require-eq-ok reply.released _ third;
        is_response = ok-injective h3;
      },
    )

-- What an answer of `exchange` promises.
pub record IsServed (object after : FramObject) (frame response : List ℕ) (entry : Entry)
    (space : Text) (events : Events) : Type 0 where
  pub request : Request
  pub authorized : authorize object.space_id frame entry space ≡ ok request
  pub reply : Reply
  pub answered_by : IsAnswered events.guest after reply
  pub is_response : reply.response ≡ response
  pub bounded : leb (length response) framrpc_max_frame_bytes ≡ true
  -- what a boot after an eviction of the isolate loads
  pub reloads :
      Resident after.storage after.chunk_bytes after.batch_keys
        (bytes_of answered_by.instance.host.log_image)
        (bytes_of answered_by.instance.host.snapshot_image)

exchanged-ok :
    (request : Inspected Request) (done : Result ObjectError Reply × FramObject)
    (object after : FramObject) (response : List ℕ)
    → exchanged request done object ≡ (ok response, after)
    → (r : Request) × (request ≡ ok r) × (answered done.0 ≡ ok response) × (done.1 ≡ after)
exchanged-ok (err code) done object after response h =
    let e = ap (λ (p : Result ObjectError (List ℕ) × FramObject). p.0) h in cc
exchanged-ok (ok request) done object after response h = (
  request,
  refl,
  ap (λ (p : Result ObjectError (List ℕ) × FramObject). p.0) h,
  ap (λ (p : Result ObjectError (List ℕ) × FramObject). p.1) h,
)

-- An answer of `exchange` from a sound object: the frame was let through, the guest gave the response,
-- and by then the storage holds the bytes of the images of the instance that the object keeps, which
-- a boot after an eviction loads again.
pub exchange-IsServed :
    (object after : FramObject) (frame response : List ℕ) (entry : Entry) (space : Text)
    (events : Events)
    → IsSound object
    → exchange frame entry space events object ≡ (ok response, after)
    → IsServed object after frame response entry space events
unfolding exchange
exchange-IsServed object after frame response entry space events sound h =
    let (request, let_through, given, ends) =
      exchanged-ok (authorize object.space_id frame entry space) (use_call events object) object
        after response h in
    let (reply, replied, checked) = answered-IsChecked (use_call events object).0 response given in
    let done = use_call-IsAnswered events object reply sound replied in
    let kept = use_call-IsSound events object sound in
    let done' : IsAnswered events.guest after reply = rw (sym ends) done in
    let kept' : IsSound after = rw (sym ends) kept in
    record {
      request = request;
      authorized = let_through;
      reply = reply;
      answered_by = done';
      is_response = checked.is_response;
      bounded = rw (sym checked.is_response) checked.bounded;
      reloads =
          load_objects-Resident after.storage after.chunk_bytes after.batch_keys
            kept'.positive_chunk kept'.positive_batch _ _ done'.stored;
    }
