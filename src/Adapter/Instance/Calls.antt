-- ===== src/Adapter/Instance/Calls.antt =====
-- adapter.mjs: a call of FramInstance, and the storage after it.
use fram.Prelude.{
  ℕ, List, take, ◌≡◌, ◌⊎◌, refl, ap, ◌∙◌, inl, inr, Bool, true, false, Bool-cases, Result, ok, err,
}
use fram.Adapter.Chunks.{ChunkError}
use fram.Adapter.HostImage.{HostImage, take_commit, restore_commit}
use fram.Adapter.Store.{DurableFramStore, Outcome, Host, commit, finish, taken, restored, is_clean}
use fram.Adapter.Store.Commit.{HoldsImage, IsTracked}
use fram.Adapter.Store.Lands.{Landed, commit-lands}
use fram.Adapter.Store.Rejects.{commit-rejects}
use fram.Adapter.Instance.{
  Guest, Ending, replies, traps, Reply, FramInstance, InstanceError, guest_failed, host_calls,
  assert_usable, commit_now, finish_call, enter, serialise, call,
}
use fram.Adapter.Instance.Hooks.{host_calls-Ran, host_calls-IsTracked}

-- A clean host is committed alike, whatever the store would answer.
commit_clean :
    (host : Host) → is_clean host ≡ true → commit Outcome.rejects host ≡ commit Outcome.lands host
unfolding commit
commit_clean host h = rw h refl

-- A commit that leaves the instance unfenced has landed.
pub commit-Landed :
    (outcome : Outcome) (host : Host)
    → IsTracked host
    → (commit outcome host).poisoned ≡ false
    → Landed host (commit outcome host)
commit-Landed Outcome.lands host tracked h = commit-lands host tracked
commit-Landed Outcome.rejects host tracked h = elim (Bool-cases (is_clean host)) [
  | inl e ↦ rw (commit_clean host e) (commit-lands host tracked)
  | inr e ↦ let r = commit-rejects host tracked e in let fenced = r.fenced in cc
]

-- One that fences it has left the storage as it was.
pub commit-fenced :
    (outcome : Outcome) (host : Host)
    → IsTracked host
    → host.poisoned ≡ false
    → (commit outcome host).poisoned ≡ true
    → (commit outcome host).store.storage ≡ host.store.storage
commit-fenced Outcome.lands host tracked alive h =
    let landed = commit-lands host tracked in let same = landed.alive in cc
commit-fenced Outcome.rejects host tracked alive h = elim (Bool-cases (is_clean host)) [
  | inl e ↦ unfold commit in rw e refl
  | inr e ↦ (commit-rejects host tracked e).storage_kept
]

-- The bytes of an image, without the rest of its buffer.
abbrev pub bytes_of : HostImage → List ℕ
bytes_of object = take object.size object.bytes

taken-bytes_of : (object : HostImage) → bytes_of (taken object) ≡ bytes_of object
unfolding taken take_commit
taken-bytes_of object = elim (Bool-cases object.dirty) [ inl e ↦ simp e refl | inr e ↦ simp e refl ]

restored-bytes_of : (object : HostImage) → bytes_of (restored object) ≡ bytes_of object
unfolding restored take_commit restore_commit
restored-bytes_of object = elim (Bool-cases object.dirty) [
  | inl e ↦ simp e refl
  | inr e ↦ simp e refl
]

finish-bytes_of :
    (host : Host) (result : Result ChunkError (Bool × DurableFramStore))
    → (bytes_of (finish host result).log_image ≡ bytes_of host.log_image)
      × (bytes_of (finish host result).snapshot_image ≡ bytes_of host.snapshot_image)
unfolding finish
finish-bytes_of host (ok (true, store)) =
    (taken-bytes_of host.log_image, taken-bytes_of host.snapshot_image)
finish-bytes_of host (ok (false, store)) =
    (restored-bytes_of host.log_image, restored-bytes_of host.snapshot_image)
finish-bytes_of host (err thrown) =
    (restored-bytes_of host.log_image, restored-bytes_of host.snapshot_image)

-- A commit keeps the bytes of both images.
commit-bytes_of :
    (outcome : Outcome) (host : Host)
    → (bytes_of (commit outcome host).log_image ≡ bytes_of host.log_image)
      × (bytes_of (commit outcome host).snapshot_image ≡ bytes_of host.snapshot_image)
unfolding commit
commit-bytes_of outcome host = elim (Bool-cases (is_clean host)) [
  | inl e ↦ rw e (refl, refl)
  | inr e ↦ rw e (finish-bytes_of (record host { sync_pending = false }) _)
]

-- What a call that is answered leaves: the storage holds what the guest wrote, the instance goes on.
pub record IsDurable (guest : Guest) (before after : FramInstance) (reply : Reply) : Type 0 where
  pub replied : guest.ending ≡ replies reply
  pub log_stored :
      HoldsImage after.host.store.storage after.host.store.log_range
        (host_calls guest.calls before.host).log_image
  pub image_stored :
      HoldsImage after.host.store.storage after.host.store.image_range
        (host_calls guest.calls before.host).snapshot_image
  pub log_kept :
      bytes_of after.host.log_image ≡ bytes_of (host_calls guest.calls before.host).log_image
  pub image_kept :
      bytes_of after.host.snapshot_image
      ≡ bytes_of (host_calls guest.calls before.host).snapshot_image
  pub tracked : IsTracked after.host
  pub usable : assert_usable after ≡ ok tt

-- What a call that throws leaves: the storage as it was, and either the instance goes on after the
-- guest failed, or it throws the same error from now on, since the commit was rejected or since it
-- did before.
pub record IsRefused (before after : FramInstance) (thrown : InstanceError) : Type 0 where
  pub storage_kept : after.host.store.storage ≡ before.host.store.storage
  pub goes_on_or_not :
      ((thrown ≡ guest_failed) × IsTracked after.host × (assert_usable after ≡ ok tt))
      ⊎ ((assert_usable after ≡ err thrown) × ((after.host.poisoned ≡ true) ⊎ (after ≡ before)))

-- The two ends of a call.
abbrev pub Ends : Guest → FramInstance → Result InstanceError Reply → FramInstance → Type 0
Ends guest before (ok reply) after = IsDurable guest before after reply
Ends guest before (err thrown) after = IsRefused before after thrown

usable_host :
    (instance : FramInstance) (host : Host)
    → host.poisoned ≡ false
    → assert_usable instance ≡ ok tt
    → assert_usable (record instance { host = host }) ≡ ok tt
unfolding assert_usable
usable_host instance host alive usable = elim (Bool-cases instance.host.poisoned) [
  | inl e ↦ let u = rw e at usable in cc
  | inr e ↦ rw alive (rw e at usable)
]

pub usable_alive :
    (instance : FramInstance) → assert_usable instance ≡ ok tt → instance.host.poisoned ≡ false
unfolding assert_usable
usable_alive instance usable = elim (Bool-cases instance.host.poisoned) [
  | inl e ↦ let u = rw e at usable in cc
  | inr e ↦ e
]

pub usable_cases :
    (instance : FramInstance)
    → (assert_usable instance ≡ ok tt)
      ⊎ ((thrown : InstanceError) × (assert_usable instance ≡ err thrown))
usable_cases instance =
    elim (assert_usable instance)
        as (λ r.
          (assert_usable instance ≡ r)
          → (assert_usable instance ≡ ok tt)
            ⊎ ((thrown : InstanceError) × (assert_usable instance ≡ err thrown))) [
              | ok u ↦ λ e. inl e
              | err thrown ↦ λ e. inr (thrown, e)
            ]
      refl

-- The end of a guest's call, on the instance that its host calls left.
pub finish_call-Ends :
    (guest : Guest) (outcome : Outcome) (before : FramInstance)
    → IsTracked before.host
    → assert_usable before ≡ ok tt
    → (ending : Ending) → guest.ending ≡ ending
    → let ran : FramInstance = record before { host = host_calls guest.calls before.host } in
      let done = finish_call ending outcome ran in Ends guest before done.0 done.1
unfolding finish_call commit_now
finish_call-Ends guest outcome before tracked usable traps ends =
    let r = host_calls-Ran guest.calls before.host in
    let alive = r.poison_kept ∙ usable_alive before usable in
    record {
      storage_kept = ap (λ (s : DurableFramStore). s.storage) r.store_kept;
      goes_on_or_not = inl (
        refl,
        host_calls-IsTracked guest.calls before.host tracked,
        usable_host before _ alive usable,
      );
    }
finish_call-Ends guest outcome before tracked usable (replies reply) ends =
    let r = host_calls-Ran guest.calls before.host in
    let ran = host_calls guest.calls before.host in
    let ran_tracked = host_calls-IsTracked guest.calls before.host tracked in
    let alive = r.poison_kept ∙ usable_alive before usable in
    elim (Bool-cases (commit outcome ran).poisoned) [
      | inl e ↦ simp e (record {
        storage_kept =
            commit-fenced outcome ran ran_tracked alive e
            ∙ ap (λ (s : DurableFramStore). s.storage) r.store_kept;
        goes_on_or_not = inr (unfold assert_usable in rw e refl, inl e);
      })
      | inr e ↦
          let landed = commit-Landed outcome ran ran_tracked e in
          simp e (record {
            replied = ends;
            log_stored = landed.log_holds;
            image_stored = landed.image_holds;
            log_kept = (commit-bytes_of outcome ran).0;
            image_kept = (commit-bytes_of outcome ran).1;
            tracked = landed.tracked;
            usable = usable_host before _ e usable;
          })
    ]

-- A turn of a usable instance, and of one that is not.
pub serialise-usable {ℓ} :
    {A : Type ℓ} (body : FramInstance → Result InstanceError A × FramInstance)
    (instance : FramInstance)
    → assert_usable instance ≡ ok tt
    → serialise body instance ≡ body instance
unfolding serialise
serialise-usable body instance usable = rw usable refl

pub serialise-refused {ℓ} :
    {A : Type ℓ} (body : FramInstance → Result InstanceError A × FramInstance)
    (instance : FramInstance) (thrown : InstanceError)
    → assert_usable instance ≡ err thrown
    → serialise body instance ≡ (err thrown, instance)
unfolding serialise
serialise-refused body instance thrown refused = rw refused refl

pub enter-loaded :
    (guest : Guest) (outcome : Outcome) (instance : FramInstance)
    → instance.loaded ≡ true
    → enter guest outcome instance
      ≡ finish_call guest.ending outcome
          (record instance { host = host_calls guest.calls instance.host })
unfolding enter
enter-loaded guest outcome instance loaded = rw loaded refl

-- A call keeps the objects resident.
pub finish_call-loaded :
    (ending : Ending) (outcome : Outcome) (instance : FramInstance)
    → (finish_call ending outcome instance).1.loaded ≡ instance.loaded
unfolding finish_call commit_now
finish_call-loaded traps outcome instance = refl
finish_call-loaded (replies reply) outcome instance =
    elim (Bool-cases (commit outcome instance.host).poisoned) [
      | inl e ↦ simp e refl
      | inr e ↦ simp e refl
    ]

pub call-loaded :
    (guest : Guest) (outcome : Outcome) (instance : FramInstance)
    → instance.loaded ≡ true
    → assert_usable instance ≡ ok tt
    → (call guest outcome instance).1.loaded ≡ true
unfolding call
call-loaded guest outcome instance loaded usable =
    rw
      (
        serialise-usable (enter guest outcome) instance usable,
        enter-loaded guest outcome instance loaded,
      )
      (finish_call-loaded guest.ending outcome _ ∙ loaded)

pub call-Ends :
    (guest : Guest) (outcome : Outcome) (before : FramInstance)
    → before.loaded ≡ true
    → IsTracked before.host
    → let done = call guest outcome before in Ends guest before done.0 done.1
unfolding call
call-Ends guest outcome before loaded tracked = elim (usable_cases before) [
  | inl usable ↦
      rw
        (
          serialise-usable (enter guest outcome) before usable,
          enter-loaded guest outcome before loaded,
        )
        (finish_call-Ends guest outcome before tracked usable guest.ending refl)
  | inr (thrown, refused) ↦
      rw (serialise-refused (enter guest outcome) before thrown refused)
        (record { storage_kept = refl; goes_on_or_not = inr (refused, inr refl) })
]
