-- ===== src/Adapter/Instance/Fenced.antt =====
-- adapter.mjs: FramInstance from one serialised turn to the next, and once `#assertUsable` refuses it.
use fram.Prelude.{
  ◌≡◌, ◌≢◌, refl, inl, inr, true, false, Bool, Bool-cases, Option, none, some, List, [], ◌∷◌,
  Result, ok, err,
}
use fram.Text.{Text}
use fram.Adapter.Store.{Outcome}
use fram.Adapter.Instance.{
  Guest, Fence, FramInstance, InstanceError, storage_rejected, is_closed, fenced, assert_open,
  assert_usable, enter, call,
}
use fram.Adapter.Instance.Calls.{serialise-refused}
use fram.Adapter.Instance.Opening.{open_space, close, fence_over, fence_instance, portable_framlog}

-- One turn of an instance, with what the guest and the storage do in it.
pub data Turn : Type 0 where
  calls : Guest → Outcome → Turn
  opens : Text → Guest → Outcome → Turn
  closes : Guest → Outcome → Turn
  exports : Text → Guest → Outcome → Turn
  fences : Fence → Turn

-- How a turn ends: `fence` resolves with the error that the instance has after it.
pub data TurnEnd : Type 0 where
  succeeds : TurnEnd
  throws resolves_with : InstanceError → TurnEnd

abbrev end_of {ℓ} : {A : Type ℓ} → Result InstanceError A → TurnEnd
end_of (ok value) = succeeds
end_of (err thrown) = throws thrown

unfoldable pub take_turn : Turn → FramInstance → TurnEnd × FramInstance
take_turn (calls guest outcome) instance =
    let done = call guest outcome instance in (end_of done.0, done.1)
take_turn (opens space_id guest outcome) instance =
    let done = open_space space_id guest outcome instance in (end_of done.0, done.1)
take_turn (closes guest outcome) instance =
    let done = close guest outcome instance in (end_of done.0, done.1)
take_turn (exports space_id guest outcome) instance =
    let done = portable_framlog space_id guest outcome instance in (end_of done.0, done.1)
take_turn (fences reason) instance =
    let done = fence_instance reason instance in (resolves_with done.0, done.1)

unfoldable pub take_turns : List Turn → FramInstance → List TurnEnd × FramInstance
take_turns [] instance = ([], instance)
take_turns (turn ∷ turns) instance =
    let first = take_turn turn instance in
    let rest = take_turns turns first.1 in (first.0 ∷ rest.0, rest.1)

-- The ends of turns that an error refuses.
abbrev pub refused_end : InstanceError → Turn → TurnEnd
refused_end refusal (fences reason) = resolves_with refusal
refused_end refusal turn = throws refusal

unfoldable pub refused_ends : InstanceError → List Turn → List TurnEnd
refused_ends refusal [] = []
refused_ends refusal (turn ∷ turns) = refused_end refusal turn ∷ refused_ends refusal turns

fence_over_refused :
    (fence : Option Fence) (closed : Bool) (reason : Fence) (instance : FramInstance)
    (thrown : InstanceError)
    → assert_open fence closed ≡ err thrown
    → thrown ≢ is_closed
    → fence_over fence reason instance ≡ (thrown, instance)
fence_over_refused (some earlier) closed reason instance thrown h h' =
    let same : fenced earlier ≡ thrown = cc in rw same refl
fence_over_refused none true reason instance thrown h h' = absurd (h' cc)
fence_over_refused none false reason instance thrown h h' = cc

fence_refused :
    (reason : Fence) (instance : FramInstance) (thrown : InstanceError)
    → assert_usable instance ≡ err thrown
    → thrown ≢ is_closed
    → fence_instance reason instance ≡ (thrown, instance)
unfolding assert_usable fence_instance
fence_refused reason instance thrown h h' = elim (Bool-cases instance.host.poisoned) [
  | inl e ↦
      let u = simp e at h in let same : storage_rejected ≡ thrown = cc in simp e (rw same refl)
  | inr e ↦
      simp e
        (fence_over_refused instance.fence instance.closed reason instance thrown (simp e at h) h')
]

turn_refused :
    (turn : Turn) (instance : FramInstance) (thrown : InstanceError)
    → assert_usable instance ≡ err thrown
    → thrown ≢ is_closed
    → take_turn turn instance ≡ (refused_end thrown turn, instance)
unfolding take_turn call open_space close portable_framlog
turn_refused (calls guest outcome) instance thrown h h' =
    rw (serialise-refused (enter guest outcome) instance thrown h) refl
turn_refused (opens space_id guest outcome) instance thrown h h' =
    rw (serialise-refused _ instance thrown h) refl
turn_refused (closes guest outcome) instance thrown h h' =
    rw (serialise-refused _ instance thrown h) refl
turn_refused (exports space_id guest outcome) instance thrown h h' =
    rw (serialise-refused _ instance thrown h) refl
turn_refused (fences reason) instance thrown h h' =
    rw (fence_refused reason instance thrown h h') refl

-- An instance that `#assertUsable` refuses with an error that is not that of a closed one: every later
-- turn throws that error, but a `fence`, which resolves with it, and the instance is as it was after them.
pub take_turns-refused :
    (turns : List Turn) (instance : FramInstance) (refusal : InstanceError)
    → assert_usable instance ≡ err refusal
    → refusal ≢ is_closed
    → take_turns turns instance ≡ (refused_ends refusal turns, instance)
unfolding take_turns refused_ends
take_turns-refused [] instance refusal h h' = refl
take_turns-refused (turn ∷ turns) instance refusal h h' =
    rw (turn_refused turn instance refusal h h', take_turns-refused turns instance refusal h h')
      refl
