-- ===== src/Adapter/Clear/Cleared.antt =====
-- adapter.mjs: the storage after the plan of `clearPlan` was applied.
use fram.Prelude.{
  ◌<◌, ◌≡◌, refl, inl, inr, true, false, none, List, [], ◌∷◌, if◌then◌else◌, same_elems, has,
  Bool-cases, arith, ap, ◌∙◌, ok, &&-eq-true,
}
use fram.Text.{Text}
use fram.Adapter.Storage.{Storage, get, delete, put, get-delete_item}
use fram.Adapter.Chunks.{ChunkedRange, Plan, apply_to, publish, put_batches, batches, entries}
use fram.Adapter.Chunks.Effects.{put_batches-batches, delete_batches-batches}
use fram.Adapter.Inspect.{has-All}
use fram.Adapter.Clear.{starts_with, is_range_key, clear_plan}
use fram.Adapter.Clear.Pages.{keys_of}
use fram.Adapter.Clear.Complete.{clear_plan-IsClearing}

pub get-delete :
    (keys : List Text) (j : Text) (map : Storage)
    → get j (delete keys map) ≡ (if has keys j then none else get j map)
unfolding delete has
get-delete [] j map = refl
get-delete (key ∷ keys) j map = get-delete keys j _ ∙ rw (get-delete_item key j map) (ground arith)

pub get-absent : (map : Storage) (j : Text) → has (keys_of map) j ≡ false → get j map ≡ none
unfolding get keys_of has
get-absent [] j h = refl
get-absent ((key, item) ∷ map) j h = elim (Bool-cases (same_elems key j)) [
  | inl e ↦ let there = rw e at h in cc
  | inr e ↦ rw e (get-absent map j (rw e at h))
]

-- Applying a plan without writes and without a `meta` deletes its stale keys.
pub apply_to-clearing :
    (range : ChunkedRange) (map : Storage) (plan : Plan)
    → 0 < range.batch_keys
    → plan.writes ≡ []
    → plan.publish_meta ≡ false
    → (apply_to plan (range, map)).1 ≡ delete plan.stale map
unfolding apply_to publish
apply_to-clearing range map plan positive none_written no_meta =
    let written = put_batches (batches range.batch_keys plan.writes) (range, map) in
    rw no_meta (
      delete_batches-batches range.batch_keys plan.stale written.0 written.1 positive
      ∙ ap (delete plan.stale) (
          put_batches-batches range.batch_keys plan.writes range map positive
          ∙ rw none_written (unfold entries put in refl)))

pub range_key-starts_with :
    (prefix key : Text) → is_range_key prefix key ≡ true → starts_with prefix key ≡ true
unfolding is_range_key
range_key-starts_with prefix key h = (&&-eq-true (starts_with prefix key) _ h).0

-- The plan that `clearPlan` makes of a range, once it is applied, has deleted every key under the
-- range's prefix, and has left every other key as it was.
pub clear_plan-clears :
    (range : ChunkedRange) (map : Storage) (plan : Plan) (key : Text)
    → 0 < range.batch_keys
    → clear_plan range map ≡ ok plan
    → get key (apply_to plan (range, map)).1
      ≡ (if starts_with range.prefix key then none else get key map)
clear_plan-clears range map plan key positive h =
    let c = clear_plan-IsClearing range map plan positive h in
    ap (get key) (apply_to-clearing range map plan positive c.no_writes c.no_meta)
    ∙ get-delete plan.stale key map
    ∙ elim (Bool-cases (starts_with range.prefix key)) [
      | inl e ↦ rw e (elim (Bool-cases (has (keys_of map) key)) [
        | inl there ↦ rw (c.complete key (rw (there, e) refl)) refl
        | inr absent ↦ rw (get-absent map key absent) (ground arith)
      ])
      | inr e ↦ rw e (elim (Bool-cases (has plan.stale key)) [
        | inl stale ↦
            let found = range_key-starts_with range.prefix key (
              has-All (λ key. is_range_key range.prefix key ≡ true) plan.stale key c.only_range_keys
                stale) in
            cc
        | inr kept ↦ rw kept refl
      ])
    ]
