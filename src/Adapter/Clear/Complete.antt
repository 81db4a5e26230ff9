-- ===== src/Adapter/Clear/Complete.antt =====
-- adapter.mjs: `clearPlan` finds every key of the range, and no other.
use fram.Prelude.{
  ℕ, zero, suc, ◌≤◌, ◌<◌, ◌≡◌, inl, inr, refl, true, false, ◌&&◌, ◌||◌, Option, none, some, List,
  [], ◌∷◌, ◌++◌, ltb, not_ltb→le, has, length, take, All, All-append, Bool-cases, arith, sym, ◌∙◌,
  ok, require, >>=-eq-ok, require-eq-ok, map-eq-ok, ok-injective, &&-eq-true,
}
use fram.Text.{Text}
use fram.Adapter.Storage.{Storage}
use fram.Adapter.Chunks.{ChunkedRange, Plan}
use fram.Adapter.Clear.{
  unrecognised, did_not_advance, starts_with, is_after, sort, listed_keys, list, is_range_key,
  check_keys, last_of, stale_from, clear_plan,
}
use fram.Adapter.Clear.Sorting.{has-sort, last_of-has}
use fram.Adapter.Clear.Pages.{keys_of, has-listed_keys, listed_keys-lt, last_page, full_page}

has-take : (n : ℕ) (keys : List Text) (b : Text) → has (take n keys) b ≡ true → has keys b ≡ true
unfolding has take
has-take zero keys b h = cc
has-take (suc n) [] b h = cc
has-take (suc n) (k ∷ keys) b h = ground (arith, has-take n keys b)

pub has-append : (xs ys : List Text) (x : Text) → has (xs ++ ys) x ≡ (has xs x || has ys x)
unfolding has
has-append [] ys x = refl
has-append (k ∷ xs) ys x = ground (arith, has-append xs ys x)

filled_last :
    (start : Option Text) (keys : List Text)
    → 0 < length keys
    → (b : Text) × (last_of start keys ≡ some b) × (has keys b ≡ true)
filled_last start [] h = absurd (omega arith)
filled_last start (key ∷ keys) h = last_of-has start key keys

-- What is known of a key that `list` lists.
listed-facts :
    (prefix : Text) (start : Option Text) (map : Storage) (x : Text)
    → has (listed_keys prefix start map) x ≡ true
    → (has (keys_of map) x ≡ true) × (starts_with prefix x ≡ true) × (is_after start x ≡ true)
listed-facts prefix start map x h =
    let all = sym (has-listed_keys prefix start map x) ∙ h in
    let (there, rest) =
      &&-eq-true (has (keys_of map) x) (starts_with prefix x && is_after start x) all in
    let (prefixed, behind) = &&-eq-true (starts_with prefix x) (is_after start x) rest in
    (there, prefixed, behind)

stale_from_complete :
    (fuel : ℕ) (range : ChunkedRange) (map : Storage) (start : Option Text) (stale : List Text)
    (x : Text)
    → 0 < range.batch_keys
    → length (listed_keys range.prefix start map) < fuel
    → stale_from fuel range map start ≡ ok stale
    → has (listed_keys range.prefix start map) x ≡ true
    → has stale x ≡ true
unfolding stale_from
stale_from_complete zero range map start stale x positive enough h hx = absurd (omega arith)
stale_from_complete (suc fuel) range map start stale x positive enough h hx =
    let keys = sort (list range.prefix start range.batch_keys map) in
    let (u, checked, rest) = >>=-eq-ok (check_keys range.prefix start keys) _ h in
    elim (Bool-cases (ltb (length keys) range.batch_keys)) [
      | inl short ↦
          let same = ok-injective (rw short at rest) in
          rw (← same) (last_page range.prefix start range.batch_keys map x short hx)
      | inr full ↦
          let (others, others_eq, same) =
            map-eq-ok (stale_from fuel range map (last_of start keys))
              (λ (r : List Text). keys ++ r) stale (rw full at rest) in
          rw (same, has-append keys others x)
            (elim (Bool-cases (has keys x)) [
              | inl e ↦ rw e refl
              | inr e ↦
                  let size = not_ltb→le (length keys) range.batch_keys full in
                  let (b, last, on_page) = filled_last start keys (omega arith) in
                  let listed =
                    sym (has-sort (listed_keys range.prefix start map) b)
                    ∙ has-take range.batch_keys (sort (listed_keys range.prefix start map)) b (
                        unfold list in
                        sym (has-sort (list range.prefix start range.batch_keys map) b)
                        ∙ on_page) in
                  let (there, prefixed, behind) = listed-facts range.prefix start map b listed in
                  let (x_there, x_prefixed, x_behind) = listed-facts range.prefix start map x hx in
                  let above = full_page range.prefix start range.batch_keys map x b hx e on_page in
                  let fewer = listed_keys-lt range.prefix start b map behind prefixed there in
                  let x_listed : has (listed_keys range.prefix (some b) map) x ≡ true =
                    has-listed_keys range.prefix (some b) map x
                    ∙ rw (x_there, x_prefixed, above) refl in
                  rw e (
                    stale_from_complete fuel range map (some b) others x positive (omega arith)
                      (rw last at others_eq) x_listed)
            ])
    ]

-- Every key that was checked is one of the range.
check_keys-All :
    (prefix : Text) (start : Option Text) (keys : List Text) (u : Unit {0})
    → check_keys prefix start keys ≡ ok u
    → All (λ key. is_range_key prefix key ≡ true) keys
unfolding check_keys
check_keys-All prefix start [] u h = tt
check_keys-All prefix start (key ∷ keys) u h =
    let (v, recognised, rest) = >>=-eq-ok (require (is_range_key prefix key) unrecognised) _ h in
    let (w, advanced, rest') = >>=-eq-ok (require (is_after start key) did_not_advance) _ rest in
    (
      require-eq-ok (is_range_key prefix key) unrecognised recognised,
      check_keys-All prefix start keys u rest',
    )

stale_from-All :
    (fuel : ℕ) (range : ChunkedRange) (map : Storage) (start : Option Text) (stale : List Text)
    → stale_from fuel range map start ≡ ok stale
    → All (λ key. is_range_key range.prefix key ≡ true) stale
unfolding stale_from
stale_from-All zero range map start stale h = rw (← ok-injective h) tt
stale_from-All (suc fuel) range map start stale h =
    let keys = sort (list range.prefix start range.batch_keys map) in
    let (u, checked, rest) = >>=-eq-ok (check_keys range.prefix start keys) _ h in
    let on_page = check_keys-All range.prefix start keys u checked in
    elim (Bool-cases (ltb (length keys) range.batch_keys)) [
      | inl short ↦ rw (← ok-injective (rw short at rest)) on_page
      | inr full ↦
          let (others, others_eq, same) =
            map-eq-ok (stale_from fuel range map (last_of start keys))
              (λ (r : List Text). keys ++ r) stale (rw full at rest) in
          rw same (
            All-append (λ key. is_range_key range.prefix key ≡ true) keys others on_page
              (stale_from-All fuel range map (last_of start keys) others others_eq))
    ]

length-keys :
    (prefix : Text) (start : Option Text) (map : Storage)
    → length (listed_keys prefix start map) ≤ length map
unfolding listed_keys
length-keys prefix start [] = omega arith
length-keys prefix start ((key, item) ∷ map) =
    let ih = length-keys prefix start map in
    elim (Bool-cases (starts_with prefix key && is_after start key)) [
      | inl e ↦ rw e (omega (arith, ih))
      | inr e ↦ rw e (omega (arith, ih))
    ]

-- What the plan of `clearPlan` is: no write, every key of the map under the prefix, and no other.
pub record IsClearing (range : ChunkedRange) (map : Storage) (plan : Plan) : Type 0 where
  pub no_writes : plan.writes ≡ []
  pub no_meta : plan.publish_meta ≡ false
  pub no_chunks : plan.chunks ≡ 0
  pub only_range_keys : All (λ key. is_range_key range.prefix key ≡ true) plan.stale
  pub complete :
      (x : Text)
      → (has (keys_of map) x && starts_with range.prefix x) ≡ true
      → has plan.stale x ≡ true

pub clear_plan-IsClearing :
    (range : ChunkedRange) (map : Storage) (plan : Plan)
    → 0 < range.batch_keys
    → clear_plan range map ≡ ok plan
    → IsClearing range map plan
unfolding clear_plan
clear_plan-IsClearing range map plan positive h =
    let (stale, found, same) =
      map-eq-ok (stale_from (suc (length map)) range map none)
        (λ (stale : List Text). record {
          writes = [];
          stale = stale;
          chunks = 0;
          size = 0;
          publish_meta = false;
        })
        plan h in
    rw same (record {
      no_writes = refl;
      no_meta = refl;
      no_chunks = refl;
      only_range_keys = stale_from-All (suc (length map)) range map none stale found;
      complete = λ x there.
          let (stands, prefixed) =
            &&-eq-true (has (keys_of map) x) (starts_with range.prefix x) there in
          let fits = length-keys range.prefix none map in
          stale_from_complete (suc (length map)) range map none stale x positive (omega arith) found
            (has-listed_keys range.prefix none map x ∙ rw (stands, prefixed) refl);
    })
