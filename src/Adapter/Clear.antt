-- ===== src/Adapter/Clear.antt =====
-- adapter.mjs: `list` of MemoryStorage, and `clearPlan` of ChunkedRange, which finds the keys of a
-- range page by page without reading their values.
pub mod Order
pub mod Sorting
pub mod Pages
pub mod Complete
pub mod Cleared
use fram.Prelude.{
  ℕ, zero, suc, Bool, true, false, not, ◌&&◌, ◌||◌, Option, none, some, List, [], ◌∷◌, ◌++◌, ltb,
  ◌==◌, if◌then◌else◌, same_elems, length, take, drop, Result, ok, err, ◌>>=◌, ◌>>◌, require,
}
use fram.Text.{Text, codes}
use fram.Text.Numeral.{every, is_digit}
use fram.Adapter.Storage.{Storage, Stored}
use fram.Adapter.Chunks.{ChunkedRange, Plan}

-- `a < b` of two strings, by their code units.
unfoldable pub text_ltb : Text → Text → Bool
text_ltb [] [] = false
text_ltb [] (d ∷ t) = true
text_ltb (c ∷ s) [] = false
text_ltb (c ∷ s) (d ∷ t) = ltb c d || ((c == d) && text_ltb s t)

-- `key.startsWith(prefix)`
unfoldable pub starts_with : Text → Text → Bool
starts_with [] key = true
starts_with (c ∷ prefix) [] = false
starts_with (c ∷ prefix) (d ∷ key) = (c == d) && starts_with prefix key

-- `startAfter === undefined || key > startAfter`
abbrev pub is_after : Option Text → Text → Bool
is_after none key = true
is_after (some start) key = text_ltb start key

unfoldable pub insert : Text → List Text → List Text
insert key [] = key ∷ []
insert key (k ∷ keys) =
    let rest = insert key keys in if text_ltb k key then k ∷ rest else key ∷ k ∷ keys

-- `[...keys].sort()`
unfoldable pub sort : List Text → List Text
sort [] = []
sort (key ∷ keys) = insert key (sort keys)

-- The filter of `list`, over the keys of the map.
unfoldable pub listed_keys : Text → Option Text → Storage → List Text
listed_keys prefix start [] = []
listed_keys prefix start ((key, item) ∷ map) =
    let rest = listed_keys prefix start map in
    if starts_with prefix key && is_after start key then key ∷ rest else rest

-- The keys of `list({ prefix, startAfter, limit })`.
unfoldable pub list : Text → Option Text → ℕ → Storage → List Text
list prefix start limit map = take limit (sort (listed_keys prefix start map))

pub data ClearError : Type 0 where
  unrecognised did_not_advance : ClearError

-- `meta`, or eight digits.
unfoldable pub is_range_key : Text → Text → Bool
is_range_key prefix key =
    let suffix = drop (length prefix) key in
    starts_with prefix key
    && (same_elems suffix (codes "meta") || ((length suffix == 8) && every is_digit suffix))

-- The inner loop of `clearPlan`, over the keys of one page.
unfoldable pub check_keys : Text → Option Text → List Text → Result ClearError (Unit {0})
check_keys prefix start [] = ok tt
check_keys prefix start (key ∷ keys) = do
  require (is_range_key prefix key) unrecognised
  require (is_after start key) did_not_advance
  check_keys prefix start keys

-- `keys[keys.length - 1]` of a page, or the start where the page is empty.
unfoldable pub last_of : Option Text → List Text → Option Text
last_of start [] = start
last_of start (key ∷ keys) = last_of (some key) keys

-- The loop of `clearPlan`: the stale keys from `start` on. Each round but the last takes a key at
-- least.
unfoldable pub stale_from : ℕ → ChunkedRange → Storage → Option Text → Result ClearError (List Text)
stale_from zero range map start = ok []
stale_from (suc fuel) range map start =
    let keys = sort (list range.prefix start range.batch_keys map) in
    let rest = stale_from fuel range map (last_of start keys) in
    check_keys range.prefix start keys
    >> (if ltb (length keys) range.batch_keys
        then ok keys
        else rest >>= λ others. ok (keys ++ others))

unfoldable pub clear_plan : ChunkedRange → Storage → Result ClearError Plan
clear_plan range map = do
  stale ← stale_from (suc (length map)) range map none
  ok (record { writes = []; stale = stale; chunks = 0; size = 0; publish_meta = false })
