-- ===== src/Adapter/Storage.antt =====
-- adapter.mjs: class MemoryStorage, the storage of a Durable Object over a plain Map. A transaction
-- works on a copy of the map that takes the map's place at its end, and a throwing body leaves the
-- map as it was: it is a function from a map to a map.
use fram.Prelude.{
  ℕ, ◌≡◌, refl, true, Option, none, some, List, [], ◌∷◌, if◌then◌else◌, same_elems, same_elems-eq,
  arith,
}
use fram.Text.{Text}

-- What a key holds: the bytes of a chunk, or the `meta` of a range.
pub data Stored : Type 0 where
  chunk : List ℕ → Stored
  meta : ℕ → ℕ → Stored

abbrev pub Storage : Type 0
Storage = List (Text × Stored)

unfoldable pub get : Text → Storage → Option Stored
get key [] = none
get key ((k, v) ∷ map) = if same_elems k key then some v else get key map

-- `map.set(key, item)`
unfoldable pub set_item : Text → Stored → Storage → Storage
set_item key item [] = (key, item) ∷ []
set_item key item ((k, v) ∷ map) =
    if same_elems k key then (k, item) ∷ map else (k, v) ∷ set_item key item map

-- `map.delete(key)`
unfoldable pub delete_item : Text → Storage → Storage
delete_item key [] = []
delete_item key ((k, v) ∷ map) =
    let rest = delete_item key map in if same_elems k key then rest else (k, v) ∷ rest

-- `put(entries)`
unfoldable pub put : List (Text × Stored) → Storage → Storage
put [] map = map
put ((key, item) ∷ entries) map = put entries (set_item key item map)

-- `delete(keys)`
unfoldable pub delete : List Text → Storage → Storage
delete [] map = map
delete (key ∷ keys) map = delete keys (delete_item key map)

same_elems_trans : (k key j : Text) → same_elems k key ≡ true → same_elems k j ≡ same_elems key j
same_elems_trans k key j h = rw (same_elems-eq k key h) refl

same_elems_right : (k key j : Text) → same_elems key j ≡ true → same_elems k j ≡ same_elems k key
same_elems_right k key j h = rw (same_elems-eq key j h) refl

pub get-set_item :
    (key j : Text) (item : Stored) (map : Storage)
    → get j (set_item key item map) ≡ (if same_elems key j then some item else get j map)
unfolding get set_item
get-set_item key j item [] = refl
get-set_item key j item ((k, v) ∷ map) =
    ground (arith, get-set_item key j item map, same_elems_trans k key j, same_elems_right k key j)

pub get-delete_item :
    (key j : Text) (map : Storage)
    → get j (delete_item key map) ≡ (if same_elems key j then none else get j map)
unfolding get delete_item
get-delete_item key j [] = ground arith
get-delete_item key j ((k, v) ∷ map) =
    ground (arith, get-delete_item key j map, same_elems_trans k key j, same_elems_right k key j)
