-- ===== src/Examples/Clearing.antt =====
-- A storage with keys of both ranges, and the plan that clears one of them.
use fram.Prelude.{◌≡◌, refl, false, none, [], ◌∷◌, take, drop, same_elems, arith, if◌then◌else◌, ok}
use fram.Text.{codes}
use fram.Text.Numeral.{every}
use fram.Adapter.Storage.{Storage, chunk, meta, get}
use fram.Adapter.Chunks.{ChunkedRange, Plan, new_range, apply_to}
use fram.Adapter.Clear.{
  clear_plan, stale_from, list, listed_keys, sort, insert, text_ltb, starts_with, check_keys,
  is_range_key, last_of,
}
use fram.Adapter.Clear.Cleared.{clear_plan-clears}

-- A storage with a chunk of an image, its meta, and a chunk of a log.
abbrev mixed : Storage
mixed =
    (codes "framimage/meta", meta 1 2)
    ∷ (codes "framlog/00000000", chunk (1 ∷ []))
    ∷ (codes "framimage/00000000", chunk (2 ∷ []))
    ∷ []

abbrev image_range : ChunkedRange
image_range = new_range (codes "framimage/") 2 2

abbrev clearing : Plan
clearing = record {
  writes = [];
  stale = codes "framimage/00000000" ∷ codes "framimage/meta" ∷ [];
  chunks = 0;
  size = 0;
  publish_meta = false;
}

finds_keys : clear_plan image_range mixed ≡ ok clearing
unfolding clear_plan stale_from list listed_keys sort insert text_ltb starts_with check_keys
    is_range_key last_of new_range take drop same_elems every
finds_keys = refl

clear_plan-clears_example :
    get (codes "framimage/meta") (apply_to clearing (image_range, mixed)).1 ≡ (
      if starts_with (codes "framimage/") (codes "framimage/meta")
      then none
      else get (codes "framimage/meta") mixed)
unfolding new_range
clear_plan-clears_example =
    clear_plan-clears image_range mixed clearing (codes "framimage/meta") (omega arith) finds_keys
