-- ===== src/Adapter/HostImage.antt =====
-- adapter.mjs: class HostImage, one storage object as the synchronous hooks see it, in a buffer that
-- grows, with the earliest byte that a commit must rewrite.
pub mod Tracks
use fram.Prelude.{
  ℕ, zero, suc, ◌+◌, ◌*◌, min, max, Bool, true, false, Option, none, some, List, ◌++◌, ltb, leb,
  if◌then◌else◌, length, take, drop, replicate,
}
use fram.Adapter.Chunks.{set_bytes}

pub record HostImage : Type 0 where
  pub bytes : List ℕ
  pub capacity : ℕ
  pub size : ℕ
  -- none where it is `Number.POSITIVE_INFINITY`
  pub low_water : Option ℕ
  pub dirty : Bool
  pub syncs : ℕ

-- The constructor.
unfoldable pub new_image : List ℕ → HostImage
new_image bytes = record {
  bytes = bytes;
  capacity = length bytes;
  size = length bytes;
  low_water = none;
  dirty = false;
  syncs = 0;
}

-- `while (capacity < wanted) capacity *= 2`, which a positive capacity leaves within `wanted` rounds.
unfoldable pub double_until : ℕ → ℕ → ℕ → ℕ
double_until zero wanted capacity = capacity
double_until (suc fuel) wanted capacity =
    let doubled = double_until fuel wanted (capacity * 2) in
    if ltb capacity wanted then doubled else capacity

-- `reserve`
unfoldable pub reserve : ℕ → HostImage → HostImage
reserve extra image =
    let wanted = image.size + extra in
    let capacity = double_until wanted wanted (max (image.capacity * 2) 65536) in
    if leb wanted image.capacity then image else record image {
      bytes = set_bytes (replicate capacity 0) 0 (take image.size image.bytes);
      capacity = capacity;
    }

-- `Math.min(this.lowWater, at)`
unfoldable pub lower : Option ℕ → ℕ → Option ℕ
lower none at = some at
lower (some low) at = some (min low at)

unfoldable pub append : List ℕ → HostImage → HostImage
append piece image =
    let grown = reserve (length piece) image in
    record grown {
      bytes = set_bytes grown.bytes grown.size piece;
      low_water = lower grown.low_water grown.size;
      size = grown.size + length piece;
      dirty = true;
    }

-- `truncate`, whether it succeeded with the image that it leaves.
unfoldable pub truncate : ℕ → HostImage → Bool × HostImage
truncate size image =
    if ltb image.size size
    then (false, image)
    else (true, record image { low_water = lower image.low_water size; size = size; dirty = true })

unfoldable pub read : ℕ → ℕ → HostImage → Option (List ℕ)
read offset size image =
    if ltb image.size (offset + size) then none else some (take size (drop offset image.bytes))

unfoldable pub low_of : Option ℕ → ℕ
low_of none = 0
low_of (some low) = low

-- `takeCommit`, the low water mark with the image that it leaves.
unfoldable pub take_commit : HostImage → ℕ × HostImage
take_commit image = (low_of image.low_water, record image { low_water = none; dirty = false })

unfoldable pub restore_commit : ℕ → HostImage → HostImage
restore_commit low image = record image { low_water = lower image.low_water low; dirty = true }
