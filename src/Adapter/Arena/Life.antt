-- ===== src/Adapter/Arena/Life.antt =====
-- adapter.mjs: GuestArena between the calls of a guest, with the blocks that the guest holds.
use fram.Prelude.{ℕ, ◌+◌, ◌*◌, ◌<◌, ◌≤◌, ◌≡◌, List, [], ◌∷◌, ◌==◌, if◌then◌else◌, Result, ok, err}
use fram.Adapter.Memory.{Memory}
use fram.Adapter.Arena.{
  GuestArena, Allocated, page_bytes, block_header, pages_for, class_of, allocate, deallocate,
  Growth, range_error, negative, grown_from, ArenaError,
}
use fram.Adapter.Arena.Blocks.{
  Block, occurrences, pointer_occurrences, class_total, remove, Carved, Spares,
}

-- The arena and the memory, the blocks that the guest holds and all that were ever cut.
pub record World : Type 0 where
  pub memory : Memory
  pub arena : GuestArena
  pub live : List Block
  pub carved : List Block

pub record IsSound (world : World) : Type 0 where
  pub carved_below_next : Carved world.arena.base world.memory world.arena.next world.carved
  -- a block that was cut is held by the guest or stands in the bucket of its class
  pub all_counted :
      (p class : ℕ)
      → pointer_occurrences p (world.arena.free class) + occurrences p class world.live
        ≡ occurrences p class world.carved
  pub next_within : world.arena.next ≤ world.arena.end
  pub base_below : world.arena.base ≤ world.arena.next
  pub end_within : world.arena.end < 2147483648
  pub live_total : world.arena.live_bytes ≡ class_total world.live
  pub peak_above : world.arena.live_bytes ≤ world.arena.peak_live_bytes

-- What `memory.grow(pages)` of a WebAssembly.Memory does: it throws, or the pages before it are no fewer
-- than those of the arena, and the memory stays below 2^31 bytes.
abbrev pub Answers : ℕ → GuestArena → Growth → Type 0
Answers pages arena range_error = Unit {0}
Answers pages arena negative = ⊥
Answers pages arena (grown_from before) =
    (arena.end ≤ before * page_bytes) × ((before + pages) * page_bytes < 2147483648)

-- The pointer that was returned, 0 where an exception was thrown.
abbrev pub pointer_of : Result ArenaError ℕ → ℕ
pointer_of (ok pointer) = pointer
pointer_of (err thrown) = 0

-- The blocks that were cut after `allocate` took one of a class: a new one where its bucket is empty.
abbrev pub carved_after : ℕ → ℕ → List ℕ → List Block → List Block
carved_after pointer class [] carved = if pointer == 0 then carved else (pointer, class) ∷ carved
carved_after pointer class (p ∷ bucket) carved = carved

unfoldable pub world_after : ℕ → List ℕ → Allocated → World → World
world_after class bucket done world = record {
  memory = done.memory;
  arena = done.arena;
  live =
      if pointer_of done.answer == 0
      then world.live
      else (pointer_of done.answer, class) ∷ world.live;
  carved = carved_after (pointer_of done.answer) class bucket world.carved;
}

unfoldable pub after_allocate : ℕ → Growth → World → World
after_allocate size grown world =
    world_after (class_of size) (world.arena.free (class_of size))
      (allocate size grown world.memory world.arena) world

unfoldable pub after_deallocate : ℕ → ℕ → World → World
after_deallocate pointer class world = record world {
  arena = (deallocate pointer world.memory world.arena).1;
  live = remove pointer class world.live;
}

-- What happens to the arena between its reservation and the end of the guest.
pub data Step (world : World) : World → Type 0 where
  allocates :
      (size : ℕ) (grown : Growth)
      → Answers (pages_for (block_header + class_of size) world.arena) world.arena grown
      → Step world (after_allocate size grown world)
  deallocates :
      (pointer class : ℕ)
      → 0 < occurrences pointer class world.live
      → Step world (after_deallocate pointer class world)
  guest_writes :
      (memory : Memory)
      → Spares world.memory memory world.carved
      → Step world (record world { memory = memory })

pub data Reach : World → World → Type 0 where
  here : {world : World} → Reach world world
  next : {world middle last : World} → Step world middle → Reach middle last → Reach world last
