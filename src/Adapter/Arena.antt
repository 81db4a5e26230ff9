-- ===== src/Adapter/Arena.antt =====
-- adapter.mjs: class GuestArena, the allocator of the host in the memory of the guest. Addresses
-- and sizes stay below 2^31, where the 32-bit numbers of the guest and of JavaScript's operators do not
-- turn negative.
pub mod Blocks
pub mod Classes
pub mod Life
pub mod Cut
pub mod Sound
pub mod Grants
pub mod Reuse
use fram.Prelude.{
  ℕ, zero, suc, ◌+◌, ◌-◌, ◌*◌, ◌/◌, ◌%◌, ◌^◌, max, Bool, true, false, Option, none, some, List, [],
  ◌∷◌, ltb, leb, ◌==◌, if◌then◌else◌, Result, ok, err,
}
use fram.Adapter.Memory.{Memory, set_uint32, get_uint32}

abbrev pub page_bytes : ℕ
page_bytes = 65536

abbrev pub block_header : ℕ
block_header = 16

-- 'FRAM'
abbrev pub block_magic : ℕ
block_magic = 1179795789

pub record GuestArena : Type 0 where
  pub initial_pages : ℕ
  pub grow_pages : ℕ
  pub base : ℕ
  pub next : ℕ
  pub end : ℕ
  -- the bucket of a class, with the pointer that was pushed last at the head; empty where the map
  -- has no bucket
  pub free : ℕ → List ℕ
  pub allocations : ℕ
  pub deallocations : ℕ
  pub reuses : ℕ
  pub grows : ℕ
  pub live_bytes : ℕ
  pub peak_live_bytes : ℕ

-- The constructor.
unfoldable pub new_arena : ℕ → ℕ → GuestArena
new_arena initial_pages grow_pages = record {
  initial_pages = initial_pages;
  grow_pages = grow_pages;
  base = 0;
  next = 0;
  end = 0;
  free = λ class. [];
  allocations = 0;
  deallocations = 0;
  reuses = 0;
  grows = 0;
  live_bytes = 0;
  peak_live_bytes = 0;
}

-- What `memory.grow` does: it throws a RangeError, or gives the pages before it. A negative answer, which
-- the code looks for, is the one of the WebAssembly instruction.
pub data Growth : Type 0 where
  range_error negative : Growth
  grown_from : ℕ → Growth

pub data ArenaError : Type 0 where
  cannot_reserve out_of_range grow_failed : ArenaError
  not_a_block : ℕ → ArenaError

-- `reserve`, for what `memory.grow` does.
unfoldable pub reserve_arena : Growth → GuestArena → Result ArenaError GuestArena
reserve_arena range_error arena = err grow_failed
reserve_arena negative arena = err cannot_reserve
reserve_arena (grown_from before) arena = ok (record arena {
  base = before * page_bytes;
  next = before * page_bytes;
  end = before * page_bytes + arena.initial_pages * page_bytes;
})

-- `while (cls < size) cls *= 2`
unfoldable pub class_from : ℕ → ℕ → ℕ → ℕ
class_from zero size class = class
class_from (suc fuel) size class =
    let doubled = class_from fuel size (class * 2) in if ltb class size then doubled else class

-- `#classOf` of a size that is not negative: from 32 on, `size` rounds are enough.
unfoldable pub class_of : ℕ → ℕ
class_of size = class_from size size 32

-- `(next + 15) & ~15`, with the 32 bits of the operator, whose result is signed: this is it where it is
-- below 2^31.
unfoldable pub align_16 : ℕ → ℕ
align_16 next = let wrapped = (next + 15) % 4294967296 in wrapped - wrapped % 16

unfoldable pub set_bucket : ℕ → List ℕ → (ℕ → List ℕ) → ℕ → List ℕ
set_bucket class bucket free other = if other == class then bucket else free other

-- `this.liveBytes += cls`, with the peak.
unfoldable pub count_live : ℕ → GuestArena → GuestArena
count_live class arena =
    let live = arena.live_bytes + class in
    record arena { live_bytes = live; peak_live_bytes = max arena.peak_live_bytes live }

-- The pages that `allocate` asks the memory for.
unfoldable pub pages_for : ℕ → GuestArena → ℕ
pages_for need arena = max arena.grow_pages ((need + 65535) / page_bytes)

-- The arena after `memory.grow(pages)` answered `before`.
unfoldable pub grow_to : ℕ → ℕ → GuestArena → GuestArena
grow_to pages before arena =
    let fresh = before * page_bytes in
    record arena {
      grows = arena.grows + 1;
      next = if fresh == arena.end then arena.next else fresh;
      end = fresh + pages * page_bytes;
    }

-- What `allocate` returns or throws, with the memory and the arena after it.
pub record Allocated : Type 0 where
  pub answer : Result ArenaError ℕ
  pub memory : Memory
  pub arena : GuestArena

-- The end of `allocate`: the header of a new block, and the pointer behind it.
unfoldable pub carve : ℕ → Memory → GuestArena → Allocated
carve class memory arena =
    let header = align_16 arena.next in
    record {
      answer = ok (header + block_header);
      memory = set_uint32 (header + 4) block_magic (set_uint32 header class memory);
      arena = count_live class (record arena { next = header + (block_header + class) });
    }

-- `header + need <= this.end`, for the header that is next.
unfoldable pub has_room : ℕ → GuestArena → Bool
has_room class arena = leb (align_16 arena.next + (block_header + class)) arena.end

-- NULL where the answer of `memory.grow` is negative; its exception is passed on.
unfoldable pub grow_and_carve : ℕ → Growth → Memory → GuestArena → Allocated
grow_and_carve class range_error memory arena = record {
  answer = err grow_failed;
  memory = memory;
  arena = arena;
}
grow_and_carve class negative memory arena = record {
  answer = ok 0;
  memory = memory;
  arena = arena;
}
grow_and_carve class (grown_from before) memory arena =
    let grown = grow_to (pages_for (block_header + class) arena) before arena in
    if has_room class grown
    then carve class memory grown
    else record { answer = ok 0; memory = memory; arena = grown }

-- A block of a class, from its bucket first.
unfoldable pub take_block : ℕ → List ℕ → Growth → Memory → GuestArena → Allocated
take_block class (pointer ∷ bucket) grown memory arena = record {
  answer = ok pointer;
  memory = memory;
  arena =
      count_live class
        (record arena { reuses = arena.reuses + 1; free = set_bucket class bucket arena.free });
}
take_block class [] grown memory arena =
    if has_room class arena
    then carve class memory arena
    else grow_and_carve class grown memory arena

-- `allocate(size)`, of a size below 2^31, for what `memory.grow` would do.
unfoldable pub allocate : ℕ → Growth → Memory → GuestArena → Allocated
allocate size grown memory arena =
    let class = class_of size in
    take_block class (arena.free class) grown memory
      (record arena { allocations = arena.allocations + 1 })

-- The magic word before the block, which a DataView does not read below the address 0.
unfoldable pub has_magic : ℕ → Memory → Result ArenaError Bool
has_magic pointer memory =
    if ltb pointer 12
    then err out_of_range
    else ok (get_uint32 (pointer - 12) memory == block_magic)

-- The end of `deallocate`, for a block that has its magic word. The subtraction is exact where the
-- block is live.
unfoldable pub give_back : ℕ → Memory → GuestArena → Result ArenaError (Unit {0}) × GuestArena
give_back pointer memory arena =
    let class = get_uint32 (pointer - block_header) memory in
    if ltb pointer block_header then (err out_of_range, arena) else (
      ok tt,
      record arena {
        free = set_bucket class (pointer ∷ arena.free class) arena.free;
        live_bytes = arena.live_bytes - class;
      },
    )

-- `deallocate(pointer)` of an address within the memory, with the arena that it leaves.
unfoldable pub deallocate : ℕ → Memory → GuestArena → Result ArenaError (Unit {0}) × GuestArena
deallocate pointer memory arena =
    let counted : GuestArena = record arena { deallocations = arena.deallocations + 1 } in
    if pointer == 0 then (ok tt, counted) else elim (has_magic pointer memory) [
      | err thrown ↦ (err thrown, counted)
      | ok false ↦ (err (not_a_block pointer), counted)
      | ok true ↦ give_back pointer memory counted
    ]

-- `reservedBytes`
unfoldable pub reserved_bytes : GuestArena → ℕ
reserved_bytes arena = arena.end - arena.base
