-- ===== src/Adapter/Arena/Cut.antt =====
-- adapter.mjs: GuestArena, a new block that is cut from the memory.
use fram.Prelude.{
  ℕ, ◌+◌, ◌-◌, ◌*◌, ◌%◌, ◌<◌, ◌≤◌, ◌≡◌, inl, inr, true, false, List, [], ◌==◌, leb→le, Bool-cases,
  if◌then◌else◌, arith, ok, err, Result, refl,
}
use fram.Adapter.Memory.{Memory, set_uint32, get-set_uint32, get-set_uint32_other}
use fram.Adapter.Arena.{
  GuestArena, page_bytes, block_header, block_magic, pages_for, take_block, carve, has_room,
  grow_and_carve, grow_to, count_live, align_16, Growth, range_error, negative, grown_from,
  ArenaError, grow_failed,
}
use fram.Adapter.Arena.Blocks.{
  Block, occurrences, class_total, Carved, IsHeaded, Carved-top, Carved-set_uint32,
}
use fram.Adapter.Arena.Classes.{align_16-bounds}
use fram.Adapter.Arena.Life.{World, IsSound, Answers, world_after, pointer_of}

-- The words that `carve` writes before its pointer.
written-IsHeaded :
    (base header class : ℕ) (memory : Memory)
    → base ≤ header
    → header % 16 ≡ 0
    → 32 ≤ class
    → class < 4294967296
    → IsHeaded base
        (set_uint32 (header + 4) block_magic (set_uint32 header class memory))
        (header + 16)
        class
written-IsHeaded base header class memory above aligned positive bounded =
    let at_class : header + 16 - 16 ≡ header = omega arith in
    let at_magic : header + 16 - 12 ≡ header + 4 = omega arith in
    record {
      above_base = omega arith;
      aligned = omega arith;
      positive = positive;
      class_word =
          rw
            (
              at_class,
              get-set_uint32_other (header + 4) block_magic header (set_uint32 header class memory)
                  (inl (omega arith)),
            )
            (get-set_uint32 header class memory bounded);
      magic_word =
          rw at_magic (
            get-set_uint32 (header + 4) block_magic (set_uint32 header class memory) (omega arith));
    }

-- The blocks below the header are as they were.
written_others :
    (base header class top : ℕ) (memory : Memory) (blocks : List Block)
    → top ≤ header
    → Carved base memory top blocks
    → Carved base
        (set_uint32 (header + 4) block_magic (set_uint32 header class memory))
        (header + 16 - 16)
        blocks
written_others base header class top memory blocks h carved =
    Carved-top base _ top (header + 16 - 16) blocks (omega arith) (
      Carved-set_uint32 base _ top (header + 4) block_magic blocks (omega arith)
        (Carved-set_uint32 base memory top header class blocks h carved))

-- Cutting a block where there is room keeps the arena sound.
carve-IsSound :
    (world : World) (class : ℕ)
    → IsSound world
    → 32 ≤ class
    → has_room class world.arena ≡ true
    → IsSound (world_after class [] (carve class world.memory world.arena) world)
unfolding world_after carve count_live has_room class_total occurrences
carve-IsSound world class sound positive room =
    let fits = leb→le _ _ room in
    let within = sound.end_within in
    let below = sound.next_within in
    let base_below = sound.base_below in
    let (over, near, aligned) = align_16-bounds world.arena.next (omega arith) in
    let header = align_16 world.arena.next in
    let nonzero : (header + 16 == 0) ≡ false = ground arith in
    rw nonzero (record {
      carved_below_next = (
        written-IsHeaded world.arena.base header class world.memory (omega arith) aligned positive
            (omega arith),
        omega arith,
        written_others world.arena.base header class world.arena.next world.memory world.carved over
            sound.carved_below_next,
      );
      all_counted = λ p c. let old = sound.all_counted p c in ground arith;
      next_within = omega arith;
      base_below = omega arith;
      end_within = sound.end_within;
      live_total = omega (arith, sound.live_total);
      peak_above = omega arith;
    })

-- A memory that grew leaves the arena sound, whether the new pages join it or not.
grow_to-IsSound :
    (world : World) (pages before : ℕ)
    → IsSound world
    → Answers pages world.arena (grown_from before)
    → IsSound (record world { arena = grow_to pages before world.arena })
unfolding grow_to
grow_to-IsSound world pages before sound (above, bounded) =
    let below = sound.next_within in
    let base_below = sound.base_below in
    let start : ℕ =
      if before * page_bytes == world.arena.end then world.arena.next else before * page_bytes in
    let moved : world.arena.next ≤ start = ground arith in
    let start_within : start ≤ before * page_bytes + pages * page_bytes = ground arith in
    record {
      carved_below_next =
          Carved-top world.arena.base world.memory world.arena.next start world.carved moved
            sound.carved_below_next;
      all_counted = sound.all_counted;
      next_within = start_within;
      base_below = omega arith;
      end_within = omega arith;
      live_total = sound.live_total;
      peak_above = sound.peak_above;
    }

-- A failure leaves the blocks alone.
refused-IsSound :
    (world : World) (class : ℕ) (arena : GuestArena) (answer : Result ArenaError ℕ)
    → (pointer_of answer == 0) ≡ true
    → IsSound (record world { arena = arena })
    → IsSound (
        world_after class []
          (record { answer = answer; memory = world.memory; arena = arena })
          world)
unfolding world_after
refused-IsSound world class arena answer null sound = rw null sound

grow_and_carve-IsSound :
    (world : World) (class : ℕ) (grown : Growth)
    → IsSound world
    → 32 ≤ class
    → Answers (pages_for (block_header + class) world.arena) world.arena grown
    → IsSound (world_after class [] (grow_and_carve class grown world.memory world.arena) world)
unfolding grow_and_carve world_after
grow_and_carve-IsSound world class range_error sound positive answers =
    refused-IsSound world class world.arena (err grow_failed) refl sound
grow_and_carve-IsSound world class negative sound positive answers = absurd answers
grow_and_carve-IsSound world class (grown_from before) sound positive answers =
    let pages = pages_for (block_header + class) world.arena in
    let arena = grow_to pages before world.arena in
    let grown_sound = grow_to-IsSound world pages before sound answers in
    elim (Bool-cases (has_room class arena)) [
      | inl e ↦ rw e (carve-IsSound (record world { arena = arena }) class grown_sound positive e)
      | inr e ↦ rw e (refused-IsSound world class arena (ok 0) refl grown_sound)
    ]

-- A new block, or none.
pub take_new-IsSound :
    (world : World) (class : ℕ) (grown : Growth)
    → IsSound world
    → 32 ≤ class
    → Answers (pages_for (block_header + class) world.arena) world.arena grown
    → IsSound (world_after class [] (take_block class [] grown world.memory world.arena) world)
unfolding take_block
take_new-IsSound world class grown sound positive answers =
    elim (Bool-cases (has_room class world.arena)) [
      | inl e ↦ rw e (carve-IsSound world class sound positive e)
      | inr e ↦ rw e (grow_and_carve-IsSound world class grown sound positive answers)
    ]
