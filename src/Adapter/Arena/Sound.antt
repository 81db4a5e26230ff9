-- ===== src/Adapter/Arena/Sound.antt =====
-- adapter.mjs: GuestArena, whatever the guest does with its blocks.
use fram.Adapter.Arena.Cut.{take_new-IsSound}
use fram.Prelude.{
  ℕ, ◌+◌, ◌-◌, ◌*◌, ◌<◌, ◌≤◌, ◌≡◌, inl, inr, refl, sym, ◌∙◌, false, List, [], ◌∷◌, ◌==◌, ltb, ==→eq,
  ap, Bool-cases, if◌then◌else◌, ok, ok-injective, arith,
}
use fram.Adapter.Memory.{Memory}
use fram.Adapter.Arena.{
  GuestArena, reserve_arena, new_arena, page_bytes, block_header, pages_for, class_of, allocate,
  take_block, count_live, set_bucket, deallocate, has_magic, give_back, Growth, range_error,
  negative, grown_from,
}
use fram.Adapter.Arena.Blocks.{
  same_block, occurrences, pointer_occurrences, class_total, IsHeaded, Apart, Carved-Apart,
  Carved-Spares, Carved-occurrences, occurrences_once, occurrences-remove, class_total-remove,
}
use fram.Adapter.Arena.Classes.{class_of-positive}
use fram.Adapter.Arena.Life.{
  World, IsSound, Answers, world_after, after_allocate, after_deallocate, Step, allocates,
  deallocates, guest_writes, Reach, here, next,
}

-- A pointer in a bucket is that of a block which was cut, and the guest does not hold it.
pub bucket_block :
    (world : World) (class pointer : ℕ) (bucket : List ℕ)
    → IsSound world
    → world.arena.free class ≡ pointer ∷ bucket
    → (occurrences pointer class world.carved ≡ 1) × (occurrences pointer class world.live ≡ 0)
unfolding pointer_occurrences
bucket_block world class pointer bucket sound stands =
    let counted = sound.all_counted pointer class in
    let once =
      occurrences_once world.arena.base world.memory world.arena.next pointer class world.carved
        sound.carved_below_next in
    let counted' = rw stands at counted in (ground arith, ground arith)

-- The buckets after a pointer left the one of its class.
bucket_popped :
    (free : ℕ → List ℕ) (class pointer p c : ℕ) (bucket : List ℕ)
    → free class ≡ pointer ∷ bucket
    → pointer_occurrences p (set_bucket class bucket free c)
        + (if same_block p c pointer class then 1 else 0)
      ≡ pointer_occurrences p (free c)
unfolding set_bucket pointer_occurrences
bucket_popped free class pointer p c bucket stands = elim (Bool-cases (c == class)) [
  | inl e ↦
      let here : free c ≡ pointer ∷ bucket = ap free (==→eq c class e) ∙ stands in
      rw here (ground arith)
  | inr e ↦ ground arith
]

-- The buckets after a pointer went to the one of its class.
bucket_pushed :
    (free : ℕ → List ℕ) (class pointer p c : ℕ)
    → pointer_occurrences p (set_bucket class (pointer ∷ free class) free c)
      ≡ pointer_occurrences p (free c) + (if same_block p c pointer class then 1 else 0)
unfolding set_bucket pointer_occurrences
bucket_pushed free class pointer p c = elim (Bool-cases (c == class)) [
  | inl e ↦ let here : free c ≡ free class = ap free (==→eq c class e) in rw here (ground arith)
  | inr e ↦ ground arith
]

-- A block from its bucket.
take_old-IsSound :
    (world : World) (class pointer : ℕ) (bucket : List ℕ) (grown : Growth)
    → IsSound world
    → world.arena.free class ≡ pointer ∷ bucket
    → IsSound (
        world_after class
          (pointer ∷ bucket)
          (take_block class (pointer ∷ bucket) grown world.memory world.arena)
          world)
unfolding take_block world_after count_live occurrences class_total
take_old-IsSound world class pointer bucket grown sound stands =
    let (cut, idle) = bucket_block world class pointer bucket sound stands in
    let (headed, below) =
      Carved-occurrences world.arena.base world.memory world.arena.next pointer class world.carved
        sound.carved_below_next (omega arith) in
    let above = headed.above_base in
    let nonzero : (pointer == 0) ≡ false = ground arith in
    rw nonzero (record {
      carved_below_next = sound.carved_below_next;
      all_counted = λ p c. omega (
        arith,
        sound.all_counted p c,
        bucket_popped world.arena.free class pointer p c bucket stands,
      );
      next_within = sound.next_within;
      base_below = sound.base_below;
      end_within = sound.end_within;
      live_total = omega (arith, sound.live_total);
      peak_above = omega arith;
    })

-- What `allocate` counts first.
pub counted-IsSound :
    (world : World)
    → IsSound world
    → IsSound
        (record world { arena = record world.arena { allocations = world.arena.allocations + 1 } })
counted-IsSound world sound = record {
  carved_below_next = sound.carved_below_next;
  all_counted = sound.all_counted;
  next_within = sound.next_within;
  base_below = sound.base_below;
  end_within = sound.end_within;
  live_total = sound.live_total;
  peak_above = sound.peak_above;
}

pub counted-Answers :
    (class : ℕ) (grown : Growth) (arena : GuestArena)
    → Answers (pages_for (block_header + class) arena) arena grown
    → let counted : GuestArena = record arena { allocations = arena.allocations + 1 } in
      Answers (pages_for (block_header + class) counted) counted grown
unfolding pages_for
counted-Answers class range_error arena answers = tt
counted-Answers class negative arena answers = answers
counted-Answers class (grown_from before) arena answers = answers

take_block-IsSound :
    (world : World) (class : ℕ) (bucket : List ℕ) (grown : Growth)
    → IsSound world
    → 32 ≤ class
    → world.arena.free class ≡ bucket
    → Answers (pages_for (block_header + class) world.arena) world.arena grown
    → IsSound
        (world_after class bucket (take_block class bucket grown world.memory world.arena) world)
take_block-IsSound world class [] grown sound positive stands answers =
    take_new-IsSound world class grown sound positive answers
take_block-IsSound world class (pointer ∷ bucket) grown sound positive stands answers =
    take_old-IsSound world class pointer bucket grown sound stands

pub allocate-IsSound :
    (size : ℕ) (grown : Growth) (world : World)
    → IsSound world
    → Answers (pages_for (block_header + class_of size) world.arena) world.arena grown
    → IsSound (after_allocate size grown world)
unfolding after_allocate allocate world_after
allocate-IsSound size grown world sound answers =
    take_block-IsSound
      (record world { arena = record world.arena { allocations = world.arena.allocations + 1 } })
      (class_of size) (world.arena.free (class_of size)) grown (counted-IsSound world sound)
      (class_of-positive size) refl (counted-Answers (class_of size) grown world.arena answers)

-- A block that the guest holds has its header, at an address above it.
pub live-IsHeaded :
    (world : World) (pointer class : ℕ)
    → IsSound world
    → 0 < occurrences pointer class world.live
    → IsHeaded world.arena.base world.memory pointer class × (pointer + class ≤ world.arena.next)
live-IsHeaded world pointer class sound held =
    let counted = sound.all_counted pointer class in
    Carved-occurrences world.arena.base world.memory world.arena.next pointer class world.carved
      sound.carved_below_next (omega arith)

-- The guest holds a block once.
pub live_once : (world : World) (p class : ℕ) → IsSound world → occurrences p class world.live ≤ 1
live_once world p class sound = omega (
  arith,
  sound.all_counted p class,
  occurrences_once world.arena.base world.memory world.arena.next p class world.carved
      sound.carved_below_next,
)

-- Two different blocks that the guest holds are apart.
pub live-Apart :
    (world : World) (p class q other : ℕ)
    → IsSound world
    → 0 < occurrences p class world.live
    → 0 < occurrences q other world.live
    → same_block p class q other ≡ false
    → Apart p class q other
live-Apart world p class q other sound held held' distinct =
    let counted = sound.all_counted p class in
    let counted' = sound.all_counted q other in
    Carved-Apart world.arena.base world.memory world.arena.next p class q other world.carved
      sound.carved_below_next (omega arith) (omega arith) distinct

pub deallocate-eq :
    (world : World) (pointer class : ℕ)
    → IsSound world
    → 0 < occurrences pointer class world.live
    → deallocate pointer world.memory world.arena ≡ (
      ok tt,
      record world.arena {
        deallocations = world.arena.deallocations + 1;
        free = set_bucket class (pointer ∷ world.arena.free class) world.arena.free;
        live_bytes = world.arena.live_bytes - class;
      },
    )
unfolding deallocate has_magic give_back
deallocate-eq world pointer class sound held =
    let (headed, below) = live-IsHeaded world pointer class sound held in
    let above = headed.above_base in
    let nonzero : (pointer == 0) ≡ false = ground arith in
    let high : ltb pointer 12 ≡ false = ground arith in
    let higher : ltb pointer 16 ≡ false = ground arith in
    rw (nonzero, high, headed.magic_word, higher, headed.class_word) refl

deallocate-IsSound :
    (world : World) (pointer class : ℕ)
    → IsSound world
    → 0 < occurrences pointer class world.live
    → IsSound (after_deallocate pointer class world)
unfolding after_deallocate
deallocate-IsSound world pointer class sound held =
    let total = class_total-remove pointer class world.live held in
    let live = sound.live_total in
    let peak = sound.peak_above in
    rw (deallocate-eq world pointer class sound held) (record {
      carved_below_next = sound.carved_below_next;
      all_counted = λ p c. omega (
        arith,
        sound.all_counted p c,
        bucket_pushed world.arena.free class pointer p c,
        occurrences-remove pointer class p c world.live held,
      );
      next_within = sound.next_within;
      base_below = sound.base_below;
      end_within = sound.end_within;
      live_total = omega arith;
      peak_above = omega arith;
    })

pub Step-IsSound : (world after : World) → IsSound world → Step world after → IsSound after
Step-IsSound world _ sound (allocates size grown answers) =
    allocate-IsSound size grown world sound answers
Step-IsSound world _ sound (deallocates pointer class held) =
    deallocate-IsSound world pointer class sound held
Step-IsSound world _ sound (guest_writes memory spares) = record {
  carved_below_next =
      Carved-Spares world.arena.base world.memory memory world.arena.next world.carved spares
        sound.carved_below_next;
  all_counted = sound.all_counted;
  next_within = sound.next_within;
  base_below = sound.base_below;
  end_within = sound.end_within;
  live_total = sound.live_total;
  peak_above = sound.peak_above;
}

-- An arena that `reserve` has just made, with the memory that the guest starts on.
abbrev pub initial : Memory → GuestArena → World
initial memory arena = record { memory = memory; arena = arena; live = []; carved = [] }

pub reserve-IsSound :
    (initial_pages grow_pages before : ℕ) (memory : Memory) (arena : GuestArena)
    → (before + initial_pages) * page_bytes < 2147483648
    → reserve_arena (grown_from before) (new_arena initial_pages grow_pages) ≡ ok arena
    → IsSound (initial memory arena)
unfolding reserve_arena new_arena
reserve-IsSound initial_pages grow_pages before memory arena bounded reserved =
    rw (sym (ok-injective reserved)) (record {
      carved_below_next = tt;
      all_counted = λ p c. unfold pointer_occurrences occurrences in refl;
      next_within = omega arith;
      base_below = omega arith;
      end_within = omega arith;
      live_total = unfold class_total in refl;
      peak_above = omega arith;
    })

-- Whatever a guest does between two points, the arena stays sound.
pub Reach-IsSound : {world after : World} → IsSound world → Reach world after → IsSound after
Reach-IsSound sound here = sound
Reach-IsSound {world} sound (next {middle} first rest) =
    Reach-IsSound (Step-IsSound world middle sound first) rest
