-- ===== src/Adapter/Arena/Grants.antt =====
-- adapter.mjs: GuestArena, what a guest is given.
use fram.Adapter.Arena.Reuse.{allocate-throws}
use fram.Prelude.{
  ℕ, ◌+◌, ◌*◌, ◌%◌, ◌<◌, ◌≤◌, ◌≡◌, ◌≢◌, refl, true, false, ◌∷◌, ne→not_==, All, if◌then◌else◌, ok,
  arith, ap, sym, ◌∙◌,
}
use fram.Adapter.Memory.{Memory}
use fram.Adapter.Arena.{
  GuestArena, reserve_arena, new_arena, page_bytes, block_header, pages_for, class_of, allocate,
  Growth, grown_from,
}
use fram.Adapter.Arena.Blocks.{
  IsApart, PairwiseApart, All-occurrences, PairwiseApart-occurrences, Block, same_block,
  occurrences, class_total,
}
use fram.Adapter.Arena.Classes.{class_of-IsClass}
use fram.Adapter.Arena.Life.{
  World, IsSound, Answers, after_allocate, world_after, Reach, pointer_of,
}
use fram.Adapter.Arena.Sound.{
  allocate-IsSound, live_once, live-Apart, reserve-IsSound, Reach-IsSound, initial, live-IsHeaded,
}

-- A pointer for a size, against the world that it was asked in and the arena after it.
pub record IsGranted (size pointer : ℕ) (world : World) (arena : GuestArena) : Type 0 where
  pub aligned : pointer % 16 ≡ 0
  pub fits : size ≤ class_of size
  pub above_base : arena.base + 16 ≤ pointer
  pub below_end : pointer + class_of size ≤ arena.end
  pub apart_from_live : All (IsApart pointer (class_of size)) world.live

same_block_self : (p class : ℕ) → same_block p class p class ≡ true
same_block_self p class = ground arith

granted_live :
    (size : ℕ) (grown : Growth) (world : World)
    → pointer_of (allocate size grown world.memory world.arena).answer ≢ 0
    → (after_allocate size grown world).live
      ≡ (pointer_of (allocate size grown world.memory world.arena).answer, class_of size)
        ∷ world.live
unfolding after_allocate world_after
granted_live size grown world positive =
    rw (ne→not_== (pointer_of (allocate size grown world.memory world.arena).answer) 0 positive)
      refl

pointer_of-IsGranted :
    (size : ℕ) (grown : Growth) (world : World)
    → IsSound world
    → Answers (pages_for (block_header + class_of size) world.arena) world.arena grown
    → pointer_of (allocate size grown world.memory world.arena).answer ≢ 0
    → IsGranted size
        (pointer_of (allocate size grown world.memory world.arena).answer)
        world
        (allocate size grown world.memory world.arena).arena
unfolding occurrences after_allocate world_after
pointer_of-IsGranted size grown world sound answers positive =
    let after = after_allocate size grown world in
    let done = allocate size grown world.memory world.arena in
    let after_sound = allocate-IsSound size grown world sound answers in
    let pointer = pointer_of done.answer in
    let live = granted_live size grown world positive in
    let self = same_block_self pointer (class_of size) in
    let held : 0 < occurrences pointer (class_of size) after.live =
      rw live (rw self (omega arith)) in
    let (headed, below) = live-IsHeaded after pointer (class_of size) after_sound held in
    let within = after_sound.next_within in
    record {
      aligned = headed.aligned;
      fits = (class_of-IsClass size).fits;
      above_base = headed.above_base;
      below_end = omega (arith, below, within);
      apart_from_live =
          All-occurrences (IsApart pointer (class_of size)) world.live (λ p class held'.
            let once = live_once after p class after_sound in
            let counted : occurrences p class after.live
                ≡ (if same_block p class pointer (class_of size) then 1 else 0)
                  + occurrences p class world.live =
              rw live refl in
            let distinct : same_block pointer (class_of size) p class ≡ false =
              ground (arith, counted) in
            live-Apart after pointer (class_of size) p class after_sound held
              (omega (arith, counted)) distinct);
    }

-- In a sound arena, where `memory.grow` does as a WebAssembly.Memory: a pointer that `allocate` returns is
-- a multiple of 16, has the size behind it within the arena, and its block shares no byte with one that
-- the guest holds.
pub allocate-IsGranted :
    (size pointer : ℕ) (grown : Growth) (world : World)
    → IsSound world
    → Answers (pages_for (block_header + class_of size) world.arena) world.arena grown
    → (allocate size grown world.memory world.arena).answer ≡ ok pointer
    → IsGranted size pointer world (allocate size grown world.memory world.arena).arena
allocate-IsGranted size pointer grown world sound answers returns =
    let done = allocate size grown world.memory world.arena in
    let same : pointer_of done.answer ≡ pointer = ap pointer_of returns in
    let positive : pointer_of done.answer ≢ 0 =
      λ h. (allocate-throws size grown world sound answers).0 (returns ∙ ap ok (sym same ∙ h)) in
    rw same at (pointer_of-IsGranted size grown world sound answers positive)

abbrev pub IsInArena : GuestArena → Block → Type 0
IsInArena arena block = (arena.base + 16 ≤ block.0) × (block.0 + block.1 ≤ arena.end)

-- What a guest may rely on of its blocks.
pub record IsExclusive (world : World) : Type 0 where
  pub in_arena : All (IsInArena world.arena) world.live
  pub lie_apart : PairwiseApart world.live
  pub bytes_counted : world.arena.live_bytes ≡ class_total world.live
  pub bytes_below_peak : world.arena.live_bytes ≤ world.arena.peak_live_bytes

-- From the arena that `reserve` makes in a memory below 2^31 bytes on, whatever the guest allocates,
-- gives back of what it holds and writes outside the headers: the blocks that it holds lie in the
-- arena and share no byte, and `liveBytes` is the sum of their classes, at most the peak.
pub Reach-IsExclusive :
    (initial_pages grow_pages before : ℕ) (memory : Memory) (arena : GuestArena) (world : World)
    → (before + initial_pages) * page_bytes < 2147483648
    → reserve_arena (grown_from before) (new_arena initial_pages grow_pages) ≡ ok arena
    → Reach (initial memory arena) world
    → IsExclusive world
Reach-IsExclusive initial_pages grow_pages before memory arena world bounded reserved reach =
    let start = reserve-IsSound initial_pages grow_pages before memory arena bounded reserved in
    let sound = Reach-IsSound start reach in
    record {
      in_arena = All-occurrences (IsInArena world.arena) world.live (λ p class held.
          let (headed, below) = live-IsHeaded world p class sound held in
          let within = sound.next_within in (headed.above_base, omega (arith, below)));
      lie_apart =
          PairwiseApart-occurrences world.live (λ p class. live_once world p class sound)
            (λ p class q other held held' distinct.
              live-Apart world p class q other sound held held' distinct);
      bytes_counted = sound.live_total;
      bytes_below_peak = sound.peak_above;
    }
