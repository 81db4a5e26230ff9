-- ===== src/Adapter/Arena/Reuse.antt =====
-- adapter.mjs: GuestArena, where `allocate` has no memory to give, and what it gives again.
use fram.Prelude.{
  ℕ, ◌+◌, ◌*◌, ◌<◌, ◌≤◌, ◌≡◌, ◌≢◌, ◌↔◌, inl, inr, refl, true, false, List, [], ◌∷◌, ◌==◌, le→leb,
  ==→eq, sym, ap, Bool-cases, if◌then◌else◌, arith, ok, err, Result, ok-injective,
}
use fram.Adapter.Memory.{Memory}
use fram.Adapter.Arena.{
  GuestArena, page_bytes, block_header, pages_for, class_of, allocate, take_block, carve, has_room,
  grow_and_carve, grow_to, count_live, set_bucket, align_16, deallocate, Growth, range_error,
  negative, grown_from, ArenaError, grow_failed,
}
use fram.Adapter.Arena.Blocks.{occurrences, class_total-remove, Carved-occurrences}
use fram.Adapter.Arena.Classes.{align_16-bounds}
use fram.Adapter.Arena.Life.{World, IsSound, Answers}
use fram.Adapter.Arena.Sound.{counted-IsSound, counted-Answers, deallocate-eq, bucket_block}

-- A memory that grows by the pages that `allocate` asks for has room for the block.
grow_to-has_room :
    (world : World) (class before : ℕ)
    → IsSound world
    → Answers (pages_for (block_header + class) world.arena) world.arena (grown_from before)
    → has_room class (grow_to (pages_for (block_header + class) world.arena) before world.arena)
      ≡ true
unfolding has_room grow_to pages_for
grow_to-has_room world class before sound (above, bounded) =
    let below = sound.next_within in
    let within = sound.end_within in
    let pages = pages_for (block_header + class) world.arena in
    let fresh : ℕ = before * page_bytes in
    let start : ℕ = if fresh == world.arena.end then world.arena.next else fresh in
    let start_below : start ≤ fresh = ground arith in
    let enough : block_header + class ≤ pages * page_bytes = omega arith in
    let (over, near, aligned) = align_16-bounds start (omega arith) in
    le→leb (align_16 start + (block_header + class)) (fresh + pages * page_bytes) (omega arith)

-- A bucket that a pointer went to and left.
set_bucket_back :
    (class pointer c : ℕ) (free : ℕ → List ℕ)
    → set_bucket class (free class) (set_bucket class (pointer ∷ free class) free) c ≡ free c
unfolding set_bucket
set_bucket_back class pointer c free = elim (Bool-cases (c == class)) [
  | inl e ↦ rw e (ap free (sym (==→eq c class e)))
  | inr e ↦ rw e refl
]

-- An answer that is never NULL, and an exception in this case only.
abbrev ThrowsWhere : Result ArenaError ℕ → Type 0 → Type 0
ThrowsWhere answer case = (answer ≢ ok 0) × ((answer ≡ err grow_failed) ↔ case)

given-ThrowsWhere :
    (pointer : ℕ) (case : Type 0) → pointer ≢ 0 → (case → ⊥) → ThrowsWhere (ok pointer) case
given-ThrowsWhere pointer case positive never =
    (λ h. positive (ok-injective h), (λ h. absurd (cc), λ h. absurd (never h)))

carve-ThrowsWhere :
    (class : ℕ) (memory : Memory) (arena : GuestArena) (case : Type 0)
    → (case → ⊥)
    → ThrowsWhere (carve class memory arena).answer case
unfolding carve
carve-ThrowsWhere class memory arena case never =
    given-ThrowsWhere (align_16 arena.next + block_header) case (λ h. omega arith) never

bucket_positive :
    (world : World) (class pointer : ℕ) (bucket : List ℕ)
    → IsSound world
    → world.arena.free class ≡ pointer ∷ bucket
    → pointer ≢ 0
bucket_positive world class pointer bucket sound stands h =
    let (cut, idle) = bucket_block world class pointer bucket sound stands in
    let (headed, below) =
      Carved-occurrences world.arena.base world.memory world.arena.next pointer class world.carved
        sound.carved_below_next (omega arith) in
    omega (arith, headed.above_base)

grow_and_carve-ThrowsWhere :
    (world : World) (class : ℕ) (grown : Growth)
    → IsSound world
    → Answers (pages_for (block_header + class) world.arena) world.arena grown
    → ThrowsWhere (grow_and_carve class grown world.memory world.arena).answer (grown ≡ range_error)
unfolding grow_and_carve
grow_and_carve-ThrowsWhere world class range_error sound answers = (λ h. cc, (λ h. refl, λ h. refl))
grow_and_carve-ThrowsWhere world class negative sound answers = absurd answers
grow_and_carve-ThrowsWhere world class (grown_from before) sound answers =
    let grown = grow_to (pages_for (block_header + class) world.arena) before world.arena in
    rw (grow_to-has_room world class before sound answers)
      (carve-ThrowsWhere class world.memory grown (grown_from before ≡ range_error) (λ h. cc))

take_block-ThrowsWhere :
    (world : World) (class : ℕ) (bucket : List ℕ) (grown : Growth)
    → IsSound world
    → world.arena.free class ≡ bucket
    → Answers (pages_for (block_header + class) world.arena) world.arena grown
    → ThrowsWhere
        (take_block class bucket grown world.memory world.arena).answer
        ((bucket ≡ []) × (has_room class world.arena ≡ false) × (grown ≡ range_error))
unfolding take_block
take_block-ThrowsWhere world class (pointer ∷ bucket) grown sound stands answers =
    given-ThrowsWhere pointer _ (bucket_positive world class pointer bucket sound stands)
      (λ (h, _, _). cc)
take_block-ThrowsWhere world class [] grown sound stands answers =
    elim (Bool-cases (has_room class world.arena)) [
      | inl e ↦ rw e (carve-ThrowsWhere class world.memory world.arena _ (λ (_, h, _). cc))
      | inr e ↦
          let (given, (only, enough)) =
            grow_and_carve-ThrowsWhere world class grown sound answers in
          rw e (given, (λ h. (refl, refl, only h), λ (_, _, failed). enough failed))
    ]

-- In a sound arena, where `memory.grow` does as a WebAssembly.Memory: `allocate` never returns NULL, and
-- throws its exception exactly where the bucket of the class is empty, the arena has no room and
-- `memory.grow` throws.
pub allocate-throws :
    (size : ℕ) (grown : Growth) (world : World)
    → IsSound world
    → Answers (pages_for (block_header + class_of size) world.arena) world.arena grown
    → let answer = (allocate size grown world.memory world.arena).answer in
      (answer ≢ ok 0)
      × ((answer ≡ err grow_failed) ↔ (
          (world.arena.free (class_of size) ≡ [])
          × (has_room (class_of size) world.arena ≡ false)
          × (grown ≡ range_error)))
unfolding allocate has_room
allocate-throws size grown world sound answers =
    take_block-ThrowsWhere
      (record world { arena = record world.arena { allocations = world.arena.allocations + 1 } })
      (class_of size) (world.arena.free (class_of size)) grown (counted-IsSound world sound) refl
      (counted-Answers (class_of size) grown world.arena answers)

-- In a sound arena, a block that the guest holds and gives back is the one that the next `allocate`
-- of its class returns, with no word written, no page taken, and the buckets as they were.
pub deallocate-allocate :
    (pointer size : ℕ) (grown : Growth) (world : World)
    → IsSound world
    → 0 < occurrences pointer (class_of size) world.live
    → let again =
        allocate size grown world.memory (deallocate pointer world.memory world.arena).1 in
      (again.answer ≡ ok pointer)
      × (again.memory ≡ world.memory)
      × (again.arena.next ≡ world.arena.next)
      × (again.arena.end ≡ world.arena.end)
      × (again.arena.live_bytes ≡ world.arena.live_bytes)
      × ((c : ℕ) → again.arena.free c ≡ world.arena.free c)
unfolding allocate
deallocate-allocate pointer size grown world sound held =
    let class = class_of size in
    let total = class_total-remove pointer class world.live held in
    let live = sound.live_total in
    let own : set_bucket class (pointer ∷ world.arena.free class) world.arena.free class
        ≡ pointer ∷ world.arena.free class =
      unfold set_bucket in ground arith in
    rw (deallocate-eq world pointer class sound held, own)
      (unfold take_block count_live in
        (
          refl,
          refl,
          refl,
          refl,
          omega arith,
          λ c. set_bucket_back class pointer c world.arena.free,
        ))
