-- ===== src/Examples/Arena.antt =====
-- Tests of the guest's allocator, and the theorems on a concrete arena.
use fram.Prelude.{ℕ, ◌<◌, ◌≡◌, ◌↔◌, refl, false, [], ok, arith, ◌≢◌, err}
use fram.Adapter.Memory.{Memory, set_byte, set_uint32, get_uint32}
use fram.Adapter.Arena.{
  GuestArena, new_arena, reserve_arena, class_from, class_of, align_16, count_live, carve, has_room,
  take_block, allocate, has_magic, give_back, deallocate, Growth, range_error, grown_from,
  grow_failed,
}
use fram.Adapter.Arena.Blocks.{occurrences}
use fram.Adapter.Arena.Classes.{IsClass, class_of-IsClass}
use fram.Adapter.Arena.Life.{
  World, IsSound, here, next, allocates, deallocates, after_allocate, after_deallocate, world_after,
}
use fram.Adapter.Arena.Sound.{initial, reserve-IsSound, allocate-IsSound}
use fram.Adapter.Arena.Grants.{IsGranted, IsExclusive, allocate-IsGranted, Reach-IsExclusive}
use fram.Adapter.Arena.Reuse.{allocate-throws, deallocate-allocate}

abbrev zeros : Memory
zeros at = 0

-- An arena of one page behind two pages of the guest.
abbrev one_page : GuestArena
one_page = record {
  initial_pages = 1;
  grow_pages = 1;
  base = 131072;
  next = 131072;
  end = 196608;
  free = λ class. [];
  allocations = 0;
  deallocations = 0;
  reuses = 0;
  grows = 0;
  live_bytes = 0;
  peak_live_bytes = 0;
}

reserve_one_page : reserve_arena (grown_from 2) (new_arena 1 1) ≡ ok one_page
unfolding reserve_arena new_arena
reserve_one_page = refl

one_page-IsSound : IsSound (initial zeros one_page)
one_page-IsSound = reserve-IsSound 1 1 2 zeros one_page (omega arith) reserve_one_page

-- The arena after the guest was given 100 bytes.
abbrev hundred_held : World
hundred_held = after_allocate 100 range_error (initial zeros one_page)

hundred_held-IsSound : IsSound hundred_held
hundred_held-IsSound = allocate-IsSound 100 range_error (initial zeros one_page) one_page-IsSound tt

class_of_hundred : class_of 100 ≡ 128
unfolding class_of class_from
class_of_hundred = refl

held : 0 < occurrences 131088 (class_of 100) hundred_held.live
unfolding after_allocate world_after allocate take_block has_room carve count_live align_16 class_of
    class_from occurrences
held = omega arith

-- A second block stands behind the first.
second_block : (allocate 100 range_error hundred_held.memory hundred_held.arena).answer ≡ ok 131232
unfolding after_allocate world_after allocate take_block has_room carve count_live align_16 class_of
    class_from
second_block = refl

foreign_pointer : (deallocate 131072 hundred_held.memory hundred_held.arena).1.deallocations ≡ 1
unfolding after_allocate world_after allocate take_block has_room carve count_live align_16 class_of
    class_from deallocate has_magic give_back get_uint32 set_uint32 set_byte
foreign_pointer = refl

class_of-IsClass_example : IsClass 100 (class_of 100)
class_of-IsClass_example = class_of-IsClass 100

allocate-IsGranted_example :
    IsGranted 100 131232 hundred_held
      (allocate 100 range_error hundred_held.memory hundred_held.arena).arena
allocate-IsGranted_example =
    allocate-IsGranted 100 131232 range_error hundred_held hundred_held-IsSound tt second_block

Reach-IsExclusive_example : IsExclusive (after_deallocate 131088 (class_of 100) hundred_held)
Reach-IsExclusive_example =
    Reach-IsExclusive 1 1 2 zeros one_page (after_deallocate 131088 (class_of 100) hundred_held)
      (omega arith) reserve_one_page
      (next (allocates 100 range_error tt) (next (deallocates 131088 (class_of 100) held) here))

allocate-throws_example :
    let answer = (allocate 100000 range_error hundred_held.memory hundred_held.arena).answer in
    (answer ≢ ok 0)
    × ((answer ≡ err grow_failed) ↔ (
        (hundred_held.arena.free (class_of 100000) ≡ [])
        × (has_room (class_of 100000) hundred_held.arena ≡ false)
        × (◌≡◌ {A = Growth} range_error range_error)))
allocate-throws_example = allocate-throws 100000 range_error hundred_held hundred_held-IsSound tt

deallocate-allocate_example :
    let again =
      allocate 100 range_error hundred_held.memory
        (deallocate 131088 hundred_held.memory hundred_held.arena).1 in
    (again.answer ≡ ok 131088)
    × (again.memory ≡ hundred_held.memory)
    × (again.arena.next ≡ hundred_held.arena.next)
    × (again.arena.end ≡ hundred_held.arena.end)
    × (again.arena.live_bytes ≡ hundred_held.arena.live_bytes)
    × ((c : ℕ) → again.arena.free c ≡ hundred_held.arena.free c)
deallocate-allocate_example =
    deallocate-allocate 131088 100 range_error hundred_held hundred_held-IsSound held
