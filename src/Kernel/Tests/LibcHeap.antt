-- ===== src/Kernel/Tests/LibcHeap.antt =====
-- The C library's memory spaces at concrete inputs.
use kaj_ps.Base.{ℕ, ◌+◌, ◌<◌, ◌≡◌, refl, true, false, some, List, [], ◌∷◌, arith}
use kaj_ps.Base.Assoc
use kaj_ps.Kernel.Status.{no_resources}
use kaj_ps.Kernel.LibcHeap.Memory.{GuestMemoryCalls}
use kaj_ps.Kernel.LibcHeap.Mspace.{
  Mspace, align_up, allocate_mspace_locked, release_mspace_locked, copy_chunks, find_fit, fit,
}
use kaj_ps.Kernel.LibcHeap.Resize.{reallocate_in}
use kaj_ps.Kernel.LibcHeap.Service.{new_heap}
use kaj_ps.Kernel.LibcHeap.Inv.{Inv, Owner}
use kaj_ps.Kernel.LibcHeap.Spaces.{
  Allocated, allocate_mspace_locked_lem, Released, release_mspace_locked_lem,
}
use kaj_ps.Kernel.LibcHeap.Room.{no_room_lem}
use kaj_ps.Kernel.LibcHeap.Moves.{Reallocated, reallocate_in_lem}
use kaj_ps.Kernel.LibcHeap.Copy.{copy_chunks_settled}
use kaj_ps.Kernel.LibcHeap.History.{
  HeapInv, Call, creates, allocates, reallocates, releases, perform_all, perform_all-HeapInv,
}

-- A memory of which every access succeeds; its state counts the writes.
abbrev open_memory : GuestMemoryCalls ℕ
open_memory = record {
  base_address = λ m. 0x10000;
  can_access = λ a n m. true;
  find_unmapped_range = λ start n alignment m. some start;
  map_range = λ a n m. (m, true);
  unmap = λ a n m. (m, true);
  fill_zero = λ a n m. (m, true);
  read = λ a n m. some [];
  write = λ a bytes m. (m + 1, true);
}

abbrev the_owner : Owner
the_owner = (7, 0x1000, 0x100)

-- A space of 0x100 bytes at 0x1000, of which 0x20 are allocated.
abbrev a_space : Mspace
a_space = record {
  memory = 7;
  base_address = 0x1000;
  size = 0x100;
  current_in_use = 0x20;
  maximum_in_use = 0x20;
  free_ranges = (0x1060, 0xA0) ∷ [];
  allocations = (0x1040, record { memory = 7; size = 0x20; alignment = 16 }) ∷ [];
}

a_space-Inv : Inv the_owner 0x1040 0x1100 a_space
a_space-Inv = record {
  identity = refl;
  free_spaced = (omega arith, omega arith, tt);
  allocations_spaced = (omega arith, omega arith, tt);
  partition = λ a. ground arith;
  in_use = refl;
  peak = omega arith;
}

allocate_mspace_locked_lem_example :
    Allocated the_owner 0x1040 0x1100 5 64
      (a_space, 1)
      (allocate_mspace_locked open_memory 5 64 true (a_space, 1, 0))
allocate_mspace_locked_lem_example =
    allocate_mspace_locked_lem open_memory the_owner 0x1040 0x1100 5 64 true a_space 1 0
      (omega arith) (omega arith) a_space-Inv

refused_there : (allocate_mspace_locked open_memory 0x90 64 false (a_space, 1, 0)).1 ≡ no_resources
unfolding allocate_mspace_locked find_fit fit align_up
refused_there = refl

no_room_lem_example : 0x1060 + 0xA0 < 0x1080 + 0x90
unfolding Assoc.find
no_room_lem_example =
    no_room_lem open_memory the_owner 0x1040 0x1100 0x90 64 0x1080 0x1060 0xA0 false a_space 1 0
      (omega arith) (omega arith) a_space-Inv (omega arith) refused_there refl (omega arith) refl

release_mspace_locked_lem_example :
    Released the_owner 0x1040 0x1100 0x1040 (a_space, 1) (release_mspace_locked 0x1040 (a_space, 1))
release_mspace_locked_lem_example =
    release_mspace_locked_lem the_owner 0x1040 0x1100 0x1040 1 a_space a_space-Inv

reallocate_in_lem_example :
    Reallocated the_owner 0x1040 0x1100 0x1040 0x40 16
      (a_space, 1)
      (reallocate_in open_memory 0x1040 0x40 16 (a_space, 1, 0))
reallocate_in_lem_example =
    reallocate_in_lem open_memory the_owner 0x1040 0x1100 0x1040 0x40 16 a_space 1 0 (omega arith)
      (omega arith) (omega arith) (omega arith) a_space-Inv

copy_chunks_settled_example :
    copy_chunks open_memory 5000 0x1040 0x2000 5000 0
    ≡ copy_chunks open_memory 6000 0x1040 0x2000 5000 0
copy_chunks_settled_example =
    copy_chunks_settled open_memory 5000 6000 0x1040 0x2000 5000 0 (omega arith) (omega arith)

abbrev some_calls : List Call
some_calls =
    creates 7 0x1000 0x100
    ∷ allocates 7 0x1000 0x20 16 false
    ∷ reallocates 7 0x1000 0x1040 0x40 64
    ∷ releases 7 0x1000 0x1040
    ∷ []

perform_all-HeapInv_example : HeapInv (perform_all (λ k. open_memory) some_calls (new_heap, 0)).0
perform_all-HeapInv_example =
    perform_all-HeapInv (λ k. open_memory) some_calls 0 (tt, (omega arith, (omega arith, (tt, tt))))
