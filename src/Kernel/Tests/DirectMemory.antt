-- ===== src/Kernel/Tests/DirectMemory.antt =====
-- Direct memory at concrete inputs.
use kaj_ps.Base.{
  ℕ, if◌then◌else◌, ◌+◌, ◌-◌, ◌≡◌, refl, true, some, List, [], ◌∷◌, arith, ltb, bit, ◌≤◌,
}
use kaj_ps.Base.Int.{pos}
use kaj_ps.Kernel.DirectMemory.Ranges.{covers, floor}
use kaj_ps.Kernel.DirectMemory.Mappings.{Fits, mapped_count, translate}
use kaj_ps.Kernel.DirectMemory.{
  DirectMemory, new, direct_memory_size, allocate, release, register_mapping, unregister_mappings,
  contains_allocated_range,
}
use kaj_ps.Kernel.DirectMemory.Backing.{SharedMemoryBacking, byte_at}
use kaj_ps.Kernel.DirectMemory.Ranges.{within}
use kaj_ps.Kernel.DirectMemory.Bytes.{read, write}
use kaj_ps.Kernel.DirectMemory.RoundTrip.{read-write}
use kaj_ps.Kernel.DirectMemory.Inv.{Inv, same_size, allocated}
use kaj_ps.Kernel.DirectMemory.Allocate.{Served, allocate_lem}
use kaj_ps.Kernel.DirectMemory.Release.{Released, release_lem}
use kaj_ps.Kernel.DirectMemory.Registry.{
  contains_beyond, Registered, register_mapping_lem, unregister_mappings_lem, Call, allocates,
  registers, unregisters, releases, perform_all, perform_all-Inv,
}

-- The first 0x8000 bytes are allocated, and mapped at 0x100000.
abbrev used : DirectMemory
used = record {
  allocations = (0, record { size = 0x8000; memory_type = pos 3 }) ∷ [];
  free_ranges = (0x8000, direct_memory_size - 0x8000) ∷ [];
  mappings = record { guest_address = 0x100000; physical_address = 0; size = 0x8000 } ∷ [];
  backing = record { size = direct_memory_size; pages = [] };
}

used-Inv : Inv used
used-Inv = record {
  free_spaced = (omega arith, omega arith, tt);
  allocations_spaced = (omega arith, omega arith, tt);
  partition = λ a. ground arith;
  backed = refl;
  paged = tt;
  mapped = (omega arith, omega arith, tt);
  apart = λ a. ground arith;
}

allocate_lem_example :
    Served 0 0x100000 0x4000 0x4000 used (allocate 0 0x100000 0x4000 0x4000 (pos 0) used)
allocate_lem_example = allocate_lem 0 0x100000 0x4000 0x4000 (pos 0) used used-Inv

release_lem_example : Released 0x4000 0x4000 used (release 0x4000 0x4000 used)
release_lem_example = release_lem 0x4000 0x4000 used used-Inv

contains_beyond_example :
    (contains_allocated_range 0x10000 0x4000 used ≡ true)
    × (covers allocated 0x10000 used.allocations ≡ 0)
unfolding floor
contains_beyond_example =
    contains_beyond 0x10000 0x4000 0 (record { size = 0x8000; memory_type = pos 3 }) used used-Inv
      refl refl (omega arith)

register_mapping_lem_example :
    Registered 0x200000 0x4000 0x4000 used (register_mapping 0x200000 0x4000 0x4000 used)
register_mapping_lem_example = register_mapping_lem 0x200000 0x4000 0x4000 used used-Inv

unregister_mappings_lem_example :
    Inv (unregister_mappings 0x101000 0x1000 used)
    × (translate 0x103000 (unregister_mappings 0x101000 0x1000 used).mappings ≡ some 0x3000)
unregister_mappings_lem_example =
    unregister_mappings_lem 0x101000 0x1000 0x103000 used used-Inv (omega arith)

abbrev history : List Call
history =
    allocates 0 0x100000 0x8000 0x4000 (pos 0)
    ∷ registers 0x100000 0 0x8000
    ∷ unregisters 0x100000 0x8000
    ∷ releases 0x4000 0x4000
    ∷ []

perform_all-Inv_example :
    let d = perform_all history new in
    (covers same_size 0x4000 d.free_ranges + covers allocated 0x4000 d.allocations
      ≡ bit (ltb 0x4000 direct_memory_size))
    × (mapped_count 0x4000 d.mappings ≤ 1)
    × Fits direct_memory_size d.mappings
perform_all-Inv_example = perform_all-Inv history 0x4000

abbrev blank : SharedMemoryBacking
blank = record { size = 0x10000; pages = [] }

-- Four bytes over the border of two pages.
read-write_example :
    let (b', done) = write 0x3FFE 4 (λ i. i + 1) blank in
    (done ≡ true)
    × (b'.size ≡ blank.size)
    × ((destination : ℕ → ℕ) (i : ℕ)
        → (read 0x3FFE 4 destination b').0 i ≡ (if ltb i 4 then i + 1 else destination i))
    × ((a : ℕ)
        → byte_at a b'.pages
          ≡ (if within 0x3FFE 4 a then a - 0x3FFE + 1 else byte_at a blank.pages))
read-write_example = read-write 0x3FFE 4 (λ i. i + 1) blank (omega arith)
