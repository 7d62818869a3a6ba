-- ===== src/Kernel/DirectMemory.antt =====
-- src/kernel/direct_memory.h and src/kernel/direct_memory.cpp: DirectMemoryService. The mutex makes
-- each method one step. Addresses and sizes are 64-bit; where the source's sum or difference can
-- leave that type, the wrap-around is written out, and the invariant bounds the others by the size
-- of the memory.
pub mod Ranges
pub mod Inv
pub mod Allocate
pub mod Release
pub mod Registry
pub mod Backing
pub mod Bytes
pub mod Chunks
pub mod RoundTrip
pub mod Mappings
use kaj_ps.Base.{
  ◌++◌, ℕ, ◌+◌, ◌-◌, ◌%◌, ◌^◌, Bool, true, false, not, ◌&&◌, ◌||◌, Option, none, some, List, [],
  ◌∷◌, ltb, leb, ◌==◌, if◌then◌else◌, min, max, length,
}
use kaj_ps.Base.Int.{ℤ, pos, negsuc}
use kaj_ps.Base.Assoc
use kaj_ps.Kernel.Status.{
  KernelStatus, kernel_ok, invalid_argument, not_found, busy, permission_denied, no_resources,
}
use kaj_ps.Kernel.DirectMemory.Ranges.{floor, from_floor}
use kaj_ps.Kernel.DirectMemory.Backing
use kaj_ps.Kernel.DirectMemory.Backing.{SharedMemoryBacking}
use kaj_ps.Kernel.DirectMemory.Mappings.{
  DirectMemoryMapping, unregister, meets_physical, meets_guest,
}

abbrev pub direct_memory_size : ℕ
direct_memory_size = 0x360000000

abbrev pub maximum_direct_memory_allocations : ℕ
maximum_direct_memory_allocations = 262144

abbrev pub maximum_direct_memory_mappings : ℕ
maximum_direct_memory_mappings = 262144

pub record Allocation : Type 0 where
  pub size : ℕ
  pub memory_type : ℤ

pub record DirectMemory : Type 0 where
  pub allocations : List (ℕ × Allocation)
  pub free_ranges : List (ℕ × ℕ)
  pub mappings : List DirectMemoryMapping
  pub backing : SharedMemoryBacking

-- The constructor.
unfoldable pub new : DirectMemory
new = record {
  allocations = [];
  free_ranges = (0, direct_memory_size) ∷ [];
  mappings = [];
  backing = record { size = direct_memory_size; pages = [] };
}

-- AlignUp
unfoldable pub align_up : ℕ → ℕ → Option ℕ
align_up value alignment =
    let remainder = value % alignment in
    let increment = if remainder == 0 then 0 else alignment - remainder in
    if alignment == 0
    then some value
    else if ltb (2 ^ 64 - 1 - value) increment
    then none
    else some (value + increment)

-- One turn of the loop of Available, from the best address and size so far.
unfoldable pub better : ℕ → ℕ → ℕ → ℕ × ℕ → ℕ × ℕ → ℕ × ℕ
better search_start bounded_end alignment (s, n) (address, size) =
    let lower_bound = max s search_start in
    let clipped_end = min (s + n) bounded_end in
    elim (align_up lower_bound alignment) [
      | none ↦ (address, size)
      | some aligned ↦
          if ltb aligned lower_bound || leb clipped_end aligned || leb (clipped_end - aligned) size
          then (address, size)
          else (aligned, clipped_end - aligned)
    ]

-- The loop of Available.
unfoldable pub best_range : ℕ → ℕ → ℕ → ℕ × ℕ → List (ℕ × ℕ) → ℕ × ℕ
best_range search_start bounded_end alignment best [] = best
best_range search_start bounded_end alignment best (range ∷ ranges) =
    let next = better search_start bounded_end alignment range best in
    let rest = best_range search_start bounded_end alignment next ranges in
    if leb bounded_end range.0 then best else rest

-- Available
unfoldable pub available : ℕ → ℕ → ℕ → DirectMemory → KernelStatus × ℕ × ℕ
available search_start search_end alignment d =
    let bounded_end = min search_end direct_memory_size in
    let (address, size) = best_range search_start bounded_end alignment (0, 0) d.free_ranges in
    if leb search_end search_start
    then (invalid_argument, 0, 0)
    else if leb bounded_end search_start
    then (no_resources, 0, 0)
    else if size == 0
    then (no_resources, 0, 0)
    else (kernel_ok, address, size)

-- The place that the loop of Allocate looks for in one free range.
unfoldable pub place : ℕ → ℕ → ℕ → ℕ → ℕ × ℕ → Option ℕ
place search_start bounded_end count alignment (s, n) =
    let range_end = min (s + n) bounded_end in
    let lower_bound = max s search_start in
    elim (align_up lower_bound alignment) [
      | none ↦ none
      | some aligned ↦
          if ltb aligned lower_bound || ltb range_end aligned || ltb (range_end - aligned) count
          then none
          else some aligned
    ]

-- The loop of Allocate: the range it stops at and the place there.
unfoldable pub first_fit : ℕ → ℕ → ℕ → ℕ → List (ℕ × ℕ) → Option ((ℕ × ℕ) × ℕ)
first_fit search_start bounded_end count alignment [] = none
first_fit search_start bounded_end count alignment (range ∷ ranges) =
    let rest = first_fit search_start bounded_end count alignment ranges in
    if not (ltb range.0 bounded_end)
    then none
    else elim (place search_start bounded_end count alignment range) [
      | none ↦ rest
      | some selected ↦ some (range, selected)
    ]

-- The parts of a range [s, e) that are left around [start, end).
abbrev pub emplace_if {ℓ} : {V : Type ℓ} → Bool → ℕ → V → List (ℕ × V) → List (ℕ × V)
emplace_if b k v m = if b then Assoc.emplace k v m else m

-- ConsumeFreeRange
unfoldable pub consume_free_range : ℕ × ℕ → ℕ → ℕ → List (ℕ × ℕ) → List (ℕ × ℕ)
consume_free_range (s, n) start count free =
    emplace_if (ltb (start + count) (s + n)) (start + count) (s + n - start - count)
      (emplace_if (ltb s start) s (start - s) (Assoc.erase s free))

-- The end of Allocate, at the place found.
unfoldable pub take : ℕ × ℕ → ℕ → ℕ → ℤ → DirectMemory → DirectMemory
take range selected count memory_type d = record d {
  allocations =
      Assoc.emplace selected (record { size = count; memory_type = memory_type }) d.allocations;
  free_ranges = consume_free_range range selected count d.free_ranges;
}

-- Allocate
unfoldable pub allocate : ℕ → ℕ → ℕ → ℕ → ℤ → DirectMemory → DirectMemory × KernelStatus × ℕ × ℕ
allocate search_start search_end count alignment memory_type d =
    let bounded_end = min search_end direct_memory_size in
    if (count == 0) || leb search_end search_start
    then (d, invalid_argument, 0, 0)
    else if leb bounded_end search_start
    then (d, no_resources, 0, 0)
    else if leb maximum_direct_memory_allocations (length d.allocations)
    then (d, no_resources, 0, 0)
    else elim (first_fit search_start bounded_end count alignment
        (from_floor search_start d.free_ranges)) [
          | none ↦ (d, no_resources, 0, 0)
          | some (range, selected) ↦
              (take range selected count memory_type d, kernel_ok, selected, count)
        ]

-- The entry before lower_bound.
unfoldable pub previous : ℕ → List (ℕ × ℕ) → Option (ℕ × ℕ)
previous start free = if start == 0 then none else floor (start - 1) free

-- The step of AddFreeRange that joins the range before, which ends at `start` or later.
unfoldable pub join_previous : ℕ → ℕ → List (ℕ × ℕ) → ℕ × ℕ × List (ℕ × ℕ)
join_previous start end free = elim (previous start free) [
  | none ↦ (start, end, free)
  | some (s, n) ↦
      if leb start (s + n) then (s, max end (s + n), Assoc.erase s free) else (start, end, free)
]

-- The loop of AddFreeRange, from the first range that does not lie before `start`.
unfoldable pub join_next : ℕ → ℕ → List (ℕ × ℕ) → ℕ × List (ℕ × ℕ)
join_next start end [] = (end, [])
join_next start end ((s, n) ∷ free) =
    let (skipped_end, skipped) = join_next start end free in
    let joined = join_next start (max end (s + n)) free in
    if ltb s start
    then (skipped_end, (s, n) ∷ skipped)
    else if leb s end
    then joined
    else (end, (s, n) ∷ free)

-- AddFreeRange
unfoldable pub add_free_range : ℕ → ℕ → List (ℕ × ℕ) → List (ℕ × ℕ)
add_free_range start count free =
    let (first, end, others) = join_previous start (start + count) free in
    let (last, kept) = join_next first end others in Assoc.emplace first (last - first) kept

-- HasMappedPhysicalOverlapLocked
unfoldable pub has_mapped_physical_overlap : ℕ → ℕ → List DirectMemoryMapping → Bool
has_mapped_physical_overlap start count [] = false
has_mapped_physical_overlap start count (mapping ∷ mappings) =
    meets_physical start (start + count) mapping || has_mapped_physical_overlap start count mappings

-- The end of Release: what is left of the owner's allocation, and the freed range.
unfoldable pub give_back : ℕ → Allocation → ℕ → ℕ → DirectMemory → DirectMemory
give_back s a start count d = record d {
  allocations =
      emplace_if (ltb (start + count) (s + a.size)) (start + count)
        (record a { size = s + a.size - (start + count) })
        (emplace_if (ltb s start) s (record a { size = start - s }) (Assoc.erase s d.allocations));
  free_ranges = add_free_range start count d.free_ranges;
  backing = Backing.clear start count d.backing;
}

-- Release behind its checks of the range, by the allocation that starts at `start` or last before it.
abbrev pub release_from :
    ℕ → ℕ → Option (ℕ × Allocation) → DirectMemory → DirectMemory × KernelStatus
release_from start count none d = (d, not_found)
release_from start count (some (s, a)) d =
    if ltb start s || ltb (s + a.size) (start + count)
    then (d, not_found)
    else if ltb s start
        && ltb (start + count) (s + a.size)
        && leb maximum_direct_memory_allocations (length d.allocations)
    then (d, no_resources)
    else (give_back s a start count d, kernel_ok)

abbrev pub is_outside : ℕ → ℕ → Bool
is_outside start count =
    (count == 0) || leb direct_memory_size start || ltb (direct_memory_size - start) count

-- Release
unfoldable pub release : ℕ → ℕ → DirectMemory → DirectMemory × KernelStatus
release start count d =
    if is_outside start count
    then (d, invalid_argument)
    else if has_mapped_physical_overlap start count d.mappings
    then (d, busy)
    else release_from start count (floor start d.allocations) d

-- ContainsAllocatedRangeLocked; the difference is one of 64-bit numbers.
unfoldable pub contains_allocated_range_locked : ℕ → ℕ → List (ℕ × Allocation) → Bool
contains_allocated_range_locked start count allocations = elim (floor start allocations) [
  | none ↦ false
  | some (s, a) ↦ leb s start && leb count ((s + a.size + (2 ^ 64 - start)) % 2 ^ 64)
]

-- ContainsAllocatedRange
unfoldable pub contains_allocated_range : ℕ → ℕ → DirectMemory → Bool
contains_allocated_range start count d =
    if is_outside start count
    then false
    else contains_allocated_range_locked start count d.allocations

-- The loop of RegisterMapping.
unfoldable pub has_mapped_guest_overlap : ℕ → ℕ → List DirectMemoryMapping → Bool
has_mapped_guest_overlap start end [] = false
has_mapped_guest_overlap start end (mapping ∷ mappings) =
    meets_guest start end mapping || has_mapped_guest_overlap start end mappings

abbrev pub is_bad_mapping : ℕ → ℕ → ℕ → Bool
is_bad_mapping guest physical count =
    (guest == 0)
    || (count == 0)
    || ltb (2 ^ 64 - 1 - guest) count
    || leb direct_memory_size physical
    || ltb (direct_memory_size - physical) count

-- RegisterMapping
unfoldable pub register_mapping : ℕ → ℕ → ℕ → DirectMemory → DirectMemory × KernelStatus
register_mapping guest physical count d =
    if is_bad_mapping guest physical count
    then (d, invalid_argument)
    else if not (contains_allocated_range_locked physical count d.allocations)
    then (d, not_found)
    else if leb maximum_direct_memory_mappings (length d.mappings)
    then (d, no_resources)
    else if has_mapped_guest_overlap guest (guest + count) d.mappings
    then (d, busy)
    else (
      record d {
        mappings =
            d.mappings
            ++ (record { guest_address = guest; physical_address = physical; size = count } ∷ []);
      },
      kernel_ok,
    )

-- UnregisterMappings
unfoldable pub unregister_mappings : ℕ → ℕ → DirectMemory → DirectMemory
unregister_mappings guest count d =
    if (count == 0) || ltb (2 ^ 64 - 1 - guest) count
    then d
    else record d { mappings = unregister guest (guest + count) d.mappings }
