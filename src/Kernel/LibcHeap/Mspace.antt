-- ===== src/Kernel/LibcHeap/Mspace.antt =====
-- The memory spaces of src/kernel/libc_heap.cpp: the ranges of one Mspace, AlignUp, AddFreeRange, and
-- the methods that work on one space.
use Prim.Native.Nat.{bit_and}
use kaj_ps.Base.{
  ℕ, zero, suc, ◌+◌, ◌-◌, ◌^◌, Bool, true, false, not, ◌&&◌, ◌||◌, Option, none, some, List, [],
  ◌∷◌, ◌==◌, ltb, leb, min, max, if◌then◌else◌,
}
use kaj_ps.Base.Assoc
use kaj_ps.Kernel.Status.{KernelStatus, kernel_ok, invalid_argument, not_found, no_resources}
use kaj_ps.Kernel.DirectMemory.Ranges.{floor}
use kaj_ps.Kernel.LibcHeap.Memory.{GuestMemoryCalls}

abbrev pub default_libc_heap_alignment : ℕ
default_libc_heap_alignment = 16

abbrev pub maximum_libc_heap_allocations : ℕ
maximum_libc_heap_allocations = 262144

abbrev pub heap_copy_chunk_size : ℕ
heap_copy_chunk_size = 4096

-- An allocation; `memory` tells the guest memories apart.
pub record HeapAllocation : Type 0 where
  pub memory : ℕ
  pub size : ℕ
  pub alignment : ℕ

pub record Mspace : Type 0 where
  pub memory : ℕ
  pub base_address : ℕ
  pub size : ℕ
  pub current_in_use : ℕ
  pub maximum_in_use : ℕ
  pub free_ranges : List (ℕ × ℕ)
  pub allocations : List (ℕ × HeapAllocation)

-- IsPowerOfTwo
abbrev pub is_power_of_two : ℕ → Bool
is_power_of_two a = not (a == 0) && (bit_and a (a - 1) == 0)

-- AlignUp
unfoldable pub align_up : ℕ → ℕ → Option ℕ
align_up value alignment =
    let mask = alignment - 1 in
    if not (is_power_of_two alignment)
    then none
    else if ltb (2 ^ 64 - 1 - mask) value
    then none
    else some (bit_and (value + mask) (2 ^ 64 - 1 - mask))

-- The address at which a free range takes an allocation.
unfoldable pub fit : ℕ → ℕ → ℕ × ℕ → Option ℕ
fit alignment size (s, n) = elim (align_up s alignment) [
  | none ↦ none
  | some address ↦
      let prefix = address - s in
      if ltb address s || ltb n prefix || ltb (n - prefix) size then none else some address
]

-- The search of AllocateMspaceLocked: the first free range that takes it, and the address.
unfoldable pub find_fit : ℕ → ℕ → List (ℕ × ℕ) → Option ((ℕ × ℕ) × ℕ)
find_fit alignment size [] = none
find_fit alignment size (range ∷ ranges) =
    let rest = find_fit alignment size ranges in
    elim (fit alignment size range) [ none ↦ rest | some address ↦ some (range, address) ]

-- What AllocateMspaceLocked leaves of a free range around the new allocation.
unfoldable pub cut_range : ℕ × ℕ → ℕ → ℕ → List (ℕ × ℕ) → List (ℕ × ℕ)
cut_range (s, n) address size free =
    let prefix = address - s in
    let suffix_address = address + size in
    let suffix_size = n - prefix - size in
    if not (prefix == 0) && not (suffix_size == 0)
    then Assoc.update s prefix (Assoc.emplace suffix_address suffix_size free)
    else if not (prefix == 0)
    then Assoc.update s prefix free
    else if not (suffix_size == 0)
    then Assoc.emplace suffix_address suffix_size (Assoc.erase s free)
    else Assoc.erase s free

-- The state change of a successful AllocateMspaceLocked.
unfoldable pub take_range : ℕ × ℕ → ℕ → ℕ → ℕ → Mspace → Mspace
take_range range address size alignment m = record m {
  allocations =
      Assoc.emplace address (record { memory = m.memory; size = size; alignment = alignment })
        m.allocations;
  free_ranges = cut_range range address size m.free_ranges;
  current_in_use = m.current_in_use + size;
  maximum_in_use = max m.maximum_in_use (m.current_in_use + size);
}

-- The entry before lower_bound.
unfoldable pub previous_range : ℕ → List (ℕ × ℕ) → Option (ℕ × ℕ)
previous_range address free = if address == 0 then none else floor (address - 1) free

-- The step of AddFreeRange that joins the range that ends at the new one.
unfoldable pub join_before : ℕ → ℕ → List (ℕ × ℕ) → ℕ × ℕ × List (ℕ × ℕ)
join_before address size free = elim (previous_range address free) [
  | none ↦ (address, size, free)
  | some (s, n) ↦
      if s + n == address then (s, size + n, Assoc.erase s free) else (address, size, free)
]

-- lower_bound: the first entry whose key is `address` or more.
unfoldable pub next_range : ℕ → List (ℕ × ℕ) → Option (ℕ × ℕ)
next_range address [] = none
next_range address ((s, n) ∷ free) =
    let later = next_range address free in if leb address s then some (s, n) else later

-- The step that joins the range that the new one ends at.
unfoldable pub join_after : ℕ → ℕ → List (ℕ × ℕ) → ℕ × List (ℕ × ℕ)
join_after address size free = elim (next_range address free) [
  | none ↦ (size, free)
  | some (s, n) ↦ if address + size == s then (size + n, Assoc.erase s free) else (size, free)
]

-- AddFreeRange
unfoldable pub add_free_range : ℕ → ℕ → List (ℕ × ℕ) → List (ℕ × ℕ)
add_free_range address size free =
    let (first, joined, others) = join_before address size free in
    let (whole, kept) = join_after first joined others in
    if size == 0 then free else Assoc.emplace first whole kept

-- ReleaseMspaceLocked of an allocation that is there.
unfoldable pub give_range : ℕ → ℕ → Mspace → Mspace
give_range address size m = record m {
  allocations = Assoc.erase address m.allocations;
  free_ranges = add_free_range address size m.free_ranges;
  current_in_use = m.current_in_use - size;
}

-- A space, the count of the allocations of all spaces, and the guest's memory.
abbrev pub Space {ℓ} : Type ℓ → Type ℓ
Space M = Mspace × ℕ × M

-- ReleaseMspaceLocked
unfoldable pub release_mspace_locked : ℕ → Mspace × ℕ → (Mspace × ℕ) × KernelStatus
release_mspace_locked address (m, total) =
    if address == 0 then ((m, total), kernel_ok) else elim (Assoc.find address m.allocations) [
      | none ↦ ((m, total), not_found)
      | some a ↦ ((give_range address a.size m, total - 1), kernel_ok)
    ]

module _ {ℓ} {M : Type ℓ} (calls : GuestMemoryCalls M) where
  -- The end of AllocateMspaceLocked, where the place is found.
  abbrev pub finish_allocation : ℕ × ℕ → ℕ → ℕ → ℕ → Bool → Space M → Space M × KernelStatus × ℕ × ℕ
  finish_allocation range address size alignment zero_fill (m, total, memory) =
      let taken = take_range range address size alignment m in
      let (filled, done) = calls.fill_zero address size memory in
      let (released, _) = release_mspace_locked address (taken, suc total) in
      if Assoc.is_some (Assoc.find address m.allocations)
      then ((m, total, memory), no_resources, 0, 0)
      else if not zero_fill
      then ((taken, suc total, memory), kernel_ok, address, size)
      else if done
      then ((taken, suc total, filled), kernel_ok, address, size)
      else ((released.0, released.1, filled), invalid_argument, 0, 0)

  -- AllocateMspaceLocked
  unfoldable pub allocate_mspace_locked : ℕ → ℕ → Bool → Space M → Space M × KernelStatus × ℕ × ℕ
  allocate_mspace_locked requested_size alignment zero_fill (m, total, memory) =
      let aligned = max alignment default_libc_heap_alignment in
      let size : ℕ = if requested_size == 0 then 1 else requested_size in
      if not (is_power_of_two alignment)
      then ((m, total, memory), invalid_argument, 0, 0)
      else if leb maximum_libc_heap_allocations total
      then ((m, total, memory), no_resources, 0, 0)
      else elim (find_fit aligned size m.free_ranges) [
        | none ↦ ((m, total, memory), no_resources, 0, 0)
        | some (range, address) ↦
            finish_allocation range address size aligned zero_fill (m, total, memory)
      ]

  -- The loop that copies an allocation in chunks; the fuel is a bound on the bytes left.
  unfoldable pub copy_chunks : ℕ → ℕ → ℕ → ℕ → M → M × Bool
  copy_chunks zero from to left memory = (memory, left == 0)
  copy_chunks (suc fuel) from to left memory =
      let chunk = min heap_copy_chunk_size left in
      elim (left == 0) [
        | true ↦ (memory, true)
        | false ↦ elim (calls.read from chunk memory) [
          | none ↦ (memory, false)
          | some bytes ↦
              let (written, done) = calls.write to bytes memory in
              elim done [
                | true ↦ copy_chunks fuel (from + chunk) (to + chunk) (left - chunk) written
                | false ↦ (written, false)
              ]
        ]
      ]
