-- ===== src/Kernel/LibcHeap/Service.antt =====
-- The service of src/kernel/libc_heap.cpp: the heap's own allocations, and the table of memory spaces.
-- `here` tells which of the guest memories a call names; `memory` is that memory's state.
use kaj_ps.Base.{
  ℕ, ◌+◌, ◌-◌, ◌^◌, Bool, true, false, not, ◌&&◌, ◌||◌, Option, none, some, List, [], ◌∷◌, ◌==◌,
  ltb, leb, min, max, if◌then◌else◌, length,
}
use kaj_ps.Base.Assoc
use kaj_ps.Kernel.Status.{KernelStatus, kernel_ok, invalid_argument, not_found, busy, no_resources}
use kaj_ps.Kernel.LibcHeap.Memory.{GuestMemoryCalls}
use kaj_ps.Kernel.LibcHeap.Mspace.{
  Mspace, HeapAllocation, Space, align_up, is_power_of_two, default_libc_heap_alignment,
  maximum_libc_heap_allocations, allocate_mspace_locked, release_mspace_locked, copy_chunks,
}
use kaj_ps.Kernel.LibcHeap.Resize.{reallocate_in}

abbrev pub maximum_libc_mspaces : ℕ
maximum_libc_mspaces = 256

abbrev pub libc_mspace_metadata_bytes : ℕ
libc_mspace_metadata_bytes = 64

pub record LibcHeap : Type 0 where
  pub allocations : List (ℕ × HeapAllocation)
  pub mspaces : List (ℕ × Mspace)
  pub mspace_allocation_count : ℕ

unfoldable pub new_heap : LibcHeap
new_heap = record { allocations = []; mspaces = []; mspace_allocation_count = 0 }

-- An allocation of the memory that the call names.
abbrev pub owned : ℕ → Option HeapAllocation → Option HeapAllocation
owned here none = none
owned here (some a) = if a.memory == here then some a else none

abbrev pub owned_space : ℕ → Option Mspace → Option Mspace
owned_space here none = none
owned_space here (some m) = if m.memory == here then some m else none

abbrev pub find_space : ℕ → ℕ → LibcHeap → Option Mspace
find_space here handle h = owned_space here (Assoc.find handle h.mspaces)

-- The overlap test of CreateMspace, over all spaces of the same memory.
unfoldable pub overlaps_space : ℕ → ℕ → ℕ → List (ℕ × Mspace) → Bool
overlaps_space here base end [] = false
overlaps_space here base end ((k, m) ∷ ms) =
    (m.memory == here) && ltb base (m.base_address + m.size) && ltb m.base_address end
    || overlaps_space here base end ms

abbrev pub new_mspace : ℕ → ℕ → ℕ → ℕ → Mspace
new_mspace here base size first = record {
  memory = here;
  base_address = base;
  size = size;
  current_in_use = 0;
  maximum_in_use = 0;
  free_ranges = (first, base + size - first) ∷ [];
  allocations = [];
}

-- The loop of UsableSize over the spaces of the same memory.
unfoldable pub size_in_spaces : ℕ → ℕ → List (ℕ × Mspace) → Option ℕ
size_in_spaces here address [] = none
size_in_spaces here address ((k, m) ∷ ms) =
    let later = size_in_spaces here address ms in
    if not (m.memory == here)
    then later
    else elim (Assoc.find address m.allocations) [ none ↦ later | some a ↦ some a.size ]

-- UsableSize
unfoldable pub usable_size : ℕ → ℕ → LibcHeap → Option ℕ
usable_size here address h =
    let in_spaces = size_in_spaces here address h.mspaces in
    elim (owned here (Assoc.find address h.allocations)) [ none ↦ in_spaces | some a ↦ some a.size ]

abbrev pub is_unused : List (ℕ × HeapAllocation) → Bool
is_unused [] = true
is_unused (a ∷ allocations) = false

-- MspaceStats: the capacity, the bytes in use and their maximum.
unfoldable pub mspace_stats : ℕ → ℕ → LibcHeap → Option (ℕ × ℕ × ℕ)
mspace_stats here handle h = elim (find_space here handle h) [
  | none ↦ none
  | some m ↦ some (m.size, m.current_in_use, m.maximum_in_use)
]

-- MspaceIsEmpty
unfoldable pub mspace_is_empty : ℕ → ℕ → LibcHeap → Option Bool
mspace_is_empty here handle h = elim (find_space here handle h) [
  | none ↦ none
  | some m ↦ some (is_unused m.allocations)
]

module _ {ℓ} {M : Type ℓ} (calls : GuestMemoryCalls M) (here : ℕ) where
  abbrev pub Reply : Type ℓ
  Reply = (LibcHeap × M) × KernelStatus × ℕ × ℕ

  -- AllocateLocked where a range is found: it is mapped, cleared and noted, or unmapped again.
  abbrev pub allocate_at : ℕ → ℕ → ℕ → Bool → LibcHeap → M → Reply
  allocate_at address size alignment zero_fill h memory =
      let (mapped, is_mapped) = calls.map_range address size memory in
      let (filled, is_filled) = calls.fill_zero address size mapped in
      let prepared = if zero_fill then filled else mapped in
      let entry : HeapAllocation = record { memory = here; size = size; alignment = alignment } in
      if not is_mapped
      then ((h, mapped), no_resources, 0, 0)
      else if zero_fill && not is_filled
      then ((h, (calls.unmap address size filled).0), invalid_argument, 0, 0)
      else if Assoc.is_some (Assoc.find address h.allocations)
      then ((h, (calls.unmap address size prepared).0), no_resources, 0, 0)
      else (
        (record h { allocations = Assoc.emplace address entry h.allocations }, prepared),
        kernel_ok,
        address,
        size,
      )

  -- AllocateLocked
  unfoldable pub allocate_locked : ℕ → ℕ → Bool → LibcHeap → M → Reply
  allocate_locked requested_size alignment zero_fill h memory =
      let aligned = max alignment default_libc_heap_alignment in
      let size : ℕ = if requested_size == 0 then 1 else requested_size in
      let base = calls.base_address memory in
      let search_start = if base == 0 then aligned else base in
      if not (is_power_of_two alignment)
      then ((h, memory), invalid_argument, 0, 0)
      else if leb maximum_libc_heap_allocations (length h.allocations)
      then ((h, memory), no_resources, 0, 0)
      else elim (calls.find_unmapped_range search_start size aligned memory) [
        | none ↦ ((h, memory), no_resources, 0, 0)
        | some address ↦ allocate_at address size aligned zero_fill h memory
      ]

  abbrev pub without : ℕ → LibcHeap → LibcHeap
  without address h = record h { allocations = Assoc.erase address h.allocations }

  -- Release of an allocation that is there.
  abbrev pub release_found :
      ℕ → Option HeapAllocation → LibcHeap → M → (LibcHeap × M) × KernelStatus
  release_found address none h memory = ((h, memory), not_found)
  release_found address (some a) h memory =
      let (unmapped, done) = calls.unmap address a.size memory in
      if done then ((without address h, unmapped), kernel_ok) else ((h, unmapped), invalid_argument)

  -- Release
  unfoldable pub release_heap : ℕ → LibcHeap → M → (LibcHeap × M) × KernelStatus
  release_heap address h memory =
      if address == 0
      then ((h, memory), kernel_ok)
      else release_found address (owned here (Assoc.find address h.allocations)) h memory

  -- The end of Reallocate, by the answer to the new allocation.
  abbrev pub move_allocation : ℕ → ℕ → Reply → Reply
  move_allocation address old_size ((h, memory), kernel_ok, place, size) =
      let count = min old_size size in
      let (copied, is_copied) = copy_chunks calls count address place count memory in
      let (unmapped, is_unmapped) = calls.unmap address old_size copied in
      if not is_copied
      then ((without place h, (calls.unmap place size copied).0), invalid_argument, 0, 0)
      else if not is_unmapped
      then ((without place h, (calls.unmap place size unmapped).0), invalid_argument, 0, 0)
      else ((without address h, unmapped), kernel_ok, place, size)
  move_allocation address old_size (state, status, place, size) = (state, status, place, size)

  abbrev pub reallocate_found : ℕ → ℕ → Option HeapAllocation → LibcHeap → M → Reply
  reallocate_found address size none h memory = ((h, memory), not_found, 0, 0)
  reallocate_found address size (some a) h memory =
      move_allocation address a.size (allocate_locked size a.alignment false h memory)

  -- Reallocate
  unfoldable pub reallocate_heap : ℕ → ℕ → LibcHeap → M → Reply
  reallocate_heap address size h memory =
      let (released, status) = release_heap address h memory in
      if address == 0
      then allocate_locked size default_libc_heap_alignment false h memory
      else if size == 0
      then (released, status, 0, 0)
      else reallocate_found address size (owned here (Assoc.find address h.allocations)) h memory

  -- The checks of CreateMspace before it takes the lock, and the first address of the space.
  unfoldable pub first_address : ℕ → ℕ → M → Option ℕ
  first_address base size memory =
      if (base == 0)
        || leb size libc_mspace_metadata_bytes
        || ltb (2 ^ 64 - 1 - size) base
        || not (calls.can_access base size memory)
      then none
      else elim (align_up (base + libc_mspace_metadata_bytes) default_libc_heap_alignment) [
        | none ↦ none
        | some first ↦ if leb (base + size) first then none else some first
      ]

  -- CreateMspace
  unfoldable pub create_mspace : ℕ → ℕ → LibcHeap → M → LibcHeap × KernelStatus × ℕ × ℕ
  create_mspace base size h memory = elim (first_address base size memory) [
    | none ↦ (h, invalid_argument, 0, 0)
    | some first ↦
        if leb maximum_libc_mspaces (length h.mspaces) || Assoc.is_some (Assoc.find base h.mspaces)
        then (h, no_resources, 0, 0)
        else if overlaps_space here base (base + size) h.mspaces
        then (h, invalid_argument, 0, 0)
        else (
          record h { mspaces = Assoc.emplace base (new_mspace here base size first) h.mspaces },
          kernel_ok,
          base,
          size,
        )
  ]

  -- DestroyMspace
  unfoldable pub destroy_mspace : ℕ → LibcHeap → LibcHeap × KernelStatus
  destroy_mspace handle h = elim (find_space here handle h) [
    | none ↦ (h, not_found)
    | some m ↦
        if not (is_unused m.allocations)
        then (h, busy)
        else (record h { mspaces = Assoc.erase handle h.mspaces }, kernel_ok)
  ]

  -- A method of one space as a method of the service.
  abbrev pub store_space : ℕ → Space M × KernelStatus × ℕ × ℕ → LibcHeap → Reply
  store_space handle ((m, total, memory), status, address, size) h = (
    (
      record h { mspaces = Assoc.update handle m h.mspaces; mspace_allocation_count = total },
      memory,
    ),
    status,
    address,
    size,
  )

  -- AllocateMspace
  unfoldable pub allocate_mspace : ℕ → ℕ → ℕ → Bool → LibcHeap → M → Reply
  allocate_mspace handle size alignment zero_fill h memory = elim (find_space here handle h) [
    | none ↦ ((h, memory), not_found, 0, 0)
    | some m ↦
        store_space handle
          (allocate_mspace_locked calls size alignment zero_fill
            (m, h.mspace_allocation_count, memory))
          h
  ]

  -- ReallocateMspace
  unfoldable pub reallocate_mspace : ℕ → ℕ → ℕ → ℕ → LibcHeap → M → Reply
  reallocate_mspace handle address size alignment h memory = elim (find_space here handle h) [
    | none ↦ ((h, memory), not_found, 0, 0)
    | some m ↦
        store_space handle
          (reallocate_in calls address size alignment (m, h.mspace_allocation_count, memory)) h
  ]

  -- ReleaseMspace
  unfoldable pub release_mspace : ℕ → ℕ → LibcHeap → LibcHeap × KernelStatus
  release_mspace handle address h = elim (find_space here handle h) [
    | none ↦ (h, not_found)
    | some m ↦
        let (space, status) = release_mspace_locked address (m, h.mspace_allocation_count) in
        (
          record h {
            mspaces = Assoc.update handle space.0 h.mspaces;
            mspace_allocation_count = space.1;
          },
          status,
        )
  ]
