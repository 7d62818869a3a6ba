-- ===== src/Kernel/LibcHeap/Resize.antt =====
-- ReallocateMspace of src/kernel/libc_heap.cpp behind its search for the space: an allocation shrinks or
-- grows where it is, or moves.
use kaj_ps.Base.{
  ℕ, ◌+◌, ◌-◌, ◌%◌, ◌^◌, false, not, ◌&&◌, ◌||◌, Option, none, some, ◌==◌, ltb, leb, min, max,
  if◌then◌else◌,
}
use kaj_ps.Base.Assoc
use kaj_ps.Kernel.Status.{KernelStatus, kernel_ok, invalid_argument, not_found}
use kaj_ps.Kernel.LibcHeap.Memory.{GuestMemoryCalls}
use kaj_ps.Kernel.LibcHeap.Mspace.{
  Mspace, HeapAllocation, Space, add_free_range, allocate_mspace_locked, release_mspace_locked,
  copy_chunks, is_power_of_two, default_libc_heap_alignment,
}

abbrev pub resized : ℕ → ℕ → HeapAllocation → HeapAllocation
resized size alignment a = record a { size = size; alignment = alignment }

-- The allocation gives its end back.
unfoldable pub shrink : ℕ → ℕ → ℕ → HeapAllocation → Mspace → Mspace
shrink address size alignment a m = record m {
  allocations = Assoc.update address (resized size alignment a) m.allocations;
  free_ranges = add_free_range (address + size) (a.size - size) m.free_ranges;
  current_in_use = m.current_in_use - (a.size - size);
}

-- The allocation takes the start of the free range behind it, of `n` bytes.
unfoldable pub grow : ℕ → ℕ → ℕ → HeapAllocation → ℕ → Mspace → Mspace
grow address size alignment a n m =
    let growth = size - a.size in
    let next = address + a.size in
    record m {
      allocations = Assoc.update address (resized size alignment a) m.allocations;
      free_ranges =
          let others = Assoc.erase next m.free_ranges in
          if n - growth == 0 then others else Assoc.emplace (next + growth) (n - growth) others;
      current_in_use = m.current_in_use + growth;
      maximum_in_use = max m.maximum_in_use (m.current_in_use + growth);
    }

-- The free range behind an allocation, where it suffices for the growth.
unfoldable pub room_behind : ℕ → ℕ → HeapAllocation → Mspace → Option ℕ
room_behind address size a m = elim (Assoc.find (address + a.size) m.free_ranges) [
  | none ↦ none
  | some n ↦
      let growth = size - a.size in
      if ltb (2 ^ 64 - 1 - a.size) address || (growth == 0) || ltb n growth then none else some n
]

module _ {ℓ} {M : Type ℓ} (calls : GuestMemoryCalls M) where
  -- The end of a move, by the answer to the new allocation.
  abbrev pub move_to : ℕ → ℕ → Space M × KernelStatus × ℕ × ℕ → Space M × KernelStatus × ℕ × ℕ
  move_to address old_size ((m, total, memory), kernel_ok, place, size) =
      let length = min old_size size in
      let (copied, done) = copy_chunks calls length address place length memory in
      let (undone, _) = release_mspace_locked place (m, total) in
      let (freed, _) = release_mspace_locked address (m, total) in
      if done
      then ((freed.0, freed.1, copied), kernel_ok, place, size)
      else ((undone.0, undone.1, copied), invalid_argument, 0, 0)
  move_to address old_size (space, status, place, size) = (space, status, place, size)

  -- ReallocateMspace of an allocation that is there, with the alignment it asks for.
  abbrev pub resize : ℕ → ℕ → ℕ → HeapAllocation → Space M → Space M × KernelStatus × ℕ × ℕ
  resize address size alignment a (m, total, memory) =
      if (address % alignment == 0) && leb size a.size
      then ((shrink address size alignment a m, total, memory), kernel_ok, address, size)
      else elim (if address % alignment == 0 then room_behind address size a m else none) [
        | some n ↦ ((grow address size alignment a n m, total, memory), kernel_ok, address, size)
        | none ↦
            move_to address a.size
              (allocate_mspace_locked calls size alignment false (m, total, memory))
      ]

  -- ReallocateMspace of one space.
  unfoldable pub reallocate_in : ℕ → ℕ → ℕ → Space M → Space M × KernelStatus × ℕ × ℕ
  reallocate_in address size alignment (m, total, memory) =
      let (released, status) = release_mspace_locked address (m, total) in
      if address == 0
      then allocate_mspace_locked calls size alignment false (m, total, memory)
      else if size == 0
      then ((released.0, released.1, memory), status, 0, 0)
      else if not (is_power_of_two alignment)
      then ((m, total, memory), invalid_argument, 0, 0)
      else elim (Assoc.find address m.allocations) [
        | none ↦ ((m, total, memory), not_found, 0, 0)
        | some a ↦
            resize address size (max alignment default_libc_heap_alignment) a (m, total, memory)
      ]
