-- ===== src/Kernel/LibcHeap/Room.antt =====
-- When AllocateMspaceLocked of src/kernel/libc_heap.cpp fails for lack of room.
use kaj_ps.Base.{
  ℕ, ◌+◌, ◌%◌, ◌^◌, ◌≤◌, ◌<◌, ◌≡◌, ◌≢◌, refl, Bool, true, false, none, some, arith, leb, inl, inr,
  Option-cases, Bool-cases,
}
use kaj_ps.Base.Assoc
use kaj_ps.Kernel.Status.{no_resources}
use kaj_ps.Kernel.DirectMemory.Ranges.{covers-erase}
use kaj_ps.Kernel.DirectMemory.Inv.{same_size}
use kaj_ps.Kernel.LibcHeap.Memory.{GuestMemoryCalls}
use kaj_ps.Kernel.LibcHeap.Mspace.{
  Mspace, find_fit, is_power_of_two, finish_allocation, allocate_mspace_locked,
  default_libc_heap_alignment, maximum_libc_heap_allocations,
}
use kaj_ps.Kernel.LibcHeap.Align.{fit_lem, find_fit_found, find_fit-none}
use kaj_ps.Kernel.LibcHeap.Spaces.{wanted, at_least_default}
use kaj_ps.Kernel.LibcHeap.Inv.{Inv, Owner, take_range_lem}

default_accepted :
    (alignment : ℕ)
    → is_power_of_two alignment ≡ true
    → is_power_of_two (at_least_default alignment) ≡ true
default_accepted alignment p = elim (Bool-cases (leb alignment default_libc_heap_alignment)) [
  | inl h ↦ let same : at_least_default alignment ≡ 16 = ground (arith, h) in rw same refl
  | inr h ↦ let same : at_least_default alignment ≡ alignment = ground (arith, h) in rw same p
]

module _ {ℓ} {M : Type ℓ} (calls : GuestMemoryCalls M) (owner : Owner) (first last : ℕ) where
  finish_not_full :
      (s n x size alignment : ℕ) (zero_fill : Bool) (m : Mspace) (total : ℕ) (memory : M)
      → Assoc.find x m.allocations ≡ none
      → (finish_allocation calls (s, n) x size alignment zero_fill (m, total, memory)).1
        ≢ no_resources
  finish_not_full s n x size alignment zero_fill m total memory missing =
      elim (Bool-cases zero_fill) [
        | inr z ↦ rw (missing, z) (λ e. cc)
        | inl z ↦ elim (Bool-cases (calls.fill_zero x size memory).1) [
          | inl d ↦ rw (missing, z, d) (λ e. cc)
          | inr d ↦ rw (missing, z, d) (λ e. cc)
        ]
      ]

  no_fit :
      (requested_size alignment : ℕ) (zero_fill : Bool) (m : Mspace) (total : ℕ) (memory : M)
      → alignment < 2 ^ 64
      → Inv owner first last m
      → total < maximum_libc_heap_allocations
      → (allocate_mspace_locked calls requested_size alignment zero_fill (m, total, memory)).1
        ≡ no_resources
      → (is_power_of_two alignment ≡ true)
        × (find_fit (at_least_default alignment) (wanted requested_size) m.free_ranges ≡ none)
  unfolding allocate_mspace_locked
  no_fit requested_size alignment zero_fill m total memory w g few =
      let size = wanted requested_size in
      let aligned = at_least_default alignment in
      let wide : aligned < 2 ^ 64 = omega arith in
      let l : leb maximum_libc_heap_allocations total ≡ false = ground (arith, few) in
      elim (Bool-cases (is_power_of_two alignment)) [
        | inr p ↦ rw p (λ e. absurd cc)
        | inl p ↦ elim (Option-cases (find_fit aligned size m.free_ranges)) [
          | inl f ↦ λ e. (p, f)
          | inr (((s, n), x), f) ↦
              let (found, fits) =
                find_fit_found aligned size 0 s n x m.free_ranges g.free_spaced f in
              let (low, inside, multiple) = fit_lem aligned size s n x wide fits in
              let (missing, _, _) =
                take_range_lem owner first last s n x size aligned m g found low (ground arith)
                  inside in
              rw (p, l, f)
                (λ e.
                  absurd (finish_not_full s n x size aligned zero_fill m total memory missing e))
        ]
      ]

  -- Where AllocateMspaceLocked reports that there is no room and the limit on allocations is not
  -- reached, no free range has an aligned place for the size.
  pub no_room_lem :
      (requested_size alignment y s n : ℕ) (zero_fill : Bool) (m : Mspace) (total : ℕ) (memory : M)
      → alignment < 2 ^ 64
      → last < 2 ^ 64
      → Inv owner first last m
      → total < maximum_libc_heap_allocations
      → (allocate_mspace_locked calls requested_size alignment zero_fill (m, total, memory)).1
        ≡ no_resources
      → Assoc.find s m.free_ranges ≡ some n
      → s ≤ y
      → y % at_least_default alignment ≡ 0
      → s + n < y + wanted requested_size
  no_room_lem requested_size alignment y s n zero_fill m total memory w v g few e there low
        multiple =
      let size = wanted requested_size in
      let (p, none_fits) = no_fit requested_size alignment zero_fill m total memory w g few e in
      elim (Bool-cases (leb (y + size) (s + n))) [
        | inr f ↦ ground (arith, f)
        | inl f ↦
            let inside : y + size ≤ s + n = ground (arith, f) in
            let far =
              find_fit-none (at_least_default alignment) size s n y m.free_ranges (omega arith)
                (default_accepted alignment p) none_fits there low multiple inside in
            let free = covers-erase same_size y s 0 n m.free_ranges g.free_spaced there in
            absurd (ground (arith, far, free, g.partition y, inside, v))
      ]
