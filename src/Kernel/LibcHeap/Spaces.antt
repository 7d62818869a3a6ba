-- ===== src/Kernel/LibcHeap/Spaces.antt =====
-- AllocateMspaceLocked and ReleaseMspaceLocked of src/kernel/libc_heap.cpp: what they hand out and take
-- back, and the invariant of the space.
use kaj_ps.Base.{
  ℕ, suc, ◌+◌, ◌-◌, ◌%◌, ◌^◌, ◌≤◌, ◌<◌, ◌≡◌, ◌≢◌, refl, ap, Bool, false, none, some, arith, leb,
  ◌==◌, bit, if◌then◌else◌, max, ◌⊎◌, inl, inr, Option-cases, Bool-cases,
}
use kaj_ps.Base.Assoc
use kaj_ps.Kernel.Status.{KernelStatus, kernel_ok, invalid_argument, not_found, no_resources}
use kaj_ps.Kernel.DirectMemory.Ranges.{within, covers}
use kaj_ps.Kernel.DirectMemory.Inv.{same_size}
use kaj_ps.Kernel.LibcHeap.Memory.{GuestMemoryCalls}
use kaj_ps.Kernel.LibcHeap.Mspace.{
  HeapAllocation, Mspace, Space, take_range, give_range, find_fit, is_power_of_two,
  finish_allocation, allocate_mspace_locked, release_mspace_locked, default_libc_heap_alignment,
  maximum_libc_heap_allocations,
}
use kaj_ps.Kernel.LibcHeap.Align.{fit_lem, find_fit_found}
use kaj_ps.Kernel.LibcHeap.Inv.{Inv, Owner, take_range_lem, give_range_lem}

-- The bytes an allocation of `requested_size` takes.
abbrev pub wanted : ℕ → ℕ
wanted requested_size = if requested_size == 0 then 1 else requested_size

abbrev pub at_least_default : ℕ → ℕ
at_least_default alignment = max alignment default_libc_heap_alignment

-- The space has the allocations and the free addresses that it had.
abbrev pub Unchanged : Mspace × ℕ → Mspace × ℕ → Type 0
Unchanged (m, total) (m', total') =
    ((k : ℕ) → Assoc.find k m'.allocations ≡ Assoc.find k m.allocations)
    × ((a : ℕ) → covers same_size a m'.free_ranges ≡ covers same_size a m.free_ranges)
    × (total' ≡ total)

-- The space has one allocation more, of addresses that were free.
abbrev pub Taken : ℕ → ℕ → ℕ → Mspace × ℕ → Mspace × ℕ → Type 0
Taken x size alignment (m, total) (m', total') =
    (x % alignment ≡ 0)
    × ((a : ℕ)
        → covers same_size a m'.free_ranges + bit (within x size a)
          ≡ covers same_size a m.free_ranges)
    × ((k : ℕ)
        → Assoc.find k m'.allocations ≡ (
            if x == k
            then some (record { memory = m.memory; size = size; alignment = alignment })
            else Assoc.find k m.allocations))
    × (total' ≡ suc total)

-- ReleaseMspaceLocked of an allocation that is there.
pub release_mspace_locked_found :
    (x total : ℕ) (a : HeapAllocation) (m : Mspace)
    → 1 ≤ x
    → Assoc.find x m.allocations ≡ some a
    → release_mspace_locked x (m, total) ≡ ((give_range x a.size m, total - 1), kernel_ok)
unfolding release_mspace_locked
release_mspace_locked_found x total a m p f =
    let zero : x == 0 ≡ false = ground arith in rw (zero, f) refl

-- What ReleaseMspaceLocked of `x` does to the space, by its status.
abbrev pub Freed : ℕ → Mspace × ℕ → Mspace × ℕ → Type 0
Freed x (m, total) (m', total') =
    (a : HeapAllocation) × (Assoc.find x m.allocations ≡ some a)
    × ((y : ℕ)
        → covers same_size y m'.free_ranges
          ≡ bit (within x a.size y) + covers same_size y m.free_ranges)
    × ((k : ℕ)
        → Assoc.find k m'.allocations ≡ (if x == k then none else Assoc.find k m.allocations))
    × (total' ≡ total - 1)

abbrev pub Released : Owner → ℕ → ℕ → ℕ → Mspace × ℕ → (Mspace × ℕ) × KernelStatus → Type 0
Released owner first last x (m, total) ((m', total'), status) =
    Inv owner first last m'
    × ((status ≡ kernel_ok) × (x ≢ 0) × Freed x (m, total) (m', total')
        ⊎ ((x ≡ 0) × (status ≡ kernel_ok)
            ⊎ (x ≢ 0) × (status ≡ not_found) × (Assoc.find x m.allocations ≡ none))
          × (m' ≡ m)
          × (total' ≡ total))

-- ReleaseMspaceLocked keeps the space in order. A success at an address other than 0 frees exactly the
-- bytes of the allocation at that address, which is allocated no more, and no other allocation changes.
-- At 0, and where nothing is allocated at the address, the space and the count stay as they are; the
-- second is reported.
pub release_mspace_locked_lem :
    (owner : Owner) (first last x total : ℕ) (m : Mspace)
    → Inv owner first last m
    → Released owner first last x (m, total) (release_mspace_locked x (m, total))
unfolding release_mspace_locked give_range
release_mspace_locked_lem owner first last x total m g = elim (Bool-cases (x == 0)) [
  | inl z ↦ rw z (g, inr (inl (ground (arith, z), refl), refl, refl))
  | inr z ↦
      let some_x : x ≢ 0 = ground (arith, z) in
      elim (Option-cases (Assoc.find x m.allocations)) [
        | inl f ↦ rw (z, f) (g, inr (inr (some_x, refl, refl), refl, refl))
        | inr (a, f) ↦
            let (kept, sums) = give_range_lem owner first last x a m g f in
            rw (z, f)
              (
                kept,
                inl (refl, some_x, (a, refl, sums, λ k. Assoc.find-erase k x m.allocations, refl)),
              )
      ]
]

module _ {ℓ} {M : Type ℓ} where
  abbrev pub Allocated :
      Owner → ℕ → ℕ → ℕ → ℕ → Mspace × ℕ → Space M × KernelStatus × ℕ × ℕ → Type 0
  Allocated owner first last size alignment before ((m, total, memory), status, x, given) =
      Inv owner first last m
      × ((status ≡ kernel_ok) × (given ≡ size) × Taken x size alignment before (m, total)
          ⊎ (status ≢ kernel_ok) × Unchanged before (m, total))

  pub refused :
      (owner : Owner) (first last size alignment : ℕ) (status : KernelStatus) (m : Mspace)
      (total : ℕ) (memory : M)
      → Inv owner first last m
      → status ≢ kernel_ok
      → Allocated owner first last size alignment (m, total) ((m, total, memory), status, 0, 0)
  refused owner first last size alignment status m total memory g h =
      (g, inr (h, (λ k. refl, λ a. refl, refl)))

  module _ (calls : GuestMemoryCalls M) (owner : Owner) (first last : ℕ) where
    finish_allocation_lem :
        (s n x size alignment : ℕ) (zero_fill : Bool) (m : Mspace) (total : ℕ) (memory : M)
        → 1 ≤ first
        → Inv owner first last m
        → Assoc.find s m.free_ranges ≡ some n
        → s ≤ x
        → 1 ≤ size
        → x + size ≤ s + n
        → x % alignment ≡ 0
        → Allocated owner first last size alignment
            (m, total)
            (finish_allocation calls (s, n) x size alignment zero_fill (m, total, memory))
    unfolding take_range give_range
    finish_allocation_lem s n x size alignment zero_fill m total memory positive g f low p fits
          aligned =
        let (missing, kept, sums) =
          take_range_lem owner first last s n x size alignment m g f low p fits in
        let taken = take_range (s, n) x size alignment m in
        let entry : HeapAllocation = record {
          memory = m.memory;
          size = size;
          alignment = alignment;
        } in
        let nonzero : 1 ≤ x = ground (arith, g.partition x, sums x) in
        let there : Assoc.find x taken.allocations ≡ some entry =
          ground (arith, Assoc.find-emplace x x entry m.allocations missing) in
        let back = release_mspace_locked_found x (suc total) entry taken nonzero there in
        let (again, given) = give_range_lem owner first last x entry taken kept there in
        let done : Taken x size alignment (m, total) (taken, suc total) =
          (aligned, sums, λ k. Assoc.find-emplace k x entry m.allocations missing, refl) in
        let same : Unchanged (m, total) (give_range x size taken, suc total - 1) = (
          λ k. ap (Assoc.find k) (Assoc.erase-emplace x entry m.allocations missing),
          λ a. omega (arith, given a, sums a),
          omega arith,
        ) in
        elim (Bool-cases zero_fill) [
          | inr z ↦ rw (missing, z) (kept, inl (refl, refl, done))
          | inl z ↦ elim (Bool-cases (calls.fill_zero x size memory).1) [
            | inl d ↦ rw (missing, z, d) (kept, inl (refl, refl, done))
            | inr d ↦ rw (missing, z, d, back) (again, inr (λ e. cc, same))
          ]
        ]

    -- AllocateMspaceLocked keeps the space in order. Where it succeeds, the size is the requested one (1
    -- for 0), the address is a multiple of the alignment and at least of 16, all bytes were free, and no
    -- other allocation changes. Where it does not, the allocations and the free addresses are as before.
    pub allocate_mspace_locked_lem :
        (requested_size alignment : ℕ) (zero_fill : Bool) (m : Mspace) (total : ℕ) (memory : M)
        → 1 ≤ first
        → alignment < 2 ^ 64
        → Inv owner first last m
        → Allocated owner first last
            (wanted requested_size)
            (at_least_default alignment)
            (m, total)
            (allocate_mspace_locked calls requested_size alignment zero_fill (m, total, memory))
    unfolding allocate_mspace_locked
    allocate_mspace_locked_lem requested_size alignment zero_fill m total memory positive w g =
        let size = wanted requested_size in
        let aligned = at_least_default alignment in
        let wide : aligned < 2 ^ 64 = omega arith in
        let no = λ (status : KernelStatus) (h : status ≢ kernel_ok).
          refused owner first last size aligned status m total memory g h in
        elim (Bool-cases (is_power_of_two alignment)) [
          | inr p ↦ rw p (no invalid_argument (λ e. cc))
          | inl p ↦ elim (Bool-cases (leb maximum_libc_heap_allocations total)) [
            | inl l ↦ rw (p, l) (no no_resources (λ e. cc))
            | inr l ↦ elim (Option-cases (find_fit aligned size m.free_ranges)) [
              | inl f ↦ rw (p, l, f) (no no_resources (λ e. cc))
              | inr (((s, n), x), f) ↦
                  let (found, fits) =
                    find_fit_found aligned size 0 s n x m.free_ranges g.free_spaced f in
                  let (low, inside, multiple) = fit_lem aligned size s n x wide fits in
                  rw (p, l, f)
                    (finish_allocation_lem s n x size aligned zero_fill m total memory positive g
                      found low (ground arith) inside multiple)
            ]
          ]
        ]
