-- ===== src/Kernel/LibcHeap/Moves.antt =====
-- What ReallocateMspace of src/kernel/libc_heap.cpp makes of an allocation, and of the others.
use kaj_ps.Base.{
  ℕ, suc, ◌+◌, ◌-◌, ◌%◌, ◌^◌, ◌≤◌, ◌<◌, ◌≡◌, ◌≢◌, refl, ap, subst, false, none, some, List, [], ◌∷◌,
  arith, leb, ◌==◌, bit, if◌then◌else◌, min, ◌⊎◌, inl, inr, Option-cases, Bool-cases,
}
use kaj_ps.Base.Assoc
use kaj_ps.Kernel.Status.{
  KernelStatus, kernel_ok, invalid_argument, not_found, no_such_entry, busy, would_block,
  permission_denied, no_resources, timed_out,
}
use kaj_ps.Kernel.DirectMemory.Ranges.{within, covers, covers-erase, find_missing, Spaced}
use kaj_ps.Kernel.DirectMemory.Inv.{same_size}
use kaj_ps.Kernel.LibcHeap.Memory.{GuestMemoryCalls}
use kaj_ps.Kernel.LibcHeap.Mspace.{
  HeapAllocation, Mspace, Space, give_range, is_power_of_two, allocate_mspace_locked, copy_chunks,
  default_libc_heap_alignment,
}
use kaj_ps.Kernel.LibcHeap.Resize.{
  resized, shrink, grow, room_behind, move_to, resize, reallocate_in,
}
use kaj_ps.Kernel.LibcHeap.Inv.{Inv, Owner, heap_size, give_range_lem, shrink_lem, grow_lem}
use kaj_ps.Kernel.LibcHeap.Spaces.{
  Unchanged, Taken, Allocated, at_least_default, release_mspace_locked_found,
  allocate_mspace_locked_lem,
}

-- The allocation of `x` is now at `place`, with the new size, and no other changes.
abbrev pub Moved : ℕ → ℕ → ℕ → ℕ → Mspace × ℕ → Mspace × ℕ → Type 0
Moved x place size alignment (m, total) (m', total') =
    (place % alignment ≡ 0)
    × ((a : HeapAllocation) × (Assoc.find place m'.allocations ≡ some a) × (a.size ≡ size))
    × (place ≡ x ⊎ Assoc.find x m'.allocations ≡ none)
    × ((k : ℕ) → k ≢ x → k ≢ place → Assoc.find k m'.allocations ≡ Assoc.find k m.allocations)
    × (total' ≡ total)

occupied :
    (k b : ℕ) (a : HeapAllocation) (m : List (ℕ × HeapAllocation))
    → Spaced heap_size b m
    → Assoc.find k m ≡ some a
    → 1 ≤ a.size
unfolding Assoc.find
occupied k b a [] r f = absurd (ground arith)
occupied k b a ((j, v) ∷ m) r f = ground (arith, occupied k (j + v.size) a m r.2)

module _ {ℓ} {M : Type ℓ} where
  abbrev pub Reallocated :
      Owner → ℕ → ℕ → ℕ → ℕ → ℕ → Mspace × ℕ → Space M × KernelStatus × ℕ × ℕ → Type 0
  Reallocated owner first last x size alignment before ((m, total, memory), status, place, given) =
      Inv owner first last m
      × ((status ≡ kernel_ok) × (given ≡ size) × Moved x place size alignment before (m, total)
          ⊎ (status ≢ kernel_ok) × Unchanged before (m, total))

  module _ (calls : GuestMemoryCalls M) (owner : Owner) (first last x : ℕ)
      (a : HeapAllocation) where
    moved :
        (size alignment place : ℕ) (m m' : Mspace) (total total' : ℕ) (new : HeapAllocation)
        → place == x ≡ false
        → Assoc.find place m'.allocations ≡ some new
        → place % alignment ≡ 0
        → ((k : ℕ)
            → Assoc.find k m'.allocations
              ≡ (if place == k then some new else Assoc.find k m.allocations))
        → total' ≡ suc total
        → new.size ≡ size
        → Moved x place size alignment (m, total) (give_range x a.size m', total' - 1)
    unfolding give_range
    moved size alignment place m m' total total' new apart here aligned entries count same = (
      aligned,
      (new, ground (arith, Assoc.find-erase place x m'.allocations, apart, here), same),
      inr (ground (arith, Assoc.find-erase x x m'.allocations)),
      λ k h i. ground (arith, Assoc.find-erase k x m'.allocations, entries k),
      omega (arith, count),
    )

    restored :
        (size place : ℕ) (m m' : Mspace) (total total' : ℕ) (new : HeapAllocation)
        → Assoc.find place m.allocations ≡ none
        → ((y : ℕ)
            → covers same_size y m'.free_ranges + bit (within place size y)
              ≡ covers same_size y m.free_ranges)
        → ((y : ℕ)
            → covers same_size y (give_range place size m').free_ranges
              ≡ bit (within place size y) + covers same_size y m'.free_ranges)
        → ((k : ℕ)
            → Assoc.find k m'.allocations
              ≡ (if place == k then some new else Assoc.find k m.allocations))
        → total' ≡ suc total
        → Unchanged (m, total) (give_range place size m', total' - 1)
    unfolding give_range
    restored size place m m' total total' new missing sums given entries count = (
      λ k. ground (arith, Assoc.find-erase k place m'.allocations, entries k, missing),
      λ y. omega (arith, sums y, given y),
      omega (arith, count),
    )

    move_done_lem :
        (size alignment place : ℕ) (m m' : Mspace) (total total' : ℕ) (memory : M)
        → 1 ≤ first
        → 1 ≤ x
        → 1 ≤ size
        → Inv owner first last m
        → Assoc.find x m.allocations ≡ some a
        → Inv owner first last m'
        → Taken place size alignment (m, total) (m', total')
        → Reallocated owner first last x size alignment
            (m, total)
            (move_to calls x a.size ((m', total', memory), kernel_ok, place, size))
    move_done_lem size alignment place m m' total total' memory positive some_x some_size g f g'
          (aligned, sums, entries, count) =
        let r = g.allocations_spaced in
        let filled = occupied x 0 a m.allocations r f in
        let at_x = covers-erase heap_size x x 0 a m.allocations r f in
        let apart : place == x ≡ false =
          ground (arith, at_x, g.partition x, sums x, g.partition place, sums place) in
        let missing : Assoc.find place m.allocations ≡ none =
          find_missing heap_size place 0 m.allocations r
            (ground (arith, g.partition place, sums place)) in
        let new : HeapAllocation = record {
          memory = m.memory;
          size = size;
          alignment = alignment;
        } in
        let here : Assoc.find place m'.allocations ≡ some new = ground (arith, entries place) in
        let there : Assoc.find x m'.allocations ≡ some a = ground (arith, entries x, apart) in
        let some_place : 1 ≤ place = ground (arith, g.partition place, sums place) in
        let away = release_mspace_locked_found x total' a m' some_x there in
        let undone = release_mspace_locked_found place total' new m' some_place here in
        let (kept, _) = give_range_lem owner first last x a m' g' there in
        let (kept', given) = give_range_lem owner first last place new m' g' here in
        elim (Bool-cases (copy_chunks calls (min a.size size) x place (min a.size size) memory).1) [
          | inl d ↦
              rw (d, away)
                (
                  kept,
                  inl (
                    refl,
                    refl,
                    moved size alignment place m m' total total' new apart here aligned entries
                        count refl,
                  ),
                )
          | inr d ↦
              rw (d, undone)
                (
                  kept',
                  inr (
                    λ e. cc,
                    restored size place m m' total total' new missing sums given entries count,
                  ),
                )
        ]

    move_refused :
        (sp : Space M) (status : KernelStatus) (place given : ℕ)
        → status ≢ kernel_ok
        → move_to calls x a.size (sp, status, place, given) ≡ (sp, status, place, given)
    move_refused sp kernel_ok place given h = absurd (h refl)
    move_refused sp invalid_argument place given h = refl
    move_refused sp not_found place given h = refl
    move_refused sp no_such_entry place given h = refl
    move_refused sp busy place given h = refl
    move_refused sp would_block place given h = refl
    move_refused sp permission_denied place given h = refl
    move_refused sp no_resources place given h = refl
    move_refused sp timed_out place given h = refl

    move_to_lem :
        (size alignment : ℕ) (m : Mspace) (total : ℕ) (answer : Space M × KernelStatus × ℕ × ℕ)
        → 1 ≤ x
        → 1 ≤ size
        → Inv owner first last m
        → 1 ≤ first
        → Assoc.find x m.allocations ≡ some a
        → Allocated owner first last size alignment (m, total) answer
        → Reallocated owner first last x size alignment (m, total) (move_to calls x a.size answer)
    move_to_lem size alignment m total ((m', total', memory), status, place, given) some_x some_size
          g positive f (g', inl (e, n, taken)) =
        rw (e, n)
          (move_done_lem size alignment place m m' total total' memory positive some_x some_size g f
            g' taken)
    move_to_lem size alignment m total ((m', total', memory), status, place, given) some_x some_size
          g positive f (g', inr (e, same)) =
        rw (move_refused (m', total', memory) status place given e) (g', inr (e, same))

    updated :
        (size alignment : ℕ) (m m' : Mspace) (total : ℕ)
        → Assoc.find x m.allocations ≡ some a
        → x % alignment ≡ 0
        → m'.allocations ≡ Assoc.update x (resized size alignment a) m.allocations
        → Moved x x size alignment (m, total) (m', total)
    updated size alignment m m' total f aligned e =
        let b = resized size alignment a in
        let after : (k : ℕ)
            → Assoc.find k m'.allocations ≡ Assoc.find k (Assoc.update x b m.allocations) =
          λ k. ap (Assoc.find k) e in
        (
          aligned,
          (b, ground (arith, after x, Assoc.find-update x x b m.allocations, f), refl),
          inl refl,
          λ k h i. ground (arith, after k, Assoc.find-update k x b m.allocations),
          refl,
        )

    resize_lem :
        (size alignment : ℕ) (m : Mspace) (total : ℕ) (memory : M)
        → 1 ≤ x
        → 1 ≤ size
        → 1 ≤ first
        → default_libc_heap_alignment ≤ alignment
        → alignment < 2 ^ 64
        → Inv owner first last m
        → Assoc.find x m.allocations ≡ some a
        → Reallocated owner first last x size alignment
            (m, total)
            (resize calls x size alignment a (m, total, memory))
    resize_lem size alignment m total memory some_x some_size positive least wide g f =
        let same : at_least_default alignment ≡ alignment = omega arith in
        let exact : (if size == 0 then 1 else size) ≡ size = ground arith in
        let answer = allocate_mspace_locked calls size alignment false (m, total, memory) in
        let served =
          allocate_mspace_locked_lem calls owner first last size alignment false m total memory
            positive wide g in
        let away : Reallocated owner first last x size alignment (m, total)
            (move_to calls x a.size answer) =
          move_to_lem size alignment m total answer some_x some_size g positive f (
            subst (λ al. Allocated owner first last size al (m, total) answer) same
              (subst
                (λ n. Allocated owner first last n (at_least_default alignment) (m, total) answer)
                exact served)) in
        elim (Bool-cases (x % alignment == 0)) [
          | inr q ↦ rw q away
          | inl q ↦
              let aligned : x % alignment ≡ 0 = ground (arith, q) in
              elim (Bool-cases (leb size a.size)) [
                | inl l ↦
                    rw (q, l)
                      (
                        shrink_lem owner first last x size alignment a m g f some_size
                            (ground (arith, l)),
                        inl (
                          refl,
                          refl,
                          updated size alignment m (shrink x size alignment a m) total f aligned
                              (unfold shrink in refl),
                        ),
                      )
                | inr l ↦ elim (Option-cases (room_behind x size a m)) [
                  | inl n ↦ rw (q, l, n) away
                  | inr (n, e) ↦
                      rw (q, l, e)
                        (
                          grow_lem owner first last x size alignment n a m g f e,
                          inl (
                            refl,
                            refl,
                            updated size alignment m (grow x size alignment a n m) total f aligned
                                (unfold grow in refl),
                          ),
                        )
                ]
              ]
        ]

module _ {ℓ} {M : Type ℓ} (calls : GuestMemoryCalls M) (owner : Owner) (first last : ℕ) where
  unchanged :
      (x size alignment : ℕ) (status : KernelStatus) (m : Mspace) (total : ℕ) (memory : M)
      → Inv owner first last m
      → status ≢ kernel_ok
      → Reallocated owner first last x size alignment (m, total) ((m, total, memory), status, 0, 0)
  unchanged x size alignment status m total memory g h = (g, inr (h, (λ k. refl, λ a. refl, refl)))

  -- ReallocateMspace of an address and a size that are not 0 keeps the space in order. Where it
  -- succeeds, the allocation has the new size, at an address that is a multiple of the alignment; if
  -- that is another address, nothing is allocated at the old one; no other allocation changes. Where it
  -- does not, the allocations and the free addresses are as before.
  pub reallocate_in_lem :
      (x size alignment : ℕ) (m : Mspace) (total : ℕ) (memory : M)
      → 1 ≤ x
      → 1 ≤ size
      → 1 ≤ first
      → alignment < 2 ^ 64
      → Inv owner first last m
      → Reallocated owner first last x size
          (at_least_default alignment)
          (m, total)
          (reallocate_in calls x size alignment (m, total, memory))
  unfolding reallocate_in
  reallocate_in_lem x size alignment m total memory some_x some_size positive wide g =
      let aligned = at_least_default alignment in
      let x' : x == 0 ≡ false = ground arith in
      let size' : size == 0 ≡ false = ground arith in
      elim (Bool-cases (is_power_of_two alignment)) [
        | inr p ↦
            rw (x', size', p) (unchanged x size aligned invalid_argument m total memory g (λ e. cc))
        | inl p ↦ elim (Option-cases (Assoc.find x m.allocations)) [
          | inl f ↦
              rw (x', size', p, f) (unchanged x size aligned not_found m total memory g (λ e. cc))
          | inr (a, f) ↦
              rw (x', size', p, f)
                (resize_lem calls owner first last x a size aligned m total memory some_x some_size
                  positive (omega arith) (omega arith) g f)
        ]
      ]
