-- ===== src/Kernel/LibcHeap/Inv.antt =====
-- The invariant of one memory space of src/kernel/libc_heap.cpp, and the changes of its state.
use kaj_ps.Base.{
  ℕ, ◌+◌, ◌-◌, ◌≤◌, ◌<◌, ◌≡◌, ap, subst, true, ◌&&◌, none, some, List, arith, ltb, leb, ◌==◌, bit,
  if◌then◌else◌, inl, inr, Option-cases,
}
use kaj_ps.Base.Assoc
use kaj_ps.Kernel.DirectMemory.Ranges.{
  within, covers, Spaced, covers-erase, covers-emplace, covers_once, erase-Spaced, emplace-Spaced,
  find_missing,
}
use kaj_ps.Kernel.DirectMemory.Inv.{same_size}
use kaj_ps.Kernel.LibcHeap.Mspace.{HeapAllocation, Mspace, cut_range, take_range, give_range}
use kaj_ps.Kernel.LibcHeap.Resize.{resized, shrink, grow, room_behind}
use kaj_ps.Kernel.LibcHeap.Ranges.{
  update-emplace, total, total-emplace, total-erase, cut_range_lem, add_free_range_lem,
}

abbrev pub heap_size : HeapAllocation → ℕ
heap_size a = a.size

-- The memory, the base address and the size of a space.
abbrev pub Owner : Type 0
Owner = ℕ × ℕ × ℕ

-- Every address from `first` to `last` lies in exactly one free range or in exactly one allocation, and
-- no other address in any; and the counts are those of the allocations.
pub record Inv (owner : Owner) (first last : ℕ) (m : Mspace) : Type 0 where
  pub identity : (m.memory, m.base_address, m.size) ≡ owner
  pub free_spaced : Spaced same_size 0 m.free_ranges
  pub allocations_spaced : Spaced heap_size 0 m.allocations
  pub partition :
      (a : ℕ)
      → covers same_size a m.free_ranges + covers heap_size a m.allocations
        ≡ bit (leb first a && ltb a last)
  pub in_use : m.current_in_use ≡ total heap_size m.allocations
  pub peak : m.current_in_use ≤ m.maximum_in_use

pub take_range_lem :
    (owner : Owner) (first last s n x size alignment : ℕ) (m : Mspace)
    → Inv owner first last m
    → Assoc.find s m.free_ranges ≡ some n
    → s ≤ x
    → 1 ≤ size
    → x + size ≤ s + n
    → (Assoc.find x m.allocations ≡ none)
      × Inv owner first last (take_range (s, n) x size alignment m)
      × ((a : ℕ)
          → covers same_size a (take_range (s, n) x size alignment m).free_ranges
              + bit (within x size a)
            ≡ covers same_size a m.free_ranges)
unfolding take_range
take_range_lem owner first last s n x size alignment m g f low p fits =
    let (spaced, sums) = cut_range_lem s n x size m.free_ranges g.free_spaced f low p fits in
    let clear : (a : ℕ) → within x size a ≡ true → covers heap_size a m.allocations ≡ 0 =
      λ a h. ground (arith, h, sums a, g.partition a) in
    let missing =
      find_missing heap_size x 0 m.allocations g.allocations_spaced (clear x (ground arith)) in
    let new : HeapAllocation = record { memory = m.memory; size = size; alignment = alignment } in
    (
      missing,
      record {
        identity = g.identity;
        free_spaced = spaced;
        allocations_spaced =
            emplace-Spaced heap_size x 0 new m.allocations g.allocations_spaced (omega arith) p
              clear;
        partition = λ a.
            omega (
              arith,
              covers-emplace heap_size a x new m.allocations missing,
              sums a,
              g.partition a,
            );
        in_use = omega (arith, total-emplace heap_size x new m.allocations missing, g.in_use);
        peak = omega arith;
      },
      sums,
    )

pub give_range_lem :
    (owner : Owner) (first last x : ℕ) (a : HeapAllocation) (m : Mspace)
    → Inv owner first last m
    → Assoc.find x m.allocations ≡ some a
    → Inv owner first last (give_range x a.size m)
      × ((y : ℕ)
          → covers same_size y (give_range x a.size m).free_ranges
            ≡ bit (within x a.size y) + covers same_size y m.free_ranges)
unfolding give_range
give_range_lem owner first last x a m g f =
    let covers_without : (y : ℕ)
        → covers heap_size y m.allocations
          ≡ bit (within x a.size y) + covers heap_size y (Assoc.erase x m.allocations) =
      λ y. covers-erase heap_size y x 0 a m.allocations g.allocations_spaced f in
    let (spaced, sums) =
      add_free_range_lem x a.size m.free_ranges g.free_spaced
        (λ y h. ground (arith, h, covers_without y, g.partition y)) in
    (
      record {
        identity = g.identity;
        free_spaced = spaced;
        allocations_spaced = erase-Spaced heap_size x 0 m.allocations g.allocations_spaced;
        partition = λ y. omega (arith, covers_without y, sums y, g.partition y);
        in_use =
            omega
              (arith, total-erase heap_size x 0 a m.allocations g.allocations_spaced f, g.in_use);
        peak = omega (arith, g.peak);
      },
      sums,
    )

-- An allocation of another size in the place of one that is there.
module _ (x : ℕ) (a b : HeapAllocation) (m : List (ℕ × HeapAllocation)) (r : Spaced heap_size 0 m)
    (f : Assoc.find x m ≡ some a) where
  covers_without :
      (y : ℕ)
      → covers heap_size y m ≡ bit (within x a.size y) + covers heap_size y (Assoc.erase x m)
  covers_without y = covers-erase heap_size y x 0 a m r f

  gone : Assoc.find x (Assoc.erase x m) ≡ none
  gone = ground (arith, Assoc.find-erase x x m)

  covers_resized :
      (y : ℕ)
      → covers heap_size y (Assoc.update x b m) + bit (within x a.size y)
        ≡ bit (within x b.size y) + covers heap_size y m
  covers_resized y =
      rw (update-emplace heap_size x 0 a b m r f) omega
        (arith, covers_without y, covers-emplace heap_size y x b (Assoc.erase x m) gone)

  total_resized : total heap_size (Assoc.update x b m) + a.size ≡ b.size + total heap_size m
  total_resized =
      rw (update-emplace heap_size x 0 a b m r f) omega (
        arith,
        total-erase heap_size x 0 a m r f,
        total-emplace heap_size x b (Assoc.erase x m) gone,
      )

  resized-Spaced :
      1 ≤ b.size
      → ((y : ℕ) → within x b.size y ≡ true → covers heap_size y (Assoc.erase x m) ≡ 0)
      → Spaced heap_size 0 (Assoc.update x b m)
  resized-Spaced p clear = rw (update-emplace heap_size x 0 a b m r f) (
      emplace-Spaced heap_size x 0 b (Assoc.erase x m) (erase-Spaced heap_size x 0 m r)
        (omega arith) p clear)

pub shrink_lem :
    (owner : Owner) (first last x size alignment : ℕ) (a : HeapAllocation) (m : Mspace)
    → Inv owner first last m
    → Assoc.find x m.allocations ≡ some a
    → 1 ≤ size
    → size ≤ a.size
    → Inv owner first last (shrink x size alignment a m)
unfolding shrink
shrink_lem owner first last x size alignment a m g f p h =
    let b = resized size alignment a in
    let r = g.allocations_spaced in
    let part : (y : ℕ)
        → covers heap_size y m.allocations
          ≡ bit (within x a.size y) + covers heap_size y (Assoc.erase x m.allocations) =
      covers_without x a b m.allocations r f in
    let (spaced, sums) =
      add_free_range_lem (x + size) (a.size - size) m.free_ranges g.free_spaced
        (λ y i. ground (arith, i, part y, g.partition y)) in
    record {
      identity = g.identity;
      free_spaced = spaced;
      allocations_spaced =
          resized-Spaced x a b m.allocations r f p
            (λ y i. ground (arith, i, part y, covers_once heap_size y 0 m.allocations r));
      partition = λ y.
          ground (arith, covers_resized x a b m.allocations r f y, part y, sums y, g.partition y);
      in_use = omega (arith, total_resized x a b m.allocations r f, g.in_use, h);
      peak = omega (arith, g.peak);
    }

room_behind_found :
    (x size n : ℕ) (a : HeapAllocation) (m : Mspace)
    → room_behind x size a m ≡ some n
    → (Assoc.find (x + a.size) m.free_ranges ≡ some n) × (a.size < size) × (size - a.size ≤ n)
unfolding room_behind
room_behind_found x size n a m e = elim (Option-cases (Assoc.find (x + a.size) m.free_ranges)) [
  | inl f ↦ absurd (ground (arith, f))
  | inr (k, f) ↦ (ground (arith, f), ground (arith, f), ground (arith, f))
]

-- A cut at the start of a free range.
cut_front :
    (s n growth : ℕ) (free : List (ℕ × ℕ))
    → cut_range (s, n) s growth free ≡ (
        let others = Assoc.erase s free in
        if n - growth == 0 then others else Assoc.emplace (s + growth) (n - growth) others)
unfolding cut_range
cut_front s n growth free = let zero : s - s ≡ 0 = omega arith in rw zero (ground arith)

pub grow_lem :
    (owner : Owner) (first last x size alignment n : ℕ) (a : HeapAllocation) (m : Mspace)
    → Inv owner first last m
    → Assoc.find x m.allocations ≡ some a
    → room_behind x size a m ≡ some n
    → Inv owner first last (grow x size alignment a n m)
unfolding grow
grow_lem owner first last x size alignment n a m g f e =
    let b = resized size alignment a in
    let r = g.allocations_spaced in
    let part : (y : ℕ)
        → covers heap_size y m.allocations
          ≡ bit (within x a.size y) + covers heap_size y (Assoc.erase x m.allocations) =
      covers_without x a b m.allocations r f in
    let (found, more, fits) = room_behind_found x size n a m e in
    let (spaced, sums) =
      cut_range_lem (x + a.size) n (x + a.size) (size - a.size) m.free_ranges g.free_spaced found
        (omega arith) (omega arith) (omega arith) in
    let front = cut_front (x + a.size) n (size - a.size) m.free_ranges in
    record {
      identity = g.identity;
      free_spaced = subst (Spaced same_size 0) front spaced;
      allocations_spaced =
          resized-Spaced x a b m.allocations r f (omega arith)
            (λ y i. ground (arith, i, part y, sums y, g.partition y));
      partition = λ y. ground (
        arith,
        covers_resized x a b m.allocations r f y,
        part y,
        sums y,
        ap (covers same_size y) front,
        g.partition y,
      );
      in_use = omega (arith, total_resized x a b m.allocations r f, g.in_use, more);
      peak = omega (arith, g.peak);
    }
