-- ===== src/Kernel/DirectMemory/Allocate.antt =====
-- DirectMemoryService::Allocate: what a call hands out, and the invariant.
use kaj_ps.Base.{
  ℕ, ◌+◌, ◌-◌, ◌%◌, ◌≤◌, ◌≡◌, ◌≢◌, refl, Bool, true, false, some, List, arith, ltb, leb, ◌==◌, bit,
  if◌then◌else◌, min, ◌⊎◌, inl, inr, Option-cases, Bool-cases, length,
}
use kaj_ps.Base.Int.{ℤ}
use kaj_ps.Base.Assoc
use kaj_ps.Kernel.Status.{KernelStatus, kernel_ok, invalid_argument, no_resources}
use kaj_ps.Kernel.DirectMemory.Ranges.{
  within, covers, Spaced, from_floor, covers-erase, covers-emplace, covers_once, erase-Spaced,
  emplace-Spaced, find_missing,
}
use kaj_ps.Kernel.DirectMemory.{
  DirectMemory, Allocation, direct_memory_size, maximum_direct_memory_allocations, first_fit,
  consume_free_range, emplace_if, take, allocate,
}
use kaj_ps.Kernel.DirectMemory.Inv.{
  Inv, same_size, allocated, place_lem, first_fit_found, find-from_floor, from_floor-Spaced,
}

module _ {ℓ} {V : Type ℓ} (size : V → ℕ) where
  -- A part that may be put back into the map.
  pub emplace_if_lem :
      (b : Bool) (k : ℕ) (v : V) (m : List (ℕ × V))
      → Spaced size 0 m
      → (b ≡ true → 1 ≤ size v)
      → ((a : ℕ) → within k (size v) a ≡ true → covers size a m ≡ 0)
      → Spaced size 0 (emplace_if b k v m)
        × ((a : ℕ)
            → covers size a (emplace_if b k v m)
              ≡ (if b then bit (within k (size v) a) else 0) + covers size a m)
  emplace_if_lem false k v m r n free = (r, λ a. omega arith)
  emplace_if_lem true k v m r n free = (
    emplace-Spaced size k 0 v m r (omega arith) (n refl) free,
    λ a. covers-emplace size a k v m (find_missing size k 0 m r (free k (ground (arith, n refl)))),
  )

-- ConsumeFreeRange takes exactly the part out of the free ranges.
pub consume_lem :
    (s n start count : ℕ) (free : List (ℕ × ℕ))
    → Spaced same_size 0 free
    → Assoc.find s free ≡ some n
    → s ≤ start
    → 1 ≤ count
    → start + count ≤ s + n
    → Spaced same_size 0 (consume_free_range (s, n) start count free)
      × ((a : ℕ)
          → covers same_size a (consume_free_range (s, n) start count free)
              + bit (within start count a)
            ≡ covers same_size a free)
unfolding consume_free_range
consume_lem s n start count free r f low some_count fits =
    let gone = Assoc.erase s free in
    let without : (a : ℕ) → covers same_size a free ≡ bit (within s n a) + covers same_size a gone =
      λ a. covers-erase same_size a s 0 n free r f in
    let (spaced, sums) =
      emplace_if_lem same_size (ltb s start) s (start - s) gone (erase-Spaced same_size s 0 free r)
        (λ h. ground arith) (λ a h. ground (arith, without a, covers_once same_size a 0 free r)) in
    let (spaced', sums') =
      emplace_if_lem same_size (ltb (start + count) (s + n)) (start + count) (s + n - start - count)
        (emplace_if (ltb s start) s (start - s) gone) spaced (λ h. ground arith)
        (λ a h. ground (arith, without a, sums a, covers_once same_size a 0 free r)) in
    (spaced', λ a. ground (arith, without a, sums a, sums' a))

-- The place that Allocate chooses.
pub record Chosen (search_start search_end count alignment x : ℕ) (d : DirectMemory) : Type 0 where
  pub from : search_start ≤ x
  pub upto : x + count ≤ search_end
  pub inside : x + count ≤ direct_memory_size
  pub aligned : (if alignment == 0 then 0 else x % alignment) ≡ 0
  pub free : (a : ℕ) → (if within x count a then covers same_size a d.free_ranges else 1) ≡ 1

take-Inv :
    (s n x count : ℕ) (type : ℤ) (d : DirectMemory)
    → Inv d
    → Assoc.find s d.free_ranges ≡ some n
    → s ≤ x
    → 1 ≤ count
    → x + count ≤ s + n
    → Inv (take (s, n) x count type d)
      × ((a : ℕ)
          → covers allocated a (take (s, n) x count type d).allocations
            ≡ bit (within x count a) + covers allocated a d.allocations)
      × ((a : ℕ) → within x count a ≡ true → covers same_size a d.free_ranges ≡ 1)
unfolding take
take-Inv s n x count type d g f low some_count fits =
    let (spaced, parts) =
      consume_lem s n x count d.free_ranges g.free_spaced f low some_count fits in
    let unused : (a : ℕ) → within x count a ≡ true → covers allocated a d.allocations ≡ 0 =
      λ a h. ground (arith, parts a, g.partition a) in
    let object : Allocation = record { size = count; memory_type = type } in
    let (spaced', sums) =
      emplace_if_lem allocated true x object d.allocations g.allocations_spaced (λ h. some_count)
        unused in
    (
      record {
        free_spaced = spaced;
        allocations_spaced = spaced';
        partition = λ a. ground (arith, parts a, sums a, g.partition a);
        backed = g.backed;
        paged = g.paged;
        mapped = g.mapped;
        apart = g.apart;
      },
      sums,
      λ a h. ground (arith, parts a, covers_once same_size a 0 d.free_ranges g.free_spaced),
    )

-- What Allocate does once its arguments are accepted, by what the search returns.
abbrev pub Served : ℕ → ℕ → ℕ → ℕ → DirectMemory → DirectMemory × KernelStatus × ℕ × ℕ → Type 0
Served search_start search_end count alignment d (d', status, address, size) =
    Inv d'
    × ((status ≡ kernel_ok)
          × Chosen search_start search_end count alignment address d
          × (size ≡ count)
          × ((a : ℕ)
              → covers allocated a d'.allocations
                ≡ bit (within address count a) + covers allocated a d.allocations)
        ⊎ (status ≢ kernel_ok) × (d' ≡ d))

refused :
    (search_start search_end count alignment : ℕ) (d : DirectMemory) (status : KernelStatus)
    → Inv d
    → status ≢ kernel_ok
    → Served search_start search_end count alignment d (d, status, 0, 0)
refused search_start search_end count alignment d status g h = (g, inr (h, refl))

served :
    (search_start search_end count alignment s n x : ℕ) (type : ℤ) (d : DirectMemory)
    → Inv d
    → 1 ≤ count
    → first_fit search_start
        (min search_end direct_memory_size)
        count
        alignment
        (from_floor search_start d.free_ranges)
      ≡ some ((s, n), x)
    → Served search_start search_end count alignment d
        (take (s, n) x count type d, kernel_ok, x, count)
served search_start search_end count alignment s n x type d g some_count e =
    let bounded = min search_end direct_memory_size in
    let ranges = from_floor search_start d.free_ranges in
    let (found, placed) =
      first_fit_found search_start bounded count alignment 0 s n x ranges
        (from_floor-Spaced ℕ same_size search_start 0 d.free_ranges g.free_spaced) e in
    let (low, from, fits, upto, aligned) =
      place_lem search_start bounded count alignment s n x placed in
    let (kept, sums, unused) =
      take-Inv s n x count type d g
        (find-from_floor ℕ same_size search_start 0 s n d.free_ranges g.free_spaced found) low
        some_count fits in
    (
      kept,
      inl (
        refl,
        record {
          from = from;
          upto = omega (arith, upto);
          inside = omega (arith, upto);
          aligned = ground (arith, aligned);
          free = λ a. ground (arith, unused a);
        },
        refl,
        sums,
      ),
    )

-- Allocate keeps the invariant. Where it succeeds, it returns an aligned range of the requested size
-- within the search range, in memory that was all free and that afterwards is allocated, and no other
-- address changes hands. Where it does not, nothing changes.
pub allocate_lem :
    (search_start search_end count alignment : ℕ) (type : ℤ) (d : DirectMemory)
    → Inv d
    → Served search_start search_end count alignment d
        (allocate search_start search_end count alignment type d)
unfolding allocate
allocate_lem search_start search_end count alignment type d g =
    let bounded = min search_end direct_memory_size in
    let ranges = from_floor search_start d.free_ranges in
    let no = refused search_start search_end count alignment d in
    elim (Bool-cases (count == 0)) [
      | inl z ↦ rw z (no invalid_argument g (λ e. cc))
      | inr z ↦ rw z (elim (Bool-cases (leb search_end search_start)) [
        | inl o ↦ rw o (no invalid_argument g (λ e. cc))
        | inr o ↦ rw o (elim (Bool-cases (leb bounded search_start)) [
          | inl b ↦ rw b (no no_resources g (λ e. cc))
          | inr b ↦
              rw b
                (elim (Bool-cases (leb maximum_direct_memory_allocations (length d.allocations))) [
                  | inl l ↦ rw l (no no_resources g (λ e. cc))
                  | inr l ↦
                      rw l
                        (elim (Option-cases
                          (first_fit search_start bounded count alignment ranges)) [
                            | inl e ↦ rw e (no no_resources g (λ e. cc))
                            | inr (((s, n), x), e) ↦ rw e (
                                served search_start search_end count alignment s n x type d g
                                  (ground (arith, z)) e)
                          ])
                ])
        ])
      ])
    ]
