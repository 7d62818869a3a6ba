-- ===== src/Kernel/DirectMemory/Registry.antt =====
-- DirectMemoryService's ContainsAllocatedRange, RegisterMapping and UnregisterMappings, and histories
-- of calls.
use kaj_ps.Base.{
  ℕ, ◌+◌, ◌-◌, ◌^◌, ◌≤◌, ◌<◌, ◌≡◌, ◌≢◌, refl, true, false, none, some, List, [], ◌∷◌, ◌++◌, arith,
  ltb, leb, ◌==◌, bit, if◌then◌else◌, ◌⊎◌, inl, inr, Bool-cases, Option-cases, length,
}
use kaj_ps.Base.Int.{ℤ}
use kaj_ps.Base.Assoc
use kaj_ps.Kernel.Status.{KernelStatus, kernel_ok, invalid_argument, not_found, busy, no_resources}
use kaj_ps.Kernel.DirectMemory.Ranges.{within, covers, floor}
use kaj_ps.Kernel.DirectMemory.Mappings.{
  DirectMemoryMapping, Fits, mapped_count, translate, unregister_lem, Fits-append,
  mapped_count-append,
}
use kaj_ps.Kernel.DirectMemory.{
  DirectMemory, Allocation, new, direct_memory_size, maximum_direct_memory_mappings, is_outside,
  is_bad_mapping, contains_allocated_range, contains_allocated_range_locked,
  has_mapped_guest_overlap, register_mapping, unregister_mappings, allocate, release,
}
use kaj_ps.Kernel.DirectMemory.Inv.{Inv, allocated, same_size, new-Inv, floor_found, covers-floor}
use kaj_ps.Kernel.DirectMemory.Allocate.{allocate_lem}
use kaj_ps.Kernel.DirectMemory.Release.{release_lem}

-- An allocation that holds the whole range.
abbrev pub Holds : ℕ → ℕ → DirectMemory → Type 0
Holds start count d =
    (s : ℕ) × (a : Allocation) × (Assoc.find s d.allocations ≡ some a)
    × (s ≤ start)
    × (start + count ≤ s + a.size)

-- Where ContainsAllocatedRange accepts a range inside the memory whose first address is allocated,
-- one allocation holds the whole range.
pub contains_allocated_range_lem :
    (start count : ℕ) (d : DirectMemory)
    → Inv d
    → is_outside start count ≡ false
    → covers allocated start d.allocations ≡ 1
    → contains_allocated_range start count d ≡ true
    → Holds start count d
unfolding contains_allocated_range contains_allocated_range_locked
contains_allocated_range_lem start count d g inside used h =
    elim (Option-cases (floor start d.allocations)) [
      | inl e ↦ absurd (ground (arith, inside, h, e))
      | inr ((s, a), e) ↦
          let (low, found, _) =
            floor_found Allocation allocated start 0 s a d.allocations g.allocations_spaced e in
          let reach =
            covers-floor Allocation allocated start 0 d.allocations g.allocations_spaced in
          (s, a, found, low, ground (arith, inside, h, e, low, reach, used))
    ]

-- A range whose first address is free, behind the end of the last allocation that starts before it,
-- counts as allocated, whatever its size: the difference of 64-bit numbers wraps around.
pub contains_beyond :
    (start count s : ℕ) (a : Allocation) (d : DirectMemory)
    → Inv d
    → is_outside start count ≡ false
    → floor start d.allocations ≡ some (s, a)
    → s + a.size < start
    → (contains_allocated_range start count d ≡ true) × (covers allocated start d.allocations ≡ 0)
unfolding contains_allocated_range contains_allocated_range_locked
contains_beyond start count s a d g inside e gap =
    let reach = covers-floor Allocation allocated start 0 d.allocations g.allocations_spaced in
    let (low, _, _) =
      floor_found Allocation allocated start 0 s a d.allocations g.allocations_spaced e in
    (ground (arith, inside, e, gap, low), ground (arith, reach, e, gap))

no_overlap :
    (a guest count : ℕ) (ms : List DirectMemoryMapping)
    → has_mapped_guest_overlap guest (guest + count) ms ≡ false
    → within guest count a ≡ true
    → (mapped_count a ms ≡ 0) × (translate a ms ≡ none)
unfolding has_mapped_guest_overlap
no_overlap a guest count [] e h = (refl, refl)
no_overlap a guest count (m ∷ ms) e h = ground (arith, no_overlap a guest count ms)

translate-register :
    (a : ℕ) (ms : List DirectMemoryMapping) (m : DirectMemoryMapping)
    → translate a (ms ++ (m ∷ []))
      ≡ elim (translate a ms) [ none ↦ translate a (m ∷ []) | some x ↦ some x ]
translate-register a [] m = refl
translate-register a (n ∷ ms) m = ground (arith, translate-register a ms m)

abbrev pub Registered : ℕ → ℕ → ℕ → DirectMemory → DirectMemory × KernelStatus → Type 0
Registered guest physical count d (d', status) =
    Inv d'
    × ((status ≡ kernel_ok)
          × ((a : ℕ)
              → translate a d'.mappings ≡ (
                  if within guest count a
                  then some (physical + (a - guest))
                  else translate a d.mappings))
        ⊎ (status ≢ kernel_ok) × (d' ≡ d))

refused :
    (guest physical count : ℕ) (d : DirectMemory) (status : KernelStatus)
    → Inv d
    → status ≢ kernel_ok
    → Registered guest physical count d (d, status)
refused guest physical count d status g h = (g, inr (h, refl))

-- RegisterMapping keeps the invariant. Where it succeeds, the guest addresses of the range translate
-- to the physical range in order and all other addresses translate as before. Where it does not,
-- nothing changes.
pub register_mapping_lem :
    (guest physical count : ℕ) (d : DirectMemory)
    → Inv d
    → Registered guest physical count d (register_mapping guest physical count d)
unfolding register_mapping
register_mapping_lem guest physical count d g =
    let new : DirectMemoryMapping = record {
      guest_address = guest;
      physical_address = physical;
      size = count;
    } in
    elim (Bool-cases (is_bad_mapping guest physical count)) [
      | inl o ↦ rw o (refused guest physical count d invalid_argument g (λ e. cc))
      | inr o ↦ elim (Bool-cases (contains_allocated_range_locked physical count d.allocations)) [
        | inr b ↦ rw (o, b) (refused guest physical count d not_found g (λ e. cc))
        | inl b ↦ elim (Bool-cases (leb maximum_direct_memory_mappings (length d.mappings))) [
          | inl l ↦ rw (o, b, l) (refused guest physical count d no_resources g (λ e. cc))
          | inr l ↦ elim (Bool-cases (has_mapped_guest_overlap guest (guest + count) d.mappings)) [
            | inl v ↦ rw (o, b, l, v) (refused guest physical count d busy g (λ e. cc))
            | inr v ↦
                rw (o, b, l, v)
                  (
                    record {
                      free_spaced = g.free_spaced;
                      allocations_spaced = g.allocations_spaced;
                      partition = g.partition;
                      backed = g.backed;
                      paged = g.paged;
                      mapped =
                          Fits-append direct_memory_size d.mappings (new ∷ []) g.mapped
                            (ground (arith, o), ground (arith, o), tt);
                      apart = λ a. ground (
                        arith,
                        mapped_count-append a d.mappings (new ∷ []),
                        no_overlap a guest count d.mappings v,
                        g.apart a,
                      );
                    },
                    inl (
                      refl,
                      λ a. ground (
                        arith,
                        translate-register a d.mappings new,
                        no_overlap a guest count d.mappings v,
                        Option-cases (translate a d.mappings),
                      ),
                    ),
                  )
          ]
        ]
      ]
    ]

-- UnregisterMappings of a range that does not leave the 64-bit addresses keeps the invariant and
-- unmaps exactly that range: every other guest address keeps its translation.
pub unregister_mappings_lem :
    (guest count a : ℕ) (d : DirectMemory)
    → Inv d
    → guest + count < 2 ^ 64
    → Inv (unregister_mappings guest count d)
      × (translate a (unregister_mappings guest count d).mappings
          ≡ (if within guest count a then none else translate a d.mappings))
unfolding unregister_mappings
unregister_mappings_lem guest count a d g fits =
    let ranged : ltb (2 ^ 64 - 1 - guest) count ≡ false = ground (arith, fits) in
    let each = λ (x : ℕ).
      unregister_lem x guest (guest + count) direct_memory_size d.mappings g.mapped (omega arith) in
    elim (Bool-cases (count == 0)) [
      | inl z ↦ rw (ranged, z) (g, ground (arith, z))
      | inr z ↦
          rw (ranged, z)
            (
              record {
                free_spaced = g.free_spaced;
                allocations_spaced = g.allocations_spaced;
                partition = g.partition;
                backed = g.backed;
                paged = g.paged;
                mapped = (each 0).0;
                apart = λ x. ground (arith, (each x).1, g.apart x);
              },
              (each a).2,
            )
    ]

pub data Call : Type 0 where
  allocates : (search_start search_end count alignment : ℕ) → ℤ → Call
  releases : (start count : ℕ) → Call
  registers : (guest physical count : ℕ) → Call
  unregisters : (guest count : ℕ) → Call

unfoldable pub perform : Call → DirectMemory → DirectMemory
perform (allocates search_start search_end count alignment type) d =
    (allocate search_start search_end count alignment type d).0
perform (releases start count) d = (release start count d).0
perform (registers guest physical count) d = (register_mapping guest physical count d).0
perform (unregisters guest count) d = unregister_mappings guest count d

unfoldable pub perform_all : List Call → DirectMemory → DirectMemory
perform_all [] d = d
perform_all (c ∷ cs) d = perform_all cs (perform c d)

unregister_out_of_range :
    (guest count : ℕ) (d : DirectMemory)
    → 2 ^ 64 ≤ guest + count
    → unregister_mappings guest count d ≡ d
unfolding unregister_mappings
unregister_out_of_range guest count d h = ground arith

perform-Inv : (c : Call) (d : DirectMemory) → Inv d → Inv (perform c d)
unfolding perform
perform-Inv (allocates search_start search_end count alignment type) d g =
    (allocate_lem search_start search_end count alignment type d g).0
perform-Inv (releases start count) d g = (release_lem start count d g).0
perform-Inv (registers guest physical count) d g = (register_mapping_lem guest physical count d g).0
perform-Inv (unregisters guest count) d g = elim (Bool-cases (ltb (guest + count) (2 ^ 64))) [
  | inl h ↦ (unregister_mappings_lem guest count 0 d g (ground (arith, h))).0
  | inr h ↦ rw (unregister_out_of_range guest count d (ground (arith, h))) g
]

kept : (cs : List Call) (d : DirectMemory) → Inv d → Inv (perform_all cs d)
unfolding perform_all
kept [] d g = g
kept (c ∷ cs) d g = kept cs (perform c d) (perform-Inv c d g)

-- After any sequence of calls on a new service, every address of the memory lies in exactly one free
-- range or exactly one allocation and no other address in any, no guest address is mapped twice, and
-- every mapping stays inside the memory and the 64-bit addresses.
pub perform_all-Inv :
    (cs : List Call) (a : ℕ)
    → let d = perform_all cs new in
      (covers same_size a d.free_ranges + covers allocated a d.allocations
        ≡ bit (ltb a direct_memory_size))
      × (mapped_count a d.mappings ≤ 1)
      × Fits direct_memory_size d.mappings
perform_all-Inv cs a = let g = kept cs new new-Inv in (g.partition a, g.apart a, g.mapped)
