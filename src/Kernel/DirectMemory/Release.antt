-- ===== src/Kernel/DirectMemory/Release.antt =====
-- DirectMemoryService::Release: what a call gives back, and the invariant.
use kaj_ps.Base.{
  ℕ, ◌+◌, ◌-◌, ◌≤◌, ◌<◌, ◌≡◌, ◌≢◌, refl, Bool, true, false, ◌&&◌, ◌||◌, Option, none, some, List,
  [], ◌∷◌, arith, ltb, leb, bit, if◌then◌else◌, max, ◌⊎◌, inl, inr, Option-cases, Bool-cases,
  length,
}
use kaj_ps.Base.Assoc
use kaj_ps.Kernel.Status.{KernelStatus, kernel_ok, invalid_argument, not_found, busy, no_resources}
use kaj_ps.Kernel.DirectMemory.Ranges.{
  within, covers, Spaced, floor, covers-erase, covers_once, covers_below, erase-Spaced, Spaced-mono,
}
use kaj_ps.Kernel.DirectMemory.Backing
use kaj_ps.Kernel.DirectMemory.{
  DirectMemory, Allocation, direct_memory_size, maximum_direct_memory_allocations, join_previous,
  previous, join_next, add_free_range, emplace_if, give_back, release, release_from, is_outside,
  has_mapped_physical_overlap,
}
use kaj_ps.Kernel.DirectMemory.Mappings.{DirectMemoryMapping, translate}
use kaj_ps.Kernel.DirectMemory.Inv.{Inv, same_size, allocated, floor_found}
use kaj_ps.Kernel.DirectMemory.Allocate.{emplace_if_lem}

abbrev between : ℕ → ℕ → ℕ → Bool
between start end a = leb start a && ltb a end

-- The ranges that follow the new one without a gap become part of it.
join_next_lem :
    (start end b : ℕ) (m : List (ℕ × ℕ))
    → Spaced same_size b m
    → start < end
    → ((a : ℕ) → between start end a ≡ true → covers same_size a m ≡ 0)
    → let (last, kept) = join_next start end m in
      Spaced same_size b kept
      × (end ≤ last)
      × ((a : ℕ)
          → covers same_size a kept + bit (between start last a)
            ≡ covers same_size a m + bit (between start end a))
unfolding join_next
join_next_lem start end b [] r p free = (tt, omega arith, λ a. omega arith)
join_next_lem start end b ((s, n) ∷ m) r p free = elim (Bool-cases (ltb s start)) [
  | inl before ↦
      let (spaced, longer, sums) =
        join_next_lem start end (s + n) m r.2 p (λ a h. ground (arith, free a h)) in
      rw before ((r.0, r.1, spaced), longer, λ a. omega (arith, sums a))
  | inr after ↦ elim (Bool-cases (leb s end)) [
    | inr apart ↦ rw (after, apart) (r, omega arith, λ a. refl)
    | inl touches ↦
        let meets : s ≡ end = ground (arith, free s) in
        let (spaced, longer, sums) =
          join_next_lem start (max end (s + n)) (s + n) m r.2 (ground arith)
            (λ a h. ground (arith, covers_below same_size a (s + n) m r.2)) in
        rw (after, touches)
          (
            Spaced-mono same_size b (s + n) (join_next start (max end (s + n)) m).1 (ground arith)
                spaced,
            omega (arith, longer),
            λ a. ground (arith, sums a, free a),
          )
  ]
]

previous_found :
    (start s n : ℕ) (m : List (ℕ × ℕ))
    → Spaced same_size 0 m
    → previous start m ≡ some (s, n)
    → (Assoc.find s m ≡ some n) × (s < start)
unfolding previous
previous_found start s n m r e =
    let e' : floor (start - 1) m ≡ some (s, n) = ground (arith, e) in
    let (low, found, _) = floor_found ℕ same_size (start - 1) 0 s n m r e' in
    (found, ground (arith, e, low))

-- The range that ends where the new one starts becomes part of it.
join_previous_lem :
    (start end : ℕ) (m : List (ℕ × ℕ))
    → Spaced same_size 0 m
    → start < end
    → ((a : ℕ) → between start end a ≡ true → covers same_size a m ≡ 0)
    → let (first, last, others) = join_previous start end m in
      Spaced same_size 0 others
      × (first < last)
      × ((a : ℕ) → between first last a ≡ true → covers same_size a others ≡ 0)
      × ((a : ℕ)
          → covers same_size a others + bit (between first last a)
            ≡ covers same_size a m + bit (between start end a))
unfolding join_previous
join_previous_lem start end m r p free = elim (Option-cases (previous start m)) [
  | inl e ↦ rw (e, join_previous) (r, p, free, λ a. refl)
  | inr ((s, n), e) ↦ elim (Bool-cases (leb start (s + n))) [
    | inr apart ↦ rw (e, apart, join_previous) (r, p, free, λ a. refl)
    | inl touches ↦
        let (found, low) = previous_found start s n m r e in
        let without : (a : ℕ)
            → covers same_size a m ≡ bit (within s n a) + covers same_size a (Assoc.erase s m) =
          λ a. covers-erase same_size a s 0 n m r found in
        let meets : s + n ≡ start = ground (arith, free start, without start) in
        rw (e, touches, join_previous)
          (
            erase-Spaced same_size s 0 m r,
            omega arith,
            λ a h. ground (arith, free a, without a, covers_once same_size a 0 m r),
            λ a. ground (arith, free a, without a),
          )
  ]
]

-- AddFreeRange adds exactly the range, and the free ranges stay apart.
add_free_range_lem :
    (start count : ℕ) (m : List (ℕ × ℕ))
    → Spaced same_size 0 m
    → 1 ≤ count
    → ((a : ℕ) → within start count a ≡ true → covers same_size a m ≡ 0)
    → Spaced same_size 0 (add_free_range start count m)
      × ((a : ℕ)
          → covers same_size a (add_free_range start count m)
            ≡ bit (within start count a) + covers same_size a m)
unfolding add_free_range
add_free_range_lem start count m r p free =
    let (first, end, others) = join_previous start (start + count) m in
    let (spaced, filled, clear, sums) =
      join_previous_lem start (start + count) m r (omega arith) free in
    let (last, kept) = join_next first end others in
    let (spaced', longer, sums') = join_next_lem first end 0 others spaced filled clear in
    let (whole, sums'') =
      emplace_if_lem same_size true first (last - first) kept spaced' (λ h. omega (arith, longer))
        (λ a h.
          ground (arith, sums' a, clear a, covers_once same_size a 0 others spaced, longer)) in
    (whole, λ a. ground (arith, sums a, sums' a, sums'' a, longer))

give_back_lem :
    (s start count : ℕ) (a : Allocation) (d : DirectMemory)
    → Inv d
    → Assoc.find s d.allocations ≡ some a
    → s ≤ start
    → 1 ≤ count
    → start + count ≤ s + a.size
    → start + count ≤ direct_memory_size
    → Inv (give_back s a start count d)
      × ((x : ℕ)
          → covers allocated x d.allocations
            ≡ bit (within start count x)
              + covers allocated x (give_back s a start count d).allocations)
      × ((x : ℕ)
          → Backing.byte_at x (give_back s a start count d).backing.pages
            ≡ (if within start count x then 0 else Backing.byte_at x d.backing.pages))
unfolding give_back
give_back_lem s start count a d g f low some_count fits inside =
    let gone = Assoc.erase s d.allocations in
    let once : (x : ℕ) → covers allocated x d.allocations ≤ 1 =
      λ x. covers_once allocated x 0 d.allocations g.allocations_spaced in
    let without : (x : ℕ)
        → covers allocated x d.allocations ≡ bit (within s a.size x) + covers allocated x gone =
      λ x. covers-erase allocated x s 0 a d.allocations g.allocations_spaced f in
    let before : Allocation = record a { size = start - s } in
    let after : Allocation = record a { size = s + a.size - (start + count) } in
    let (spaced, sums) =
      emplace_if_lem allocated (ltb s start) s before gone
        (erase-Spaced allocated s 0 d.allocations g.allocations_spaced) (λ h. ground arith)
        (λ x h. ground (arith, without x, once x)) in
    let (spaced', sums') =
      emplace_if_lem allocated (ltb (start + count) (s + a.size)) (start + count) after
        (emplace_if (ltb s start) s before gone) spaced (λ h. ground arith)
        (λ x h. ground (arith, without x, sums x, once x)) in
    let (free, freed) =
      add_free_range_lem start count d.free_ranges g.free_spaced some_count
        (λ x h. ground (arith, without x, g.partition x)) in
    let (paged, size, bytes) =
      Backing.clear_lem start count d.backing g.paged (omega (arith, g.backed, inside)) in
    (
      record {
        free_spaced = free;
        allocations_spaced = spaced';
        partition = λ x. ground (arith, without x, sums x, sums' x, freed x, g.partition x);
        backed = cc (size, g.backed);
        paged = paged;
        mapped = g.mapped;
        apart = g.apart;
      },
      λ x. ground (arith, without x, sums x, sums' x),
      bytes,
    )

-- The physical address, if there is one, lies in the range.
abbrev pub leads_into : ℕ → ℕ → Option ℕ → Bool
leads_into start count none = false
leads_into start count (some a) = within start count a

unmapped_lem :
    (start count guest : ℕ) (mappings : List DirectMemoryMapping)
    → has_mapped_physical_overlap start count mappings ≡ false
    → leads_into start count (translate guest mappings) ≡ false
unfolding has_mapped_physical_overlap
unmapped_lem start count guest [] h = refl
unmapped_lem start count guest (m ∷ mappings) h =
    ground (arith, h, unmapped_lem start count guest mappings)

abbrev pub Released : ℕ → ℕ → DirectMemory → DirectMemory × KernelStatus → Type 0
Released start count d (d', status) =
    Inv d'
    × ((status ≡ kernel_ok)
          × ((x : ℕ)
              → covers allocated x d.allocations
                ≡ bit (within start count x) + covers allocated x d'.allocations)
          × ((x : ℕ)
              → Backing.byte_at x d'.backing.pages
                ≡ (if within start count x then 0 else Backing.byte_at x d.backing.pages))
          × ((guest : ℕ) → leads_into start count (translate guest d'.mappings) ≡ false)
          × (d'.mappings ≡ d.mappings)
        ⊎ (status ≢ kernel_ok) × (d' ≡ d))

refused :
    (start count : ℕ) (d : DirectMemory) (status : KernelStatus)
    → Inv d
    → status ≢ kernel_ok
    → Released start count d (d, status)
refused start count d status g h = (g, inr (h, refl))

release_from_lem :
    (start count : ℕ) (owner : Option (ℕ × Allocation)) (d : DirectMemory)
    → Inv d
    → is_outside start count ≡ false
    → has_mapped_physical_overlap start count d.mappings ≡ false
    → floor start d.allocations ≡ owner
    → Released start count d (release_from start count owner d)
release_from_lem start count none d g inside unmapped f =
    refused start count d not_found g (λ e. cc)
release_from_lem start count (some (s, a)) d g inside unmapped f =
    let (low, found, _) =
      floor_found Allocation allocated start 0 s a d.allocations g.allocations_spaced f in
    elim (Bool-cases (ltb start s || ltb (s + a.size) (start + count))) [
      | inl b ↦ rw b (refused start count d not_found g (λ e. cc))
      | inr b ↦
          elim (Bool-cases (
            ltb s start
            && ltb (start + count) (s + a.size)
            && leb maximum_direct_memory_allocations (length d.allocations))) [
              | inl l ↦ rw (b, l) (refused start count d no_resources g (λ e. cc))
              | inr l ↦
                  let (kept, sums, bytes) =
                    give_back_lem s start count a d g found low (ground (arith, inside))
                      (ground (arith, b)) (ground (arith, inside)) in
                  rw (b, l)
                    (
                      kept,
                      inl (
                        refl,
                        sums,
                        bytes,
                        λ guest.
                            unfold give_back in
                            (unmapped_lem start count guest d.mappings unmapped),
                        unfold give_back in refl,
                      ),
                    )
            ]
    ]

-- Release keeps the invariant. Where it succeeds, the whole range was allocated and no guest address
-- leads into it; it is allocated no more, its bytes read as 0, and no other address, no other byte and no
-- mapping changes. Where it does not, nothing changes.
pub release_lem :
    (start count : ℕ) (d : DirectMemory) → Inv d → Released start count d (release start count d)
unfolding release
release_lem start count d g = elim (Bool-cases (is_outside start count)) [
  | inl o ↦ rw o (refused start count d invalid_argument g (λ e. cc))
  | inr o ↦ elim (Bool-cases (has_mapped_physical_overlap start count d.mappings)) [
    | inl b ↦ rw (o, b) (refused start count d busy g (λ e. cc))
    | inr b ↦ rw (o, b) (release_from_lem start count (floor start d.allocations) d g o b refl)
  ]
]
