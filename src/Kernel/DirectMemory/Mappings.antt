-- ===== src/Kernel/DirectMemory/Mappings.antt =====
-- The mappings of src/kernel/direct_memory.cpp: a list of guest ranges, each with the physical
-- address of its start, and the loop of UnregisterMappings.
use kaj_ps.Base.{
  ◌++◌, ℕ, ◌+◌, ◌-◌, ◌%◌, ◌^◌, ◌≤◌, ◌≡◌, refl, Bool, ◌&&◌, Option, none, some, List, [], ◌∷◌, arith,
  ltb, leb, ◌==◌, if◌then◌else◌, min, max, bit, ◌<◌,
}
use kaj_ps.Kernel.DirectMemory.Ranges.{within}

pub record DirectMemoryMapping : Type 0 where
  pub guest_address : ℕ
  pub physical_address : ℕ
  pub size : ℕ

abbrev pub meets_physical : ℕ → ℕ → DirectMemoryMapping → Bool
meets_physical start end m = ltb start (m.physical_address + m.size) && ltb m.physical_address end

abbrev pub meets_guest : ℕ → ℕ → DirectMemoryMapping → Bool
meets_guest start end m = ltb start (m.guest_address + m.size) && ltb m.guest_address end

-- What one turn of the loop of UnregisterMappings puts in a mapping's place. The suffix's physical
-- address is computed by 64-bit numbers from left to right.
unfoldable pub unregister_one : ℕ → ℕ → DirectMemoryMapping → List DirectMemoryMapping
unregister_one guest guest_end m =
    let mapping_end = m.guest_address + m.size in
    let overlap_start = max guest m.guest_address in
    let overlap_end = min guest_end mapping_end in
    let removed = overlap_end - m.guest_address in
    if leb overlap_end overlap_start
    then m ∷ []
    else if (overlap_start == m.guest_address) && (overlap_end == mapping_end)
    then []
    else if overlap_start == m.guest_address
    then record {
      guest_address = overlap_end;
      physical_address = m.physical_address + removed;
      size = m.size - removed;
    }
      ∷ []
    else if overlap_end == mapping_end
    then record m { size = overlap_start - m.guest_address } ∷ []
    else record m { size = overlap_start - m.guest_address }
      ∷ record {
        guest_address = overlap_end;
        physical_address =
            ((m.physical_address + overlap_end) % 2 ^ 64 + (2 ^ 64 - m.guest_address)) % 2 ^ 64;
        size = mapping_end - overlap_end;
      }
      ∷ []

-- The loop of UnregisterMappings.
unfoldable pub unregister : ℕ → ℕ → List DirectMemoryMapping → List DirectMemoryMapping
unregister guest guest_end [] = []
unregister guest guest_end (m ∷ mappings) =
    unregister_one guest guest_end m ++ unregister guest guest_end mappings

-- Every mapping stays within the guest's 64-bit addresses and within a memory of `limit` bytes.
abbrev pub Fits : ℕ → List DirectMemoryMapping → Type 0
Fits limit [] = Unit {0}
Fits limit (m ∷ ms) =
    (m.guest_address + m.size < 2 ^ 64) × (m.physical_address + m.size ≤ limit) × Fits limit ms

-- How many mappings a guest address lies in.
abbrev pub mapped_count : ℕ → List DirectMemoryMapping → ℕ
mapped_count a [] = 0
mapped_count a (m ∷ ms) = bit (within m.guest_address m.size a) + mapped_count a ms

-- Where the physical byte of a guest address lies.
abbrev pub translate : ℕ → List DirectMemoryMapping → Option ℕ
translate a [] = none
translate a (m ∷ ms) =
    if within m.guest_address m.size a
    then some (m.physical_address + (a - m.guest_address))
    else translate a ms

pub Fits-append :
    (limit : ℕ) (ms ns : List DirectMemoryMapping)
    → Fits limit ms
    → Fits limit ns
    → Fits limit (ms ++ ns)
Fits-append limit [] ns f g = g
Fits-append limit (m ∷ ms) ns f g = (f.0, f.1, Fits-append limit ms ns f.2 g)

pub mapped_count-append :
    (a : ℕ) (ms ns : List DirectMemoryMapping)
    → mapped_count a (ms ++ ns) ≡ mapped_count a ms + mapped_count a ns
mapped_count-append a [] ns = omega arith
mapped_count-append a (m ∷ ms) ns = omega (arith, mapped_count-append a ms ns)

or_else : Option ℕ → Option ℕ → Option ℕ
or_else none o = o
or_else (some x) o = some x

translate-append :
    (a : ℕ) (ms ns : List DirectMemoryMapping)
    → translate a (ms ++ ns) ≡ or_else (translate a ms) (translate a ns)
unfolding or_else
translate-append a [] ns = refl
translate-append a (m ∷ ms) ns = ground (arith, translate-append a ms ns)

unregister_one_lem :
    (a guest guest_end limit : ℕ) (m : DirectMemoryMapping)
    → m.guest_address + m.size < 2 ^ 64
    → m.physical_address + m.size ≤ limit
    → limit < 2 ^ 64
    → Fits limit (unregister_one guest guest_end m)
      × (mapped_count a (unregister_one guest guest_end m)
          ≡ (if leb guest a && ltb a guest_end then 0 else mapped_count a (m ∷ [])))
      × (translate a (unregister_one guest guest_end m)
          ≡ (if leb guest a && ltb a guest_end then none else translate a (m ∷ [])))
unfolding unregister_one
unregister_one_lem a guest guest_end limit m f p l = (ground arith, ground arith, ground arith)

-- UnregisterMappings unmaps exactly the guest addresses of its range: all others keep their
-- translation, and no mapping leaves its bounds.
pub unregister_lem :
    (a guest guest_end limit : ℕ) (ms : List DirectMemoryMapping)
    → Fits limit ms
    → limit < 2 ^ 64
    → Fits limit (unregister guest guest_end ms)
      × (mapped_count a (unregister guest guest_end ms)
          ≡ (if leb guest a && ltb a guest_end then 0 else mapped_count a ms))
      × (translate a (unregister guest guest_end ms)
          ≡ (if leb guest a && ltb a guest_end then none else translate a ms))
unfolding unregister or_else
unregister_lem a guest guest_end limit [] f l = (tt, ground arith, ground arith)
unregister_lem a guest guest_end limit (m ∷ ms) f l =
    let head = unregister_one guest guest_end m in
    let tail = unregister guest guest_end ms in
    let (fits, counted, sent) = unregister_one_lem a guest guest_end limit m f.0 f.1 l in
    let (fits', counted', sent') = unregister_lem a guest guest_end limit ms f.2 l in
    (
      Fits-append limit head tail fits fits',
      ground (arith, mapped_count-append a head tail, counted, counted'),
      ground (arith, translate-append a head tail, sent, sent'),
    )
