-- ===== src/Kernel/DirectMemory/Inv.antt =====
-- The invariant of DirectMemoryService, and what the searches of its maps find.
use kaj_ps.Base.{
  ℕ, suc, ◌+◌, ◌*◌, ◌/◌, ◌%◌, ◌≤◌, ◌<◌, ◌≡◌, ◌≢◌, refl, Bool, false, Option, none, some, List, [],
  ◌∷◌, arith, ltb, ◌==◌, bit, max, inl, inr, Option-cases, Bool-cases,
}
use native.Mathlib.Nat.{mod-add-div, mul-mod_right, mod-lt}
use kaj_ps.Base.Assoc
use kaj_ps.Kernel.DirectMemory.Ranges.{
  covers, Spaced, floor, from_floor, find_low, Spaced-mono, covers_below,
}
use kaj_ps.Kernel.DirectMemory.Mappings.{Fits, mapped_count}
use kaj_ps.Kernel.DirectMemory.{
  DirectMemory, Allocation, new, direct_memory_size, align_up, place, first_fit,
}

abbrev pub same_size : ℕ → ℕ
same_size n = n

abbrev pub allocated : Allocation → ℕ
allocated a = a.size

-- Every address of the memory lies in exactly one free range or in exactly one allocation, and no
-- other address in any; and the mappings stay within bounds and apart.
pub record Inv (d : DirectMemory) : Type 0 where
  pub free_spaced : Spaced same_size 0 d.free_ranges
  pub allocations_spaced : Spaced allocated 0 d.allocations
  pub partition :
      (a : ℕ)
      → covers same_size a d.free_ranges + covers allocated a d.allocations
        ≡ bit (ltb a direct_memory_size)
  pub backed : d.backing.size ≡ direct_memory_size
  pub paged : Assoc.Above 0 d.backing.pages
  pub mapped : Fits direct_memory_size d.mappings
  pub apart : (a : ℕ) → mapped_count a d.mappings ≤ 1

pub new-Inv : Inv new
unfolding new
new-Inv = record {
  free_spaced = (omega arith, omega arith, tt);
  allocations_spaced = tt;
  partition = λ a. ground arith;
  backed = refl;
  paged = tt;
  mapped = tt;
  apart = λ a. omega arith;
}

-- The entry that the search by upper_bound finds stands in the map, at a key up to `k`.
pub floor_found :
    (V : Type 0) (size : V → ℕ) (k b s : ℕ) (v : V) (m : List (ℕ × V))
    → Spaced size b m
    → floor k m ≡ some (s, v)
    → (s ≤ k) × (Assoc.find s m ≡ some v) × (b ≤ s)
unfolding floor Assoc.find
floor_found V size k b s v [] r e = absurd (ground arith)
floor_found V size k b s v ((t, w) ∷ m) r e =
    ground (arith, floor_found V size k (t + size w) s v m r.2)

floor_low :
    (V : Type 0) (size : V → ℕ) (k b : ℕ) (m : List (ℕ × V))
    → Spaced size b m
    → k < b
    → floor k m ≡ none
unfolding floor
floor_low V size k b [] r h = refl
floor_low V size k b ((t, w) ∷ m) r h = ground arith

-- Whether the entry reaches beyond `k`.
abbrev pub reaches : (V : Type 0) → (V → ℕ) → ℕ → Option (ℕ × V) → Bool
reaches V size k none = false
reaches V size k (some (s, v)) = ltb k (s + size v)

-- A range that holds an address is the one the search finds.
pub covers-floor :
    (V : Type 0) (size : V → ℕ) (k b : ℕ) (m : List (ℕ × V))
    → Spaced size b m
    → covers size k m ≡ bit (reaches V size k (floor k m))
unfolding floor
covers-floor V size k b [] r = refl
covers-floor V size k b ((t, w) ∷ m) r = ground (
  arith,
  covers-floor V size k (t + size w) m r.2,
  covers_below size k (t + size w) m r.2,
  Option-cases (floor k m),
  floor_low V size k (t + size w) m r.2,
)

pub find-from_floor :
    (V : Type 0) (size : V → ℕ) (k b s : ℕ) (v : V) (m : List (ℕ × V))
    → Spaced size b m
    → Assoc.find s (from_floor k m) ≡ some v
    → Assoc.find s m ≡ some v
unfolding from_floor Assoc.find
find-from_floor V size k b s v [] r e = e
find-from_floor V size k b s v ((t, w) ∷ m) r e =
    ground (arith, find-from_floor V size k (t + size w) s v m r.2, find_low size s (t + size w) m)

pub from_floor-Spaced :
    (V : Type 0) (size : V → ℕ) (k b : ℕ) (m : List (ℕ × V))
    → Spaced size b m
    → Spaced size b (from_floor k m)
unfolding from_floor
from_floor-Spaced V size k b [] r = tt
from_floor-Spaced V size k b ((t, w) ∷ m) r = ground (
  arith,
  from_floor-Spaced V size k (t + size w) m r.2,
  Spaced-mono size b (t + size w) (from_floor k m),
)

-- AlignUp gives the least multiple of the alignment that is not below the value.
pub align_up_lem :
    (value alignment x : ℕ)
    → align_up value alignment ≡ some x
    → (value ≤ x) × (alignment ≢ 0 → (x % alignment ≡ 0) × (x < value + alignment))
unfolding align_up
align_up_lem value alignment x e =
    let split : value % alignment + alignment * (value / alignment) ≡ value =
      mod-add-div value alignment in
    let next : alignment * (value / alignment) + alignment ≡ alignment * suc (value / alignment) =
      grind arith in
    let multiple : alignment * suc (value / alignment) % alignment ≡ 0 =
      mul-mod_right alignment (suc (value / alignment)) in
    (
      ground arith,
      λ h.
          let below : value % alignment < alignment = mod-lt value (ground (arith, h)) in
          elim (Bool-cases (value % alignment == 0)) [
            | inl f ↦
                let same : x ≡ value = ground (arith, f, h) in
                (rw same (ground (arith, f)), ground (arith, same, h))
            | inr f ↦
                let same : x ≡ alignment * suc (value / alignment) =
                  ground (arith, f, h, split, next, below) in
                (rw same multiple, ground (arith, same, split, next, below, f))
          ],
    )

pub place_lem :
    (search bounded count alignment s n x : ℕ)
    → place search bounded count alignment (s, n) ≡ some x
    → (s ≤ x)
      × (search ≤ x)
      × (x + count ≤ s + n)
      × (x + count ≤ bounded)
      × (alignment ≢ 0 → x % alignment ≡ 0)
unfolding place
place_lem search bounded count alignment s n x e =
    elim (Option-cases (align_up (max s search) alignment)) [
      | inl f ↦ absurd (ground (arith, f))
      | inr (y, f) ↦
          let (low, aligned) = align_up_lem (max s search) alignment y f in
          let same : x ≡ y = ground (arith, f) in
          (
            omega (arith, low, same),
            omega (arith, low, same),
            ground (arith, f, low),
            ground (arith, f, low),
            λ h. rw same (aligned h).0,
          )
    ]

pub first_fit_found :
    (search bounded count alignment b s n x : ℕ) (m : List (ℕ × ℕ))
    → Spaced same_size b m
    → first_fit search bounded count alignment m ≡ some ((s, n), x)
    → (Assoc.find s m ≡ some n) × (place search bounded count alignment (s, n) ≡ some x)
unfolding first_fit Assoc.find
first_fit_found search bounded count alignment b s n x [] r e = absurd (ground arith)
first_fit_found search bounded count alignment b s n x ((t, w) ∷ m) r e = ground (
  arith,
  first_fit_found search bounded count alignment (t + w) s n x m r.2,
  find_low same_size s (t + w) m r.2,
)
