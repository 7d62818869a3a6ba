-- ===== src/Kernel/LibcHeap/History.antt =====
-- The memory spaces of src/kernel/libc_heap.cpp over any sequence of calls. A guest memory is told by a
-- number; `calls` gives its methods.
use kaj_ps.Base.{
  ℕ, ◌+◌, ◌-◌, ◌^◌, ◌≤◌, ◌<◌, ◌≡◌, refl, sym, ◌∙◌, ap, subst, Bool, false, not, ◌||◌, none, some,
  List, [], ◌∷◌, arith, ltb, leb, ◌==◌, ◌⊎◌, inl, inr, Option-cases, Bool-cases, length,
}
use kaj_ps.Base.Assoc
use kaj_ps.Kernel.DirectMemory.Inv.{same_size}
use kaj_ps.Kernel.LibcHeap.Memory.{GuestMemoryCalls}
use kaj_ps.Kernel.LibcHeap.Mspace.{
  Mspace, align_up, allocate_mspace_locked, release_mspace_locked, default_libc_heap_alignment,
}
use kaj_ps.Kernel.LibcHeap.Resize.{reallocate_in}
use kaj_ps.Kernel.LibcHeap.Align.{align_up_lem}
use kaj_ps.Kernel.LibcHeap.Service.{
  LibcHeap, new_heap, find_space, overlaps_space, new_mspace, first_address, create_mspace,
  destroy_mspace, allocate_mspace, reallocate_mspace, release_mspace, libc_mspace_metadata_bytes,
  maximum_libc_mspaces, is_unused,
}
use kaj_ps.Kernel.LibcHeap.Inv.{Inv, Owner}
use kaj_ps.Kernel.LibcHeap.Spaces.{allocate_mspace_locked_lem, release_mspace_locked_lem}
use kaj_ps.Kernel.LibcHeap.Moves.{reallocate_in_lem}

-- A space in the table: its allocations and free ranges fill the block from `first`, behind the
-- metadata, to the end.
abbrev pub Kept : ℕ → ℕ → ℕ → Mspace → Type 0
Kept here handle size m =
    (first : ℕ) × (handle + libc_mspace_metadata_bytes ≤ first)
    × (handle + size < 2 ^ 64)
    × Inv (here, handle, size) first (handle + size) m

pub record HeapInv (h : LibcHeap) : Type 0 where
  pub spaces : (k : ℕ) (m : Mspace) → Assoc.find k h.mspaces ≡ some m → Kept m.memory k m.size m
  pub apart :
      (k j : ℕ) (m n : Mspace)
      → Assoc.find k h.mspaces ≡ some m
      → Assoc.find j h.mspaces ≡ some n
      → m.memory ≡ n.memory
      → k < j
      → k + m.size ≤ j

pub new_heap-HeapInv : HeapInv new_heap
unfolding new_heap Assoc.find
new_heap-HeapInv = record {
  spaces = λ k m e. absurd (ground arith);
  apart = λ k j m n e f. absurd (ground arith);
}

find_space_found :
    (here handle : ℕ) (m : Mspace) (h : LibcHeap)
    → find_space here handle h ≡ some m
    → (Assoc.find handle h.mspaces ≡ some m) × (m.memory ≡ here)
find_space_found here handle m h e = elim (Option-cases (Assoc.find handle h.mspaces)) [
  | inl f ↦ absurd (ground (arith, f, e))
  | inr (n, f) ↦ (ground (arith, f, e), ground (arith, f, e))
]

-- What stands in the table after a write.
module _ (handle : ℕ) (m m' : Mspace) (ms : List (ℕ × Mspace))
    (f : Assoc.find handle ms ≡ some m) where
  written :
      (k : ℕ) (n : Mspace)
      → Assoc.find k (Assoc.update handle m' ms) ≡ some n
      → (k ≡ handle) × (n ≡ m') ⊎ (Assoc.find k ms ≡ some n)
  written k n e = elim (Bool-cases (handle == k)) [
    | inl q ↦ inl (ground (arith, q), ground (arith, q, f, e, Assoc.find-update k handle m' ms))
    | inr q ↦ inr (ground (arith, q, e, Assoc.find-update k handle m' ms))
  ]

  origin :
      (k : ℕ) (n : Mspace)
      → m'.memory ≡ m.memory
      → m'.size ≡ m.size
      → Assoc.find k (Assoc.update handle m' ms) ≡ some n
      → (o : Mspace) × (Assoc.find k ms ≡ some o) × (o.memory ≡ n.memory) × (o.size ≡ n.size)
  origin k n same_memory same_size e = elim (written k n e) [
    | inr there ↦ (n, there, refl, refl)
    | inl (here, same) ↦ (
      m,
      subst (λ j. Assoc.find j ms ≡ some m) (sym here) f,
      sym same_memory ∙ ap (λ (o : Mspace). o.memory) (sym same),
      sym same_size ∙ ap (λ (o : Mspace). o.size) (sym same),
    )
  ]

-- A space written back after an operation on it.
store_space-HeapInv :
    (handle count : ℕ) (m m' : Mspace) (h : LibcHeap)
    → HeapInv h
    → Assoc.find handle h.mspaces ≡ some m
    → Kept m.memory handle m.size m'
    → HeapInv
        (record h { mspaces = Assoc.update handle m' h.mspaces; mspace_allocation_count = count })
store_space-HeapInv handle count m m' h g f kept =
    let (first, above, below, g') = kept in
    let same_memory : m'.memory ≡ m.memory = ap (λ (o : Owner). o.0) g'.identity in
    let same_size : m'.size ≡ m.size = ap (λ (o : Owner). o.2) g'.identity in
    let own : Kept m'.memory handle m'.size m' =
      subst (λ a. Kept a handle m'.size m') (sym same_memory)
        (subst (λ b. Kept m.memory handle b m') (sym same_size) kept) in
    record {
      spaces = λ k n e. elim (written handle m m' h.mspaces f k n e) [
        | inr there ↦ g.spaces k n there
        | inl (here, same) ↦
            subst (λ j. Kept n.memory j n.size n) (sym here)
              (subst (λ (o : Mspace). Kept o.memory handle o.size o) (sym same) own)
      ];
      apart = λ k j n p e i same less.
          let (n0, e0, a, b) = origin handle m m' h.mspaces f k n same_memory same_size e in
          let (p0, i0, c, d) = origin handle m m' h.mspaces f j p same_memory same_size i in
          let space : k + n0.size ≤ j = g.apart k j n0 p0 e0 i0 (a ∙ same ∙ sym c) less in
          omega (arith, space, b);
    }

-- A new space does not meet those of the same memory.
overlaps_lem :
    (here base end k : ℕ) (n : Mspace) (ms : List (ℕ × Mspace))
    → overlaps_space here base end ms ≡ false
    → Assoc.find k ms ≡ some n
    → n.memory ≡ here
    → end ≤ n.base_address ⊎ n.base_address + n.size ≤ base
unfolding overlaps_space Assoc.find
overlaps_lem here base end k n [] o f e = absurd (ground arith)
overlaps_lem here base end k n ((j, m) ∷ ms) o f e = elim (Bool-cases (j == k)) [
  | inr q ↦ overlaps_lem here base end k n ms (ground (arith, o)) (ground (arith, q, f)) e
  | inl q ↦
      let same : m ≡ n = ground (arith, q, f) in
      let o' : overlaps_space here base end ((j, n) ∷ ms) ≡ false =
        subst (λ (t : Mspace). overlaps_space here base end ((j, t) ∷ ms) ≡ false) same o in
      ground (arith, o', e)
]

first_address_lem {ℓ} :
    {M : Type ℓ} (calls : GuestMemoryCalls M) (here base size first : ℕ) (memory : M)
    → first_address calls here base size memory ≡ some first
    → (base + libc_mspace_metadata_bytes ≤ first) × (first < base + size) × (base + size < 2 ^ 64)
unfolding first_address
first_address_lem calls here base size first memory e =
    elim (Bool-cases (
      (base == 0)
      || leb size libc_mspace_metadata_bytes
      || ltb (2 ^ 64 - 1 - size) base
      || not (calls.can_access base size memory))) [
        | inl b ↦ absurd (ground (arith, b, e))
        | inr b ↦
            elim (Option-cases
              (align_up (base + libc_mspace_metadata_bytes) default_libc_heap_alignment)) [
                | inl f ↦ absurd (ground (arith, b, f, e))
                | inr (x, f) ↦
                    let (low, _, _) =
                      align_up_lem (base + libc_mspace_metadata_bytes) default_libc_heap_alignment x
                        (omega arith) f in
                    let same : x ≡ first = ground (arith, b, f, e) in
                    (omega (arith, low, same), ground (arith, b, f, e), ground (arith, b))
              ]
      ]

new_mspace_lem :
    (here base size first : ℕ)
    → base + libc_mspace_metadata_bytes ≤ first
    → first < base + size
    → base + size < 2 ^ 64
    → Kept here base size (new_mspace here base size first)
new_mspace_lem here base size first above inside wide = (
  first,
  above,
  wide,
  record {
    identity = refl;
    free_spaced = (omega arith, omega arith, tt);
    allocations_spaced = tt;
    partition = λ a. ground arith;
    in_use = refl;
    peak = omega arith;
  },
)

-- A space put into the table.
module _ (here base size first : ℕ) (ms : List (ℕ × Mspace))
    (missing : Assoc.find base ms ≡ none) where
  abbrev new_space : Mspace
  new_space = new_mspace here base size first

  put_in :
      (k : ℕ) (n : Mspace)
      → Assoc.find k (Assoc.emplace base (new_mspace here base size first) ms) ≡ some n
      → (k ≡ base) × (n ≡ new_mspace here base size first) ⊎ (Assoc.find k ms ≡ some n)
  put_in k n e =
      let found = Assoc.find-emplace k base (new_mspace here base size first) ms missing in
      elim (Bool-cases (base == k)) [
        | inl q ↦ inl (ground (arith, q), ground (arith, q, e, found))
        | inr q ↦ inr (ground (arith, q, e, found))
      ]

new_mspace-HeapInv :
    (here base size first : ℕ) (h : LibcHeap)
    → HeapInv h
    → Kept here base size (new_mspace here base size first)
    → Assoc.find base h.mspaces ≡ none
    → overlaps_space here base (base + size) h.mspaces ≡ false
    → HeapInv
        (record h { mspaces = Assoc.emplace base (new_mspace here base size first) h.mspaces })
new_mspace-HeapInv here base size first h g kept missing clear =
    let new = new_mspace here base size first in
    let put' = put_in here base size first h.mspaces missing in
    let based : (k : ℕ) (n : Mspace) → Assoc.find k h.mspaces ≡ some n → n.base_address ≡ k =
      λ k n e. ap (λ (o : Owner). o.1) (g.spaces k n e).3.identity in
    record {
      spaces = λ k n e. elim (put' k n e) [
        | inr there ↦ g.spaces k n there
        | inl (at, same) ↦
            subst (λ j. Kept n.memory j n.size n) (sym at)
              (subst (λ (o : Mspace). Kept o.memory base o.size o) (sym same) kept)
      ];
      apart = λ k j n p e i same less. elim (put' k n e) [
        | inr there ↦ elim (put' j p i) [
          | inr there' ↦ g.apart k j n p there there' same less
          | inl (at, q) ↦
              let owned : n.memory ≡ here = same ∙ ap (λ (o : Mspace). o.memory) q in
              elim (overlaps_lem here base (base + size) k n h.mspaces clear there owned) [
                | inl x ↦ absurd (omega (arith, x, based k n there, at, less))
                | inr x ↦ omega (arith, x, based k n there, at)
              ]
        ]
        | inl (at, q) ↦ elim (put' j p i) [
          | inr there' ↦
              let owned : p.memory ≡ here = sym same ∙ ap (λ (o : Mspace). o.memory) q in
              let length : n.size ≡ size = ap (λ (o : Mspace). o.size) q in
              elim (overlaps_lem here base (base + size) j p h.mspaces clear there' owned) [
                | inl x ↦ omega (arith, x, based j p there', at, length)
                | inr x ↦ absurd (omega (arith, x, based j p there', at, less))
              ]
          | inl (at', q') ↦ absurd (omega (arith, at, at', less))
        ]
      ];
    }

module _ {ℓ} {M : Type ℓ} (calls : ℕ → GuestMemoryCalls M) where
  create_mspace-HeapInv :
      (here base size : ℕ) (h : LibcHeap) (memory : M)
      → HeapInv h
      → HeapInv (create_mspace (calls here) here base size h memory).0
  unfolding create_mspace
  create_mspace-HeapInv here base size h memory g =
      elim (Option-cases (first_address (calls here) here base size memory)) [
        | inl f ↦ rw (f, create_mspace) g
        | inr (first, f) ↦
            let (above, inside, wide) =
              first_address_lem (calls here) here base size first memory f in
            elim (Bool-cases (
              leb maximum_libc_mspaces (length h.mspaces)
              || Assoc.is_some (Assoc.find base h.mspaces))) [
                | inl b ↦ rw (f, b, create_mspace) g
                | inr b ↦ elim (Bool-cases (overlaps_space here base (base + size) h.mspaces)) [
                  | inl o ↦ rw (f, b, o, create_mspace) g
                  | inr o ↦
                      rw (f, b, o, create_mspace)
                        (new_mspace-HeapInv here base size first h g
                          (new_mspace_lem here base size first above inside wide)
                          (ground (arith, b, Option-cases (Assoc.find base h.mspaces))) o)
                ]
              ]
      ]

  destroy_mspace-HeapInv :
      (here handle : ℕ) (h : LibcHeap)
      → HeapInv h
      → HeapInv (destroy_mspace (calls here) here handle h).0
  unfolding destroy_mspace
  destroy_mspace-HeapInv here handle h g = elim (Option-cases (find_space here handle h)) [
    | inl f ↦ rw (f, destroy_mspace) g
    | inr (m, f) ↦ elim (Bool-cases (not (is_unused m.allocations))) [
      | inl u ↦ rw (f, u, destroy_mspace) g
      | inr u ↦
          let left : (k : ℕ) (n : Mspace)
              → Assoc.find k (Assoc.erase handle h.mspaces) ≡ some n
              → Assoc.find k h.mspaces ≡ some n =
            λ k n e. ground (arith, e, Assoc.find-erase k handle h.mspaces) in
          rw (f, u, destroy_mspace)
            (record {
              spaces = λ k n e. g.spaces k n (left k n e);
              apart = λ k j n p e i. g.apart k j n p (left k n e) (left j p i);
            })
    ]
  ]

  allocate_mspace-HeapInv :
      (here handle size alignment : ℕ) (zero_fill : Bool) (h : LibcHeap) (memory : M)
      → alignment < 2 ^ 64
      → HeapInv h
      → HeapInv (allocate_mspace (calls here) here handle size alignment zero_fill h memory).0.0
  unfolding allocate_mspace
  allocate_mspace-HeapInv here handle size alignment zero_fill h memory w g =
      elim (Option-cases (find_space here handle h)) [
        | inl f ↦ rw (f, allocate_mspace) g
        | inr (m, f) ↦
            let (there, owned) = find_space_found here handle m h f in
            let (first, above, below, kept) = g.spaces handle m there in
            let count = h.mspace_allocation_count in
            let answer =
              allocate_mspace_locked (calls here) size alignment zero_fill (m, count, memory) in
            let (kept', _) =
              allocate_mspace_locked_lem (calls here) (m.memory, handle, m.size) first
                (handle + m.size) size alignment zero_fill m count memory (omega arith) w kept in
            rw (f, allocate_mspace)
              (store_space-HeapInv handle answer.0.1 m answer.0.0 h g there
                (first, above, below, kept'))
      ]

  release_mspace-HeapInv :
      (here handle address : ℕ) (h : LibcHeap)
      → HeapInv h
      → HeapInv (release_mspace (calls here) here handle address h).0
  unfolding release_mspace
  release_mspace-HeapInv here handle address h g = elim (Option-cases (find_space here handle h)) [
    | inl f ↦ rw (f, release_mspace) g
    | inr (m, f) ↦
        let (there, owned) = find_space_found here handle m h f in
        let (first, above, below, kept) = g.spaces handle m there in
        let count = h.mspace_allocation_count in
        let answer = release_mspace_locked address (m, count) in
        let (kept', _) =
          release_mspace_locked_lem (m.memory, handle, m.size) first (handle + m.size) address count
            m kept in
        rw (f, release_mspace)
          (store_space-HeapInv handle answer.0.1 m answer.0.0 h g there
            (first, above, below, kept'))
  ]

  reallocate_in-Inv :
      (here address size alignment : ℕ) (owner : Owner) (first last : ℕ) (m : Mspace) (total : ℕ)
      (memory : M)
      → 1 ≤ first
      → alignment < 2 ^ 64
      → Inv owner first last m
      → Inv owner first last
          (reallocate_in (calls here) address size alignment (m, total, memory)).0.0
  reallocate_in-Inv here address size alignment owner first last m total memory positive w g =
      elim (Bool-cases (address == 0)) [
        | inl a ↦
            unfold reallocate_in in
            rw a
              (allocate_mspace_locked_lem (calls here) owner first last size alignment false m total
                memory positive w g).0
        | inr a ↦ elim (Bool-cases (size == 0)) [
          | inl b ↦
              unfold reallocate_in in
              rw (a, b) (release_mspace_locked_lem owner first last address total m g).0
          | inr b ↦
              (reallocate_in_lem (calls here) owner first last address size alignment m total memory
                (ground (arith, a)) (ground (arith, b)) positive w g).0
        ]
      ]

  reallocate_mspace-HeapInv :
      (here handle address size alignment : ℕ) (h : LibcHeap) (memory : M)
      → alignment < 2 ^ 64
      → HeapInv h
      → HeapInv (reallocate_mspace (calls here) here handle address size alignment h memory).0.0
  unfolding reallocate_mspace
  reallocate_mspace-HeapInv here handle address size alignment h memory w g =
      elim (Option-cases (find_space here handle h)) [
        | inl f ↦ rw (f, reallocate_mspace) g
        | inr (m, f) ↦
            let (there, owned) = find_space_found here handle m h f in
            let (first, above, below, kept) = g.spaces handle m there in
            let count = h.mspace_allocation_count in
            let answer = reallocate_in (calls here) address size alignment (m, count, memory) in
            let kept' =
              reallocate_in-Inv here address size alignment (m.memory, handle, m.size) first
                (handle + m.size) m count memory (omega arith) w kept in
            rw (f, reallocate_mspace)
              (store_space-HeapInv handle answer.0.1 m answer.0.0 h g there
                (first, above, below, kept'))
      ]

-- The calls on memory spaces, each with the guest memory it names.
pub data Call : Type 0 where
  creates : (here base size : ℕ) → Call
  destroys : (here handle : ℕ) → Call
  allocates : (here handle size alignment : ℕ) → Bool → Call
  reallocates : (here handle address size alignment : ℕ) → Call
  releases : (here handle address : ℕ) → Call

-- The alignment of a call is a 64-bit number.
abbrev pub IsWide : Call → Type 0
IsWide (creates here base size) = Unit {0}
IsWide (destroys here handle) = Unit {0}
IsWide (allocates here handle size alignment zero_fill) = alignment < 2 ^ 64
IsWide (reallocates here handle address size alignment) = alignment < 2 ^ 64
IsWide (releases here handle address) = Unit {0}

abbrev pub AreWide : List Call → Type 0
AreWide [] = Unit {0}
AreWide (c ∷ cs) = IsWide c × AreWide cs

module _ {ℓ} {M : Type ℓ} (calls : ℕ → GuestMemoryCalls M) where
  unfoldable pub perform : Call → LibcHeap × M → LibcHeap × M
  perform (creates here base size) (h, memory) =
      ((create_mspace (calls here) here base size h memory).0, memory)
  perform (destroys here handle) (h, memory) =
      ((destroy_mspace (calls here) here handle h).0, memory)
  perform (allocates here handle size alignment zero_fill) (h, memory) =
      (allocate_mspace (calls here) here handle size alignment zero_fill h memory).0
  perform (reallocates here handle address size alignment) (h, memory) =
      (reallocate_mspace (calls here) here handle address size alignment h memory).0
  perform (releases here handle address) (h, memory) =
      ((release_mspace (calls here) here handle address h).0, memory)

  unfoldable pub perform_all : List Call → LibcHeap × M → LibcHeap × M
  perform_all [] s = s
  perform_all (c ∷ cs) s = perform_all cs (perform c s)

  perform-HeapInv :
      (c : Call) (h : LibcHeap) (memory : M)
      → IsWide c
      → HeapInv h
      → HeapInv (perform c (h, memory)).0
  unfolding perform
  perform-HeapInv (creates here base size) h memory w g =
      create_mspace-HeapInv calls here base size h memory g
  perform-HeapInv (destroys here handle) h memory w g = destroy_mspace-HeapInv calls here handle h g
  perform-HeapInv (allocates here handle size alignment zero_fill) h memory w g =
      allocate_mspace-HeapInv calls here handle size alignment zero_fill h memory w g
  perform-HeapInv (reallocates here handle address size alignment) h memory w g =
      reallocate_mspace-HeapInv calls here handle address size alignment h memory w g
  perform-HeapInv (releases here handle address) h memory w g =
      release_mspace-HeapInv calls here handle address h g

  kept_through :
      (cs : List Call) (h : LibcHeap) (memory : M)
      → AreWide cs
      → HeapInv h
      → HeapInv (perform_all cs (h, memory)).0
  unfolding perform_all
  kept_through [] h memory w g = g
  kept_through (c ∷ cs) h memory w g =
      let (h', memory') = perform c (h, memory) in
      kept_through cs h' memory' w.1 (perform-HeapInv c h memory w.0 g)

  -- After any sequence of calls with 64-bit alignments on a new service, every address of a memory
  -- space behind its metadata lies in exactly one of its free ranges or exactly one of its allocations
  -- and no other address in any, the bytes in use are those of its allocations and no more than the
  -- maximum noted, and spaces of the same guest memory do not overlap.
  pub perform_all-HeapInv :
      (cs : List Call) (memory : M) → AreWide cs → HeapInv (perform_all cs (new_heap, memory)).0
  perform_all-HeapInv cs memory w = kept_through cs new_heap memory w new_heap-HeapInv
