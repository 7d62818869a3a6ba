-- ===== src/Kernel/LibcHeap/Ranges.antt =====
-- The free ranges of a memory space of src/kernel/libc_heap.cpp: what a cut and an AddFreeRange do to
-- the set of their addresses.
use kaj_ps.Base.{
  ℕ, ◌+◌, ◌-◌, ◌≤◌, ◌<◌, ◌≡◌, refl, true, none, some, List, [], ◌∷◌, arith, ◌==◌, bit, inl, inr,
  Option-cases, Bool-cases,
}
use kaj_ps.Base.Assoc
use kaj_ps.Kernel.DirectMemory.Ranges.{
  within, covers, Spaced, floor, covers-erase, covers_once, erase-Spaced, erase_low, find_low,
}
use kaj_ps.Kernel.DirectMemory.{consume_free_range}
use kaj_ps.Kernel.DirectMemory.Inv.{same_size, floor_found}
use kaj_ps.Kernel.DirectMemory.Allocate.{emplace_if_lem, consume_lem}
use kaj_ps.Kernel.LibcHeap.Mspace.{
  cut_range, previous_range, join_before, next_range, join_after, add_free_range,
}

module _ {ℓ} {V : Type ℓ} (size : V → ℕ) where
  update_low :
      (k b : ℕ) (w : V) (m : List (ℕ × V)) → Spaced size b m → k < b → Assoc.update k w m ≡ m
  unfolding Assoc.update
  update_low k b w [] r h = refl
  update_low k b w ((j, v) ∷ m) r h = ground (arith, update_low k (j + size v) w m r.2)

  emplace_low :
      (k b : ℕ) (w : V) (m : List (ℕ × V))
      → Spaced size b m
      → k < b
      → Assoc.emplace k w m ≡ (k, w) ∷ m
  unfolding Assoc.emplace
  emplace_low k b w [] r h = refl
  emplace_low k b w ((j, v) ∷ m) r h = ground arith

  -- A write at a key that is there takes the entry out and puts the new one in.
  pub update-emplace :
      (k b : ℕ) (v w : V) (m : List (ℕ × V))
      → Spaced size b m
      → Assoc.find k m ≡ some v
      → Assoc.update k w m ≡ Assoc.emplace k w (Assoc.erase k m)
  unfolding Assoc.find Assoc.update Assoc.erase Assoc.emplace
  update-emplace k b v w [] r f = absurd (ground arith)
  update-emplace k b v w ((j, u) ∷ m) r f = ground (
    arith,
    update-emplace k (j + size u) v w m r.2,
    update_low k (j + size u) w m r.2,
    erase_low size k (j + size u) m r.2,
    emplace_low k (j + size u) w m r.2,
    find_low size k (j + size u) m r.2,
  )

  -- The sizes of the entries together.
  abbrev pub total : List (ℕ × V) → ℕ
  total [] = 0
  total ((k, v) ∷ m) = size v + total m

  pub total-emplace :
      (k : ℕ) (v : V) (m : List (ℕ × V))
      → Assoc.find k m ≡ none
      → total (Assoc.emplace k v m) ≡ size v + total m
  unfolding Assoc.find Assoc.emplace
  total-emplace k v [] f = refl
  total-emplace k v ((j, w) ∷ m) f = ground (arith, total-emplace k v m)

  pub total-erase :
      (k b : ℕ) (v : V) (m : List (ℕ × V))
      → Spaced size b m
      → Assoc.find k m ≡ some v
      → total m ≡ size v + total (Assoc.erase k m)
  unfolding Assoc.find Assoc.erase
  total-erase k b v [] r f = absurd (ground arith)
  total-erase k b v ((j, w) ∷ m) r f =
      ground (arith, total-erase k (j + size w) v m r.2, erase_low size k (j + size w) m r.2)

update_over_emplace :
    (s k v x : ℕ) (m : List (ℕ × ℕ))
    → s < k
    → Assoc.update s v (Assoc.emplace k x m) ≡ Assoc.emplace k x (Assoc.update s v m)
unfolding Assoc.update Assoc.emplace
update_over_emplace s k v x [] h = ground arith
update_over_emplace s k v x ((j, w) ∷ m) h = ground (arith, update_over_emplace s k v x m)

cut_range-consume_free_range :
    (s n address size : ℕ) (free : List (ℕ × ℕ))
    → Spaced same_size 0 free
    → Assoc.find s free ≡ some n
    → s ≤ address
    → 1 ≤ size
    → address + size ≤ s + n
    → cut_range (s, n) address size free ≡ consume_free_range (s, n) address size free
unfolding cut_range consume_free_range
cut_range-consume_free_range s n address size free r f low p fits =
    let left = address - s in
    let rest : n - left - size ≡ s + n - address - size = omega arith in
    let written = update-emplace same_size s 0 n left free r f in
    let moved = update_over_emplace s (address + size) left (n - left - size) free (omega arith) in
    elim (Bool-cases (left == 0)) [
      | inl a ↦ elim (Bool-cases (n - left - size == 0)) [
        | inl b ↦ ground (arith, a, b)
        | inr b ↦ ground (arith, a, b, rest)
      ]
      | inr a ↦ elim (Bool-cases (n - left - size == 0)) [
        | inl b ↦ ground (arith, a, b, written)
        | inr b ↦ ground (arith, a, b, rest, written, moved)
      ]
    ]

-- A cut takes exactly the allocation's bytes out of the free ranges.
pub cut_range_lem :
    (s n address size : ℕ) (free : List (ℕ × ℕ))
    → Spaced same_size 0 free
    → Assoc.find s free ≡ some n
    → s ≤ address
    → 1 ≤ size
    → address + size ≤ s + n
    → Spaced same_size 0 (cut_range (s, n) address size free)
      × ((a : ℕ)
          → covers same_size a (cut_range (s, n) address size free) + bit (within address size a)
            ≡ covers same_size a free)
cut_range_lem s n address size free r f low p fits =
    rw (cut_range-consume_free_range s n address size free r f low p fits)
      (consume_lem s n address size free r f low p fits)

previous_range_found :
    (address s n : ℕ) (m : List (ℕ × ℕ))
    → Spaced same_size 0 m
    → previous_range address m ≡ some (s, n)
    → (Assoc.find s m ≡ some n) × (s < address)
unfolding previous_range
previous_range_found address s n m r e =
    let e' : floor (address - 1) m ≡ some (s, n) = ground (arith, e) in
    let (low, found, _) = floor_found ℕ same_size (address - 1) 0 s n m r e' in
    (found, ground (arith, e, low))

next_range_found :
    (address b s n : ℕ) (m : List (ℕ × ℕ))
    → Spaced same_size b m
    → next_range address m ≡ some (s, n)
    → Assoc.find s m ≡ some n
unfolding next_range Assoc.find
next_range_found address b s n [] r e = absurd (ground arith)
next_range_found address b s n ((t, w) ∷ m) r e =
    ground (arith, next_range_found address (t + w) s n m r.2, find_low same_size s (t + w) m r.2)

-- The range that ends where the new one starts becomes part of it.
join_before_lem :
    (address size : ℕ) (m : List (ℕ × ℕ))
    → Spaced same_size 0 m
    → 1 ≤ size
    → ((a : ℕ) → within address size a ≡ true → covers same_size a m ≡ 0)
    → let (first, joined, others) = join_before address size m in
      Spaced same_size 0 others
      × (1 ≤ joined)
      × ((a : ℕ) → within first joined a ≡ true → covers same_size a others ≡ 0)
      × ((a : ℕ)
          → covers same_size a others + bit (within first joined a)
            ≡ covers same_size a m + bit (within address size a))
unfolding join_before
join_before_lem address size m r p free = elim (Option-cases (previous_range address m)) [
  | inl e ↦ rw (e, join_before) (r, p, free, λ a. refl)
  | inr ((s, n), e) ↦ elim (Bool-cases (s + n == address)) [
    | inr apart ↦ rw (e, apart, join_before) (r, p, free, λ a. refl)
    | inl touches ↦
        let (found, low) = previous_range_found address s n m r e in
        let without : (a : ℕ)
            → covers same_size a m ≡ bit (within s n a) + covers same_size a (Assoc.erase s m) =
          λ a. covers-erase same_size a s 0 n m r found in
        let meets : s + n ≡ address = ground (arith, touches) in
        rw (e, touches, join_before)
          (
            erase-Spaced same_size s 0 m r,
            omega arith,
            λ a h. ground (arith, free a, without a, covers_once same_size a 0 m r),
            λ a. ground (arith, free a, without a),
          )
  ]
]

-- The range that starts where the new one ends becomes part of it.
join_after_lem :
    (address size : ℕ) (m : List (ℕ × ℕ))
    → Spaced same_size 0 m
    → 1 ≤ size
    → ((a : ℕ) → within address size a ≡ true → covers same_size a m ≡ 0)
    → let (whole, kept) = join_after address size m in
      Spaced same_size 0 kept
      × (1 ≤ whole)
      × ((a : ℕ) → within address whole a ≡ true → covers same_size a kept ≡ 0)
      × ((a : ℕ)
          → covers same_size a kept + bit (within address whole a)
            ≡ covers same_size a m + bit (within address size a))
unfolding join_after
join_after_lem address size m r p free = elim (Option-cases (next_range address m)) [
  | inl e ↦ rw (e, join_after) (r, p, free, λ a. refl)
  | inr ((s, n), e) ↦ elim (Bool-cases (address + size == s)) [
    | inr apart ↦ rw (e, apart, join_after) (r, p, free, λ a. refl)
    | inl touches ↦
        let found = next_range_found address 0 s n m r e in
        let without : (a : ℕ)
            → covers same_size a m ≡ bit (within s n a) + covers same_size a (Assoc.erase s m) =
          λ a. covers-erase same_size a s 0 n m r found in
        let meets : address + size ≡ s = ground (arith, touches) in
        rw (e, touches, join_after)
          (
            erase-Spaced same_size s 0 m r,
            omega arith,
            λ a h. ground (arith, free a, without a, covers_once same_size a 0 m r),
            λ a. ground (arith, free a, without a),
          )
  ]
]

-- AddFreeRange adds exactly the range, and the free ranges stay apart.
pub add_free_range_lem :
    (address size : ℕ) (m : List (ℕ × ℕ))
    → Spaced same_size 0 m
    → ((a : ℕ) → within address size a ≡ true → covers same_size a m ≡ 0)
    → Spaced same_size 0 (add_free_range address size m)
      × ((a : ℕ)
          → covers same_size a (add_free_range address size m)
            ≡ bit (within address size a) + covers same_size a m)
unfolding add_free_range
add_free_range_lem address size m r free = elim (Bool-cases (size == 0)) [
  | inl z ↦ rw z (r, λ a. ground (arith, z))
  | inr z ↦
      let p : 1 ≤ size = ground (arith, z) in
      let (first, joined, others) = join_before address size m in
      let (spaced, filled, clear, sums) = join_before_lem address size m r p free in
      let (whole, kept) = join_after first joined others in
      let (spaced', filled', clear', sums') =
        join_after_lem first joined others spaced filled clear in
      let (done, sums'') =
        emplace_if_lem same_size true first whole kept spaced' (λ h. filled') clear' in
      rw z (done, λ a. omega (arith, sums a, sums' a, sums'' a))
]
