-- ===== src/Kernel/DirectMemory/Ranges.antt =====
-- The ordered maps of src/kernel/direct_memory.cpp from a start to a size, read as sets of addresses.
use kaj_ps.Base.{
  ℕ, ◌+◌, ◌≤◌, ◌<◌, ◌≡◌, refl, Bool, true, false, ◌&&◌, Option, none, some, List, [], ◌∷◌, arith,
  ltb, leb, bit, if◌then◌else◌,
}
use kaj_ps.Base.Assoc

-- Whether `a` is one of the `n` addresses from `s`.
abbrev pub within : ℕ → ℕ → ℕ → Bool
within s n a = leb s a && ltb a (s + n)

module _ {ℓ} {V : Type ℓ} where
  -- The entry before upper_bound: the last whose key is at most `k`.
  unfoldable pub floor : ℕ → List (ℕ × V) → Option (ℕ × V)
  floor k [] = none
  floor k ((s, v) ∷ m) =
      let later = floor k m in
      if ltb k s then none else elim later [ none ↦ some (s, v) | some e ↦ some e ]

  abbrev starts_by : ℕ → List (ℕ × V) → Bool
  starts_by k [] = false
  starts_by k ((s, v) ∷ m) = leb s k

  -- The entries from upper_bound on, with the one before it if there is one.
  unfoldable pub from_floor : ℕ → List (ℕ × V) → List (ℕ × V)
  from_floor k [] = []
  from_floor k ((s, v) ∷ m) =
      let later = from_floor k m in if starts_by k m then later else (s, v) ∷ m

  module _ (size : V → ℕ) where
    -- How many of the ranges hold `a`.
    abbrev pub covers : ℕ → List (ℕ × V) → ℕ
    covers a [] = 0
    covers a ((s, v) ∷ m) = bit (within s (size v) a) + covers a m

    -- The ranges are not empty, rise from `b` on and do not overlap.
    abbrev pub Spaced : ℕ → List (ℕ × V) → Type 0
    Spaced b [] = Unit {0}
    Spaced b ((s, v) ∷ m) = (b ≤ s) × (1 ≤ size v) × Spaced (s + size v) m

    pub Spaced-mono : (a b : ℕ) (m : List (ℕ × V)) → a ≤ b → Spaced b m → Spaced a m
    Spaced-mono a b [] h r = tt
    Spaced-mono a b ((s, v) ∷ m) h r = (omega arith, r.1, r.2)

    pub covers_below : (a b : ℕ) (m : List (ℕ × V)) → Spaced b m → a < b → covers a m ≡ 0
    covers_below a b [] r h = refl
    covers_below a b ((s, v) ∷ m) r h = ground (arith, covers_below a (s + size v) m)

    pub find_low : (k b : ℕ) (m : List (ℕ × V)) → Spaced b m → k < b → Assoc.find k m ≡ none
    unfolding Assoc.find
    find_low k b [] r h = refl
    find_low k b ((s, v) ∷ m) r h = ground (arith, find_low k (s + size v) m)

    pub find_missing :
        (k b : ℕ) (m : List (ℕ × V)) → Spaced b m → covers k m ≡ 0 → Assoc.find k m ≡ none
    unfolding Assoc.find
    find_missing k b [] r h = refl
    find_missing k b ((s, v) ∷ m) r h = ground (arith, find_missing k (s + size v) m)

    pub covers_once : (a b : ℕ) (m : List (ℕ × V)) → Spaced b m → covers a m ≤ 1
    covers_once a b [] r = omega arith
    covers_once a b ((s, v) ∷ m) r =
        ground (arith, covers_once a (s + size v) m, covers_below a (s + size v) m)

    pub erase_low : (k b : ℕ) (m : List (ℕ × V)) → Spaced b m → k < b → Assoc.erase k m ≡ m
    unfolding Assoc.erase
    erase_low k b [] r h = refl
    erase_low k b ((s, v) ∷ m) r h = ground (arith, erase_low k (s + size v) m)

    pub covers-erase :
        (a k b : ℕ) (v : V) (m : List (ℕ × V))
        → Spaced b m
        → Assoc.find k m ≡ some v
        → covers a m ≡ bit (within k (size v) a) + covers a (Assoc.erase k m)
    unfolding Assoc.find Assoc.erase
    covers-erase a k b v [] r f = absurd (ground arith)
    covers-erase a k b v ((s, w) ∷ m) r f =
        ground (arith, covers-erase a k (s + size w) v m, erase_low k (s + size w) m)

    pub erase-Spaced : (k b : ℕ) (m : List (ℕ × V)) → Spaced b m → Spaced b (Assoc.erase k m)
    unfolding Assoc.erase
    erase-Spaced k b [] r = tt
    erase-Spaced k b ((s, w) ∷ m) r =
        ground (arith, erase-Spaced k (s + size w) m, Spaced-mono b (s + size w) (Assoc.erase k m))

    pub covers-emplace :
        (a k : ℕ) (v : V) (m : List (ℕ × V))
        → Assoc.find k m ≡ none
        → covers a (Assoc.emplace k v m) ≡ bit (within k (size v) a) + covers a m
    unfolding Assoc.find Assoc.emplace
    covers-emplace a k v [] f = refl
    covers-emplace a k v ((s, w) ∷ m) f = ground (arith, covers-emplace a k v m)

    free_after :
        (k : ℕ) (v : V) (s : ℕ) (w : V) (m : List (ℕ × V))
        → ((a : ℕ) → within k (size v) a ≡ true → covers a ((s, w) ∷ m) ≡ 0)
        → (a : ℕ) → within k (size v) a ≡ true
        → covers a m ≡ 0
    free_after k v s w m free a h = ground (arith, free a h)

    -- A range that meets no other fits in.
    pub emplace-Spaced :
        (k b : ℕ) (v : V) (m : List (ℕ × V))
        → Spaced b m
        → b ≤ k
        → 1 ≤ size v
        → ((a : ℕ) → within k (size v) a ≡ true → covers a m ≡ 0)
        → Spaced b (Assoc.emplace k v m)
    unfolding Assoc.emplace
    emplace-Spaced k b v [] r h n free = (h, n, tt)
    emplace-Spaced k b v ((s, w) ∷ m) r h n free =
        ground
          (arith, free k, free s, emplace-Spaced k (s + size w) v m r.2, free_after k v s w m free)
