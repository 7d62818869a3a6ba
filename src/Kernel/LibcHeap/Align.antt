-- ===== src/Kernel/LibcHeap/Align.antt =====
-- AlignUp of src/kernel/libc_heap.cpp and the search of AllocateMspaceLocked that is made with it.
use kaj_ps.Base.{
  ℕ, suc, ◌+◌, ◌-◌, ◌*◌, ◌/◌, ◌%◌, ◌^◌, ◌≤◌, ◌<◌, ◌≡◌, sym, ◌∙◌, ap, subst, true, none, some, List,
  [], ◌∷◌, arith, ltb, leb, ◌==◌, inl, inr, Option-cases, Bool-cases,
}
use Prim.Native.Nat.{bit_and}
use native.Mathlib.Nat.{mod-add-div, mul-mod_right, mod-lt, pow-le-pow_right, mul-le-mul_left}
use kaj_ps.Base.Bits.{power_of_two, round_down, pow_pos, pow_split, IsPowerOfTwo}
use kaj_ps.Base.Assoc
use kaj_ps.Kernel.DirectMemory.Ranges.{Spaced, find_low}
use kaj_ps.Kernel.DirectMemory.Inv.{same_size}
use kaj_ps.Kernel.LibcHeap.Mspace.{align_up, is_power_of_two, fit, find_fit}

accepted : (a : ℕ) → is_power_of_two a ≡ true → IsPowerOfTwo a
accepted a h = power_of_two a (ground (arith, h)) (ground (arith, h))

small_exponent : (k : ℕ) → 2 ^ k < 2 ^ 64 → k ≤ 64
small_exponent k h = elim (Bool-cases (leb k 64)) [
  | inl e ↦ ground (arith, e)
  | inr e ↦
      let wide : 64 ≤ k = ground (arith, e) in
      let more : 2 ^ 64 ≤ 2 ^ k = pow-le-pow_right (omega arith) wide in absurd (omega arith)
]

-- What AlignUp computes where it returns a value.
align_up_value :
    (value alignment x : ℕ)
    → alignment < 2 ^ 64
    → align_up value alignment ≡ some x
    → (is_power_of_two alignment ≡ true)
      × (value + (alignment - 1) < 2 ^ 64)
      × (x ≡ bit_and (value + (alignment - 1)) (2 ^ 64 - 1 - (alignment - 1)))
unfolding align_up
align_up_value value alignment x w e = elim (Bool-cases (is_power_of_two alignment)) [
  | inr p ↦ absurd (ground (arith, p, e))
  | inl p ↦ elim (Bool-cases (ltb (2 ^ 64 - 1 - (alignment - 1)) value)) [
    | inl o ↦ absurd (ground (arith, p, o, e))
    | inr o ↦ (p, ground (arith, p, o), ground (arith, p, o, e))
  ]
]

multiple_order : (k q r : ℕ) → k * q < k * r → q < r
multiple_order k q r h = elim (Bool-cases (leb r q)) [
  | inr e ↦ ground (arith, e)
  | inl e ↦ let more : k * r ≤ k * q = mul-le-mul_left k (ground (arith, e)) in absurd (omega arith)
]

-- The multiples of `k` are apart by `k`.
multiple_apart : (k q r : ℕ) → k * q < k * r → k * q + k ≤ k * r
multiple_apart k q r h =
    let more : k * suc q ≤ k * r = mul-le-mul_left k (multiple_order k q r h) in
    let split : k * suc q ≡ k * q + k = grind arith in omega (arith, more, split)

multiple_whole : (k y : ℕ) → y % k ≡ 0 → k * (y / k) ≡ y
multiple_whole k y h = omega (arith, mod-add-div y k)

-- `x` is the least multiple of the alignment that is not below the value.
abbrev pub LeastAbove : ℕ → ℕ → ℕ → Type 0
LeastAbove value alignment x =
    (value ≤ x) × (x % alignment ≡ 0) × ((y : ℕ) → value ≤ y → y % alignment ≡ 0 → x ≤ y)

align_power_lem :
    (value k x : ℕ)
    → k ≤ 64
    → value + (2 ^ k - 1) < 2 ^ 64
    → x ≡ bit_and (value + (2 ^ k - 1)) (2 ^ 64 - 1 - (2 ^ k - 1))
    → LeastAbove value (2 ^ k) x
align_power_lem value k x small b v =
    let m = value + (2 ^ k - 1) in
    let q = m / 2 ^ k in
    let down = round_down 64 k m small b in
    let split : m % 2 ^ k + 2 ^ k * q ≡ m = mod-add-div m (2 ^ k) in
    let low : m % 2 ^ k < 2 ^ k = mod-lt m (pow_pos k) in
    let whole : x ≡ 2 ^ k * q = omega (arith, v, down, split) in
    (
      omega (arith, whole, split, low),
      ap (λ (t : ℕ). t % 2 ^ k) whole ∙ mul-mod_right (2 ^ k) q,
      λ y h e. elim (Bool-cases (leb x y)) [
        | inl f ↦ ground (arith, f)
        | inr f ↦
            let multiple = multiple_whole (2 ^ k) y e in
            let apart = multiple_apart (2 ^ k) (y / 2 ^ k) q (ground (arith, f, multiple, whole)) in
            absurd (omega (arith, apart, multiple, split, h, low))
      ],
    )

-- AlignUp gives the least multiple of the alignment that is not below the value.
pub align_up_lem :
    (value alignment x : ℕ)
    → alignment < 2 ^ 64
    → align_up value alignment ≡ some x
    → LeastAbove value alignment x
align_up_lem value alignment x w e =
    let (p, b, v) = align_up_value value alignment x w e in
    let (k, power) = accepted alignment p in
    subst (λ a. LeastAbove value a x) (sym power)
      (align_power_lem value k x (small_exponent k (subst (λ a. a < 2 ^ 64) power w))
        (subst (λ a. value + (a - 1) < 2 ^ 64) power b)
        (subst (λ a. x ≡ bit_and (value + (a - 1)) (2 ^ 64 - 1 - (a - 1))) power v))

-- Where AlignUp gives nothing, no 64-bit multiple is left.
pub align_up-none :
    (value alignment y : ℕ)
    → alignment < 2 ^ 64
    → is_power_of_two alignment ≡ true
    → align_up value alignment ≡ none
    → value ≤ y
    → y % alignment ≡ 0
    → 2 ^ 64 ≤ y
unfolding align_up
align_up-none value alignment y w p e h multiple =
    let over : 2 ^ 64 - 1 - (alignment - 1) < value = ground (arith, p) in
    let (k, power) = accepted alignment p in
    let small = small_exponent k (subst (λ a. a < 2 ^ 64) power w) in
    let whole = multiple_whole (2 ^ k) y (subst (λ a. y % a ≡ 0) power multiple) in
    let split : 2 ^ 64 ≡ 2 ^ k * 2 ^ (64 - k) = omega (arith, pow_split 64 k small) in
    elim (Bool-cases (leb (2 ^ 64) y)) [
      | inl f ↦ ground (arith, f)
      | inr f ↦
          let apart =
            multiple_apart (2 ^ k) (y / 2 ^ k) (2 ^ (64 - k)) (ground (arith, f, whole, split)) in
          absurd (omega (arith, apart, whole, split, over, power, h))
    ]

pub fit_lem :
    (alignment size s n x : ℕ)
    → alignment < 2 ^ 64
    → fit alignment size (s, n) ≡ some x
    → (s ≤ x) × (x + size ≤ s + n) × (x % alignment ≡ 0)
unfolding fit
fit_lem alignment size s n x w e = elim (Option-cases (align_up s alignment)) [
  | inl f ↦ absurd (ground (arith, f))
  | inr (y, f) ↦
      let (low, aligned, _) = align_up_lem s alignment y w f in
      let same : x ≡ y = ground (arith, f) in
      (
        omega (arith, low, same),
        ground (arith, f, low),
        ap (λ (t : ℕ). t % alignment) same ∙ aligned,
      )
]

-- A range that does not take an allocation has no aligned place for it.
fit-none :
    (alignment size s n y : ℕ)
    → alignment < 2 ^ 64
    → is_power_of_two alignment ≡ true
    → fit alignment size (s, n) ≡ none
    → s ≤ y
    → y % alignment ≡ 0
    → y + size ≤ s + n
    → 2 ^ 64 ≤ y
unfolding fit
fit-none alignment size s n y w p e h aligned inside = elim (Option-cases (align_up s alignment)) [
  | inl f ↦ align_up-none s alignment y w p f h aligned
  | inr (x, f) ↦
      let (low, _, least) = align_up_lem s alignment x w f in
      let before = least y h aligned in absurd (ground (arith, f, low, before))
]

pub find_fit_found :
    (alignment size b s n x : ℕ) (free : List (ℕ × ℕ))
    → Spaced same_size b free
    → find_fit alignment size free ≡ some ((s, n), x)
    → (Assoc.find s free ≡ some n) × (fit alignment size (s, n) ≡ some x)
unfolding find_fit Assoc.find
find_fit_found alignment size b s n x [] r e = absurd (ground arith)
find_fit_found alignment size b s n x ((t, w) ∷ free) r e = ground (
  arith,
  find_fit_found alignment size (t + w) s n x free r.2,
  find_low same_size s (t + w) free r.2,
  Option-cases (fit alignment size (t, w)),
)

-- Where the search finds nothing, no free range has an aligned place of that size.
pub find_fit-none :
    (alignment size s n y : ℕ) (free : List (ℕ × ℕ))
    → alignment < 2 ^ 64
    → is_power_of_two alignment ≡ true
    → find_fit alignment size free ≡ none
    → Assoc.find s free ≡ some n
    → s ≤ y
    → y % alignment ≡ 0
    → y + size ≤ s + n
    → 2 ^ 64 ≤ y
unfolding find_fit Assoc.find
find_fit-none alignment size s n y [] w p e f h aligned inside = absurd (ground arith)
find_fit-none alignment size s n y ((t, k) ∷ free) w p e f h aligned inside =
    elim (Option-cases (fit alignment size (t, k))) [
      | inr (x, g) ↦ absurd (ground (arith, g))
      | inl g ↦ elim (Bool-cases (t == s)) [
        | inr other ↦
            find_fit-none alignment size s n y free w p (ground (arith, g, e))
              (ground (arith, other, f)) h aligned inside
        | inl same ↦
            let start : t ≡ s = ground (arith, same) in
            let length : k ≡ n = ground (arith, same, f) in
            fit-none alignment size t k y w p g (omega (arith, start)) aligned
              (omega (arith, start, length))
      ]
    ]
