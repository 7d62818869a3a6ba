-- ===== src/Base/Bits.antt =====
-- Masks of the native bit operations: the low bits that a power of two cuts off, and the tests and
-- roundings by which the source works with alignments.
use Prim.Native.Nat.{
  ℕ, zero, suc, ◌+◌, ◌-◌, ◌*◌, ◌/◌, ◌%◌, ◌^◌, ◌≤◌, ◌<◌, min, max, bit_and, bit_or, digits,
  bit_and-bitwise, bit_or-bitwise,
}
use mathlib.Core.Path.{◌≡◌, refl, sym, ap, ◌∙◌}
use mathlib.Core.Logic.{inl, inr}
use native.Mathlib.Omega.{arith}
use native.Mathlib.Nat.{
  mod-add-div, add-mul-mod_self_left, mod-eq_of_lt, mod-lt, one-le-pow, two-pow-succ,
  div-div-eq-div-mul, div-lt_iff_lt-mul,
}
use kaj_ps.Base.Tests.{◌==◌, Bool-cases}

-- The count of digits to go does not matter once it reaches the number.
digits_settled :
    (z : ℕ → ℕ) (f : ℕ → ℕ → ℕ) (a : ℕ) (m n b : ℕ)
    → a ≤ m
    → a ≤ n
    → digits z f m a b ≡ digits z f n a b
digits_settled z f a zero zero b p q = refl
digits_settled z f zero zero (suc n) b p q = refl
digits_settled z f zero (suc m) zero b p q = refl
digits_settled z f zero (suc m) (suc n) b p q = refl
digits_settled z f (suc a) zero n b p q = absurd (omega arith)
digits_settled z f (suc a) (suc m) zero b p q = absurd (omega arith)
digits_settled z f (suc a) (suc m) (suc n) b p q =
    ap (λ (r : ℕ). r * 2 + f (suc a % 2) (b % 2))
      (digits_settled z f (suc a / 2) m n (b / 2) (omega arith) (omega arith))

pub zero-bit_and : (b : ℕ) → bit_and 0 b ≡ 0
zero-bit_and b = bit_and-bitwise 0 b

-- The lowest digit, and the others.
pub bit_and_halves : (a b : ℕ) → bit_and a b ≡ bit_and (a / 2) (b / 2) * 2 + min (a % 2) (b % 2)
bit_and_halves zero b = omega (arith, zero-bit_and b, zero-bit_and (b / 2))
bit_and_halves (suc a) b =
    let rest =
      digits_settled (λ y. zero) min (suc a / 2) a (suc a / 2) (b / 2) (omega arith)
        (omega arith) in
    bit_and-bitwise (suc a) b
    ∙ ap (λ (r : ℕ). r * 2 + min (suc a % 2) (b % 2))
        (rest ∙ sym (bit_and-bitwise (suc a / 2) (b / 2)))

-- Recursion that halves: the bound falls with the number.
and_self_below : (n a : ℕ) → a ≤ n → bit_and a a ≡ a
and_self_below n zero h = zero-bit_and 0
and_self_below zero (suc a) h = absurd (omega arith)
and_self_below (suc n) (suc a) h =
    omega (arith, bit_and_halves (suc a) (suc a), and_self_below n (suc a / 2) (omega arith))

and_zero_below : (n a : ℕ) → a ≤ n → bit_and a 0 ≡ 0
and_zero_below n zero h = zero-bit_and 0
and_zero_below zero (suc a) h = absurd (omega arith)
and_zero_below (suc n) (suc a) h =
    omega (arith, bit_and_halves (suc a) 0, and_zero_below n (suc a / 2) (omega arith))

pub bit_and-zero : (a : ℕ) → bit_and a 0 ≡ 0
bit_and-zero a = and_zero_below a a (omega arith)

pub pow_pos : (k : ℕ) → 1 ≤ 2 ^ k
pow_pos k = one-le-pow k 2 (omega arith)

-- A remainder is found by what it is.
pub mod_unique : (q r m : ℕ) → r < m → (r + m * q) % m ≡ r
mod_unique q r m h = add-mul-mod_self_left r m q ∙ mod-eq_of_lt h

-- The low bits are a remainder.
pub bit_and_mask : (k a : ℕ) → bit_and a (2 ^ k - 1) ≡ a % 2 ^ k
bit_and_mask zero a = omega (arith, bit_and-zero a)
bit_and_mask (suc k) a =
    let half = a / 2 in
    let low = half % 2 ^ k in
    let double = two-pow-succ k in
    let below : low < 2 ^ k = mod-lt half (pow_pos k) in
    let split : low + 2 ^ k * (half / 2 ^ k) ≡ half = mod-add-div half (2 ^ k) in
    let whole : a ≡ (low * 2 + a % 2) + 2 ^ suc k * (half / 2 ^ k) =
      omega (arith, split, ap (λ (t : ℕ). t * (half / 2 ^ k)) double) in
    let cut : a % 2 ^ suc k ≡ low * 2 + a % 2 =
      ap (λ (t : ℕ). t % 2 ^ suc k) whole
      ∙ mod_unique (half / 2 ^ k) (low * 2 + a % 2) (2 ^ suc k) (omega (arith, below, double)) in
    omega (
      arith,
      cut,
      bit_and_halves a (2 ^ suc k - 1),
      ap (λ (t : ℕ). bit_and half t) (halved k),
      bit_and_mask k half,
      double,
      pow_pos k,
    )
  where
    halved : (k : ℕ) → (2 ^ suc k - 1) / 2 ≡ 2 ^ k - 1
    halved k = omega (arith, two-pow-succ k, pow_pos k)

-- A power of two, with its exponent.
abbrev pub IsPowerOfTwo : ℕ → Type 0
IsPowerOfTwo a = (k : ℕ) × (a ≡ 2 ^ k)

power_below : (n a : ℕ) → a ≤ n → 1 ≤ a → bit_and a (a - 1) ≡ 0 → IsPowerOfTwo a
power_below n zero h p e = absurd (omega arith)
power_below zero (suc a) h p e = absurd (omega arith)
power_below (suc n) (suc a) h p e =
    let step = bit_and_halves (suc a) a in
    let e' : bit_and (suc a) a ≡ 0 = ap (bit_and (suc a)) (omega arith) ∙ e in
    elim (Bool-cases (suc a % 2 == 0)) [
      | inl even ↦
          let half : a / 2 ≡ suc a / 2 - 1 = ground arith in
          let (k, is) =
            power_below n (suc a / 2) (omega arith) (ground arith)
              (ap (bit_and (suc a / 2)) (sym half) ∙ omega (arith, step, e')) in
          (suc k, ground (arith, is, two-pow-succ k))
      | inr odd ↦
          let half : a / 2 ≡ suc a / 2 = ground arith in
          let same = and_self_below (suc a / 2) (suc a / 2) (omega arith) in
          (0, ground (arith, step, e', ap (bit_and (suc a / 2)) half, same))
    ]

-- The test by which the source accepts an alignment.
pub power_of_two : (a : ℕ) → 1 ≤ a → bit_and a (a - 1) ≡ 0 → IsPowerOfTwo a
power_of_two a p e = power_below a a (omega arith) p e

halves_of_shifted : (k m : ℕ) → m * 2 ^ suc k ≡ 2 * (m * 2 ^ k)
halves_of_shifted k m = omega (arith, ap (λ (t : ℕ). m * t) (two-pow-succ k))

and_shifted : (k a m : ℕ) → bit_and a (m * 2 ^ k) ≡ bit_and (a / 2 ^ k) m * 2 ^ k
and_shifted zero a m =
    let whole : a / 2 ^ 0 ≡ a = omega arith in
    let times : m * 2 ^ 0 ≡ m = omega arith in
    omega (arith, ap (λ (t : ℕ). bit_and t m) whole, ap (bit_and a) times)
and_shifted (suc k) a m =
    let shifted = halves_of_shifted k m in
    let half : m * 2 ^ suc k / 2 ≡ m * 2 ^ k = omega (arith, shifted) in
    let parts : a / 2 / 2 ^ k ≡ a / 2 ^ suc k =
      div-div-eq-div-mul a 2 (2 ^ k) ∙ ap (λ (t : ℕ). a / t) (omega (arith, two-pow-succ k)) in
    omega (
      arith,
      bit_and_halves a (m * 2 ^ suc k),
      shifted,
      ap (bit_and (a / 2)) half,
      and_shifted k (a / 2) m,
      ap (λ (t : ℕ). bit_and t m * 2 ^ k) parts,
      halves_of_shifted k (bit_and (a / 2 ^ suc k) m),
    )

pub pow_split : (n k : ℕ) → k ≤ n → 2 ^ n ≡ 2 ^ (n - k) * 2 ^ k
pow_split n zero h = omega (arith, ap (λ (t : ℕ). 2 ^ t) (same n))
  where
    same : (n : ℕ) → n ≡ n - 0
    same n = omega arith
pow_split zero (suc k) h = absurd (omega arith)
pow_split (suc n) (suc k) h =
    let same : suc n - suc k ≡ n - k = omega arith in
    omega (
      arith,
      ap (λ (t : ℕ). 2 ^ t * 2 ^ suc k) same,
      pow_split n k (omega arith),
      two-pow-succ n,
      halves_of_shifted k (2 ^ (n - k)),
    )

one_less_times : (p q : ℕ) → 1 ≤ p → (p - 1) * q + q ≡ p * q
one_less_times (suc p) q h = grind arith
one_less_times zero q h = absurd (omega arith)

-- `x & ~(2^k - 1)` on a word of `n` bits rounds down to a multiple of 2^k.
pub round_down :
    (n k x : ℕ) → k ≤ n → x < 2 ^ n → bit_and x (2 ^ n - 1 - (2 ^ k - 1)) + x % 2 ^ k ≡ x
round_down n k x h below =
    let mask : 2 ^ n - 1 - (2 ^ k - 1) ≡ (2 ^ (n - k) - 1) * 2 ^ k =
      omega (
        arith,
        pow_split n k h,
        pow_pos k,
        one_less_times (2 ^ (n - k)) (2 ^ k) (pow_pos (n - k)),
      ) in
    let q = x / 2 ^ k in
    let small : q < 2 ^ (n - k) =
      (div-lt_iff_lt-mul {k = 2 ^ k} (pow_pos k)).1 (omega (arith, below, pow_split n k h)) in
    omega (
      arith,
      ap (bit_and x) mask,
      and_shifted k x (2 ^ (n - k) - 1),
      bit_and_mask (n - k) q,
      ap (λ (t : ℕ). t * 2 ^ k) (bit_and_mask (n - k) q ∙ mod-eq_of_lt small),
      mod-add-div x (2 ^ k),
    )

zero-bit_or : (b : ℕ) → bit_or 0 b ≡ b
zero-bit_or b = bit_or-bitwise 0 b

bit_or_halves : (a b : ℕ) → bit_or a b ≡ bit_or (a / 2) (b / 2) * 2 + max (a % 2) (b % 2)
bit_or_halves zero b = omega (arith, zero-bit_or b, zero-bit_or (b / 2))
bit_or_halves (suc a) b =
    let rest =
      digits_settled (λ y. y) max (suc a / 2) a (suc a / 2) (b / 2) (omega arith) (omega arith) in
    bit_or-bitwise (suc a) b
    ∙ ap (λ (r : ℕ). r * 2 + max (suc a % 2) (b % 2))
        (rest ∙ sym (bit_or-bitwise (suc a / 2) (b / 2)))

or_zero_below : (n a : ℕ) → a ≤ n → bit_or a 0 ≡ a
or_zero_below n zero h = zero-bit_or 0
or_zero_below zero (suc a) h = absurd (omega arith)
or_zero_below (suc n) (suc a) h =
    omega (arith, bit_or_halves (suc a) 0, or_zero_below n (suc a / 2) (omega arith))

-- Digits put behind a shifted number.
pub bit_or_shifted : (k d e : ℕ) → e < 2 ^ k → bit_or (d * 2 ^ k) e ≡ d * 2 ^ k + e
bit_or_shifted zero d e h =
    let none_left : e ≡ 0 = omega arith in
    ap (bit_or (d * 2 ^ 0)) none_left
    ∙ omega (arith, or_zero_below (d * 2 ^ 0) (d * 2 ^ 0) (omega arith), none_left)
bit_or_shifted (suc k) d e h =
    let double = halves_of_shifted k d in
    let half : d * 2 ^ suc k / 2 ≡ d * 2 ^ k = omega (arith, double) in
    let even : d * 2 ^ suc k % 2 ≡ 0 = omega (arith, double) in
    let front = bit_or_shifted k d (e / 2) (omega (arith, two-pow-succ k)) in
    omega (
      arith,
      bit_or_halves (d * 2 ^ suc k) e,
      ap (λ (t : ℕ). bit_or t (e / 2)) half,
      front,
      double,
      even,
    )
