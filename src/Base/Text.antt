-- ===== src/Base/Text.antt =====
-- Byte strings as lists of codes, std::string::operator==, and the digits that std::to_string
-- (base 10) and std::to_chars (base 16) write.
use Prim.Native.Char.{code}
use Prim.Native.String.{String}
use Prim.Native.Nat.{ℕ, zero, suc, ◌+◌, ◌-◌, ◌*◌, ◌/◌, ◌%◌, ◌≤◌, ◌<◌}
use mathlib.Core.Path.{◌≡◌, refl, ap, ◌∙◌, sym}
use mathlib.Core.Bool.{Bool, true, false, not, ◌&&◌}
use mathlib.Core.Logic.{◌↔◌, inl, inr}
use mathlib.Core.List.{List, [], ◌∷◌, ◌++◌}
use native.Mathlib.Omega.{arith}
use kaj_ps.Base.Tests.{◌==◌, ltb, if◌then◌else◌, Bool-cases}

abbrev pub Bytes : Type 0
Bytes = List ℕ

abbrev pub codes : String → Bytes
codes String.[] = []
codes (String.◌∷◌ c s) = code c ∷ codes s

abbrev pub is_empty : Bytes → Bool
is_empty [] = true
is_empty (c ∷ s) = false

unfoldable pub bytes_eq : Bytes → Bytes → Bool
bytes_eq [] [] = true
bytes_eq [] (d ∷ t) = false
bytes_eq (c ∷ s) [] = false
bytes_eq (c ∷ s) (d ∷ t) = (c == d) && bytes_eq s t

pub bytes_eq_iff : (s t : Bytes) → (bytes_eq s t ≡ true) ↔ (s ≡ t)
unfolding bytes_eq
bytes_eq_iff [] [] = (λ e. refl, λ e. refl)
bytes_eq_iff [] (d ∷ t) = (λ e. cc, λ e. cc)
bytes_eq_iff (c ∷ s) [] = (λ e. cc, λ e. cc)
bytes_eq_iff (c ∷ s) (d ∷ t) =
    (λ e. ground (arith, bytes_eq_iff s t), λ e. ground (arith, bytes_eq_iff s t))

-- 0 to 9, then a to z
abbrev pub digit_char : ℕ → ℕ
digit_char d = if ltb d 10 then 48 + d else 87 + d

digit_value : ℕ → ℕ
digit_value c = if ltb c 58 then c - 48 else c - 87

-- The most significant digit first; the fuel falls with the number.
digits_fuel : ℕ → ℕ → ℕ → Bytes
digits_fuel zero base n = []
digits_fuel (suc f) base n =
    let front = digits_fuel f base (n / base) in
    if ltb n base then digit_char n ∷ [] else front ++ (digit_char (n % base) ∷ [])

unfoldable pub digits : ℕ → ℕ → Bytes
unfolding digits_fuel
digits base n = digits_fuel (suc n) base n

value_from : ℕ → ℕ → Bytes → ℕ
value_from base acc [] = acc
value_from base acc (c ∷ s) = value_from base (acc * base + digit_value c) s

value_from-append :
    (base acc : ℕ) (s : Bytes) (c : ℕ)
    → value_from base acc (s ++ (c ∷ [])) ≡ value_from base acc s * base + digit_value c
unfolding value_from
value_from-append base acc [] c = refl
value_from-append base acc (d ∷ s) c = value_from-append base (acc * base + digit_value d) s c

digit_value-digit_char : (d : ℕ) → digit_value (digit_char d) ≡ d
unfolding digit_value
digit_value-digit_char d = ground arith

div_shrinks : (n base : ℕ) → 2 ≤ base → base ≤ n → n / base < n
div_shrinks n base b h = grind arith

value_from-digits_fuel :
    (f base n : ℕ) → 2 ≤ base → n < f → value_from base 0 (digits_fuel f base n) ≡ n
unfolding digits_fuel
value_from-digits_fuel zero base n b h = absurd (omega arith)
value_from-digits_fuel (suc f) base n b h = elim (Bool-cases (ltb n base)) [
  | inl small ↦ rw small (unfold value_from in omega (arith, digit_value-digit_char n))
  | inr large ↦
      rw (large, value_from-append base 0 (digits_fuel f base (n / base)) (digit_char (n % base)))
        (rw
          (
            digit_value-digit_char (n % base),
            value_from-digits_fuel f base (n / base) b (ground (arith, div_shrinks n base b)),
          )
          (grind arith))
]

-- Two numbers are not written alike.
pub digits-injective : (base m n : ℕ) → 2 ≤ base → digits base m ≡ digits base n → m ≡ n
unfolding digits
digits-injective base m n b e =
    sym (value_from-digits_fuel (suc m) base m b (omega arith))
    ∙ ap (value_from base 0) e
    ∙ value_from-digits_fuel (suc n) base n b (omega arith)

abbrev pub has_no : ℕ → Bytes → Bool
has_no c [] = true
has_no c (d ∷ s) = not (d == c) && has_no c s

has_no-end : (c d : ℕ) (s : Bytes) → has_no c s ≡ true → d < c → has_no c (s ++ (d ∷ [])) ≡ true
has_no-end c d [] h l = ground arith
has_no-end c d (e ∷ s) h l = ground (arith, h, has_no-end c d s)

digits_fuel-has_no : (f n : ℕ) → has_no 58 (digits_fuel f 10 n) ≡ true
unfolding digits_fuel
digits_fuel-has_no zero n = refl
digits_fuel-has_no (suc f) n = elim (Bool-cases (ltb n 10)) [
  | inl small ↦ rw small (ground (arith, small))
  | inr large ↦ rw large (
      has_no-end 58 (digit_char (n % 10)) (digits_fuel f 10 (n / 10))
        (digits_fuel-has_no f (n / 10)) (ground arith))
]

-- No decimal number has a colon in it.
pub digits-has_no_colon : (n : ℕ) → has_no 58 (digits 10 n) ≡ true
unfolding digits
digits-has_no_colon n = digits_fuel-has_no (suc n) n

-- A string splits at its first separator in one way.
pub split_unique :
    (c : ℕ) (s s' t t' : Bytes)
    → has_no c s ≡ true
    → has_no c s' ≡ true
    → s ++ (c ∷ t) ≡ s' ++ (c ∷ t')
    → (s ≡ s') × (t ≡ t')
split_unique c [] [] t t' h h' e = (refl, ground (arith, e))
split_unique c [] (d ∷ s') t t' h h' e = absurd (ground (arith, h', e))
split_unique c (d ∷ s) [] t t' h h' e = absurd (ground (arith, h, e))
split_unique c (d ∷ s) (d' ∷ s') t t' h h' e =
    let rest : s ++ (c ∷ t) ≡ s' ++ (c ∷ t') = ground (arith, e) in
    let (front, back) = split_unique c s s' t t' (ground (arith, h)) (ground (arith, h')) rest in
    (ground (arith, e, front), back)
