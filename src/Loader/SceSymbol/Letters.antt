-- ===== src/Loader/SceSymbol/Letters.antt =====
-- The alphabet of src/loader/sce_symbol.cpp and the numbers it writes.
use kaj_ps.Base.{
  ℕ, zero, suc, ◌+◌, ◌*◌, ◌%◌, ◌^◌, ◌<◌, ◌≡◌, refl, ◌∙◌, ap, Bool, true, not, ◌&&◌, some, [], ◌∷◌,
  arith, length, Option-cases,
}
use Prim.Native.Nat.{bit_or}
use kaj_ps.Base.Assoc
use kaj_ps.Base.Bits.{bit_or_shifted}
use kaj_ps.Base.Text.{Bytes}
use kaj_ps.Loader.SceSymbol.{alphabet, index_of, decode_from}

-- The character at a place.
abbrev pub letter_of : Bytes → ℕ → ℕ
letter_of [] i = 0
letter_of (c ∷ s) zero = c
letter_of (c ∷ s) (suc i) = letter_of s i

distinct : Bytes → Bool
distinct [] = true
distinct (c ∷ s) = not (Assoc.is_some (index_of c s)) && distinct s

index_found : (c i : ℕ) (s : Bytes) → index_of c s ≡ some i → (i < length s) × (letter_of s i ≡ c)
unfolding index_of
index_found c i [] e = absurd (ground arith)
index_found c zero (d ∷ s) e = (omega arith, ground (arith, e, Option-cases (index_of c s)))
index_found c (suc i) (d ∷ s) e =
    let later : index_of c s ≡ some i = ground (arith, e, Option-cases (index_of c s)) in
    let (low, same) = index_found c i s later in (omega (arith, low), same)

index_letter :
    (i : ℕ) (s : Bytes) → distinct s ≡ true → i < length s → index_of (letter_of s i) s ≡ some i
unfolding index_of distinct
index_letter i [] d h = absurd (omega arith)
index_letter zero (c ∷ s) d h = ground arith
index_letter (suc i) (c ∷ s) d h =
    let later = index_letter i s (ground (arith, d)) (omega arith) in ground (arith, later, d)

abbrev pub letter : ℕ → ℕ
letter d = letter_of alphabet d

pub index_of-letter : (d : ℕ) → d < 64 → index_of (letter d) alphabet ≡ some d
unfolding distinct index_of
index_of-letter d h = index_letter d alphabet alphabet_distinct h
  where
    alphabet_distinct : distinct alphabet ≡ true
    alphabet_distinct = refl

pub letter-index_of : (c d : ℕ) → index_of c alphabet ≡ some d → (d < 64) × (letter d ≡ c)
letter-index_of c d e = index_found c d alphabet e

read_digit :
    (decoded c d : ℕ) (s : Bytes)
    → index_of c alphabet ≡ some d
    → decode_from decoded (c ∷ s) ≡ decode_from (bit_or (decoded * 2 ^ 6 % 2 ^ 32) d) s
read_digit decoded c d s e = unfold decode_from in ground (arith, e)

-- One turn of the loop.
pub decode_step :
    (decoded c d : ℕ) (s : Bytes)
    → decoded < 4096
    → d < 64
    → index_of c alphabet ≡ some d
    → decode_from decoded (c ∷ s) ≡ decode_from (decoded * 64 + d) s
decode_step decoded c d s h low e =
    let small : decoded * 2 ^ 6 % 2 ^ 32 ≡ decoded * 2 ^ 6 = omega arith in
    read_digit decoded c d s e
    ∙ ap (λ (t : ℕ). decode_from t s)
        (ap (λ (t : ℕ). bit_or t d) small ∙ bit_or_shifted 6 decoded d low)
