-- ===== src/Loader/SceSymbol/RoundTrip.antt =====
-- The spellings that src/loader/sce_symbol.cpp reads.
use kaj_ps.Base.{
  ℕ, ◌+◌, ◌*◌, ◌/◌, ◌%◌, ◌^◌, ◌≤◌, ◌<◌, ◌≡◌, ◌↔◌, refl, sym, ◌∙◌, ap, subst, true, false, ◌||◌,
  some, [], ◌∷◌, arith, ltb, if◌then◌else◌, length, inl, inr, Option-cases, Bool-cases,
}
use kaj_ps.Base.Text.{Bytes, is_empty}
use kaj_ps.Loader.SceSymbol.{alphabet, index_of, decode_from, decode_sce_id, is_out_of_form}
use kaj_ps.Loader.SceSymbol.Letters.{letter, index_of-letter, letter-index_of, decode_step}

-- The base-64 digits of a number below 2^18, without leading zeros.
unfoldable pub encode_sce_id : ℕ → Bytes
encode_sce_id n =
    if ltb n 64
    then letter n ∷ []
    else if ltb n 4096
    then letter (n / 64) ∷ letter (n % 64) ∷ []
    else letter (n / 4096) ∷ letter (n / 64 % 64) ∷ letter (n % 64) ∷ []

-- What a turn of the loop has read.
read_step :
    (decoded c n : ℕ) (s : Bytes)
    → decoded < 4096
    → decode_from decoded (c ∷ s) ≡ some n
    → (d : ℕ) × (d < 64) × (c ≡ letter d) × (decode_from (decoded * 64 + d) s ≡ some n)
read_step decoded c n s h e = elim (Option-cases (index_of c alphabet)) [
  | inl i ↦ unfold decode_from in absurd (ground (arith, i, e))
  | inr (d, i) ↦
      let (low, same) = letter-index_of c d i in
      (d, low, sym same, sym (decode_step decoded c d s h low i) ∙ e)
]

read_end : (decoded n : ℕ) → decode_from decoded [] ≡ some n → n ≡ decoded
unfolding decode_from
read_end decoded n e = ground (arith, e)

write_step :
    (decoded d : ℕ) (s : Bytes)
    → decoded < 4096
    → d < 64
    → decode_from decoded (letter d ∷ s) ≡ decode_from (decoded * 64 + d) s
write_step decoded d s h low = decode_step decoded (letter d) d s h low (index_of-letter d low)

-- What DecodeSceId returns has passed its tests.
decoded_lem :
    (n : ℕ) (s : Bytes)
    → decode_sce_id s ≡ some n
    → (decode_from 0 s ≡ some n)
      × (is_empty s || ltb 3 (length s) ≡ false)
      × (is_out_of_form (length s) n ≡ false)
unfolding decode_sce_id
decoded_lem n s e = elim (Bool-cases (is_empty s || ltb 3 (length s))) [
  | inl b ↦ absurd (ground (arith, b, e))
  | inr b ↦ elim (Option-cases (decode_from 0 s)) [
    | inl f ↦ absurd (ground (arith, b, f, e))
    | inr (m, f) ↦ elim (Bool-cases (is_out_of_form (length s) m)) [
      | inl o ↦ absurd (ground (arith, b, f, o, e))
      | inr o ↦
          let same : m ≡ n = ground (arith, b, f, o, e) in
          (f ∙ ap some same, b, subst (λ t. is_out_of_form (length s) t ≡ false) same o)
    ]
  ]
]

decodes :
    (n : ℕ) (s : Bytes)
    → decode_from 0 s ≡ some n
    → is_empty s || ltb 3 (length s) ≡ false
    → is_out_of_form (length s) n ≡ false
    → decode_sce_id s ≡ some n
unfolding decode_sce_id
decodes n s f b o = rw (b, f, decode_sce_id) (rw o refl)

same_three : (a b c a' b' c' : ℕ) → a ≡ a' → b ≡ b' → c ≡ c' → a ∷ b ∷ c ∷ [] ≡ a' ∷ b' ∷ c' ∷ []
same_three a b c a' b' c' p q r = cc

spelled : (n : ℕ) (s : Bytes) → decode_sce_id s ≡ some n → (n < 2 ^ 16) × (s ≡ encode_sce_id n)
unfolding encode_sce_id
spelled n [] e = let (f, b, o) = decoded_lem n [] e in absurd (ground (arith, b))
spelled n (c ∷ []) e =
    let (f, b, o) = decoded_lem n (c ∷ []) e in
    let (d, low, same, g) = read_step 0 c n [] (omega arith) f in
    let value = read_end (0 * 64 + d) n g in
    let exact : n ≡ d = omega (arith, value) in
    (omega (arith, exact, low), ground (arith, exact, low, same))
spelled n (c ∷ c' ∷ []) e =
    let (f, b, o) = decoded_lem n (c ∷ c' ∷ []) e in
    let (d, low, same, g) = read_step 0 c n (c' ∷ []) (omega arith) f in
    let (d', low', same', g') = read_step (0 * 64 + d) c' n [] (omega arith) g in
    let value = read_end ((0 * 64 + d) * 64 + d') n g' in
    let front : n / 64 ≡ d = omega (arith, value, low') in
    let last : n % 64 ≡ d' = omega (arith, value, low') in
    let wide : ltb n 64 ≡ false = ground (arith, o) in
    let small : n < 4096 = omega (arith, value, low, low') in
    let narrow : ltb n 4096 ≡ true = ground (arith, small) in
    (omega (arith, small), rw (wide, narrow) (rw (front, last) (cc (same, same'))))
spelled n (c ∷ c' ∷ c'' ∷ []) e =
    let (f, b, o) = decoded_lem n (c ∷ c' ∷ c'' ∷ []) e in
    let (d, low, same, g) = read_step 0 c n (c' ∷ c'' ∷ []) (omega arith) f in
    let (d', low', same', g') = read_step (0 * 64 + d) c' n (c'' ∷ []) (omega arith) g in
    let (d'', low'', same'', g'') = read_step ((0 * 64 + d) * 64 + d') c'' n [] (omega arith) g' in
    let value = read_end (((0 * 64 + d) * 64 + d') * 64 + d'') n g'' in
    let front : n / 4096 ≡ d = omega (arith, value, low', low'') in
    let middle : n / 64 % 64 ≡ d' = omega (arith, value, low', low'') in
    let last : n % 64 ≡ d'' = omega (arith, value, low'') in
    let wide : ltb n 64 ≡ false = ground (arith, o) in
    let wide' : ltb n 4096 ≡ false = ground (arith, o) in
    (ground (arith, o), rw (wide, wide') (rw (front, middle, last) (cc (same, same', same''))))
spelled n (c ∷ c' ∷ c'' ∷ c''' ∷ s) e =
    let (f, b, o) = decoded_lem n (c ∷ c' ∷ c'' ∷ c''' ∷ s) e in absurd (ground (arith, b))

one_letter : (n : ℕ) → n < 64 → decode_sce_id (letter n ∷ []) ≡ some n
one_letter n h =
    let value : 0 * 64 + n ≡ n = omega arith in
    decodes n (letter n ∷ [])
      (write_step 0 n [] (omega arith) h ∙ (unfold decode_from in ap some value)) refl
      (ground (arith, h))

two_letters :
    (d d' n : ℕ)
    → d < 64
    → d' < 64
    → n ≡ (0 * 64 + d) * 64 + d'
    → 64 ≤ n
    → decode_sce_id (letter d ∷ letter d' ∷ []) ≡ some n
two_letters d d' n h h' value wide =
    decodes n (letter d ∷ letter d' ∷ [])
      (write_step 0 d (letter d' ∷ []) (omega arith) h
        ∙ write_step (0 * 64 + d) d' [] (omega arith) h'
        ∙ (unfold decode_from in ap some (sym value)))
      refl (out n (omega (arith, value)) wide)
  where
    out : (n : ℕ) → n < 4096 → 64 ≤ n → is_out_of_form 2 n ≡ false
    out n small wide = ground arith

three_letters :
    (d d' d'' n : ℕ)
    → d < 64
    → d' < 64
    → d'' < 64
    → n ≡ ((0 * 64 + d) * 64 + d') * 64 + d''
    → 4096 ≤ n
    → n < 2 ^ 16
    → decode_sce_id (letter d ∷ letter d' ∷ letter d'' ∷ []) ≡ some n
three_letters d d' d'' n h h' h'' value wide small =
    decodes n (letter d ∷ letter d' ∷ letter d'' ∷ [])
      (write_step 0 d (letter d' ∷ letter d'' ∷ []) (omega arith) h
        ∙ write_step (0 * 64 + d) d' (letter d'' ∷ []) (omega arith) h'
        ∙ write_step ((0 * 64 + d) * 64 + d') d'' [] (omega arith) h''
        ∙ (unfold decode_from in ap some (sym value)))
      refl (out n wide small)
  where
    out : (n : ℕ) → 4096 ≤ n → n < 2 ^ 16 → is_out_of_form 3 n ≡ false
    out n wide small = ground arith

pub decode_sce_id-encode_sce_id : (n : ℕ) → n < 2 ^ 16 → decode_sce_id (encode_sce_id n) ≡ some n
unfolding encode_sce_id
decode_sce_id-encode_sce_id n h = elim (Bool-cases (ltb n 64)) [
  | inl a ↦ rw a (one_letter n (ground (arith, a)))
  | inr a ↦
      let over : 64 ≤ n = ground (arith, a) in
      elim (Bool-cases (ltb n 4096)) [
        | inl b ↦
            let below : n < 4096 = ground (arith, b) in
            rw (a, b)
              (two_letters (n / 64) (n % 64) n (omega arith) (omega arith) (omega arith) over)
        | inr b ↦
            let above : 4096 ≤ n = ground (arith, b) in
            rw (a, b)
              (three_letters (n / 4096) (n / 64 % 64) (n % 64) n (omega arith) (omega arith)
                (omega arith) (omega arith) above h)
      ]
]

-- DecodeSceId reads each 16-bit number in exactly one spelling: its base-64 digits without leading
-- zeros. Every other string is refused.
pub decode_sce_id_iff :
    (n : ℕ) (s : Bytes) → (decode_sce_id s ≡ some n) ↔ ((n < 2 ^ 16) × (s ≡ encode_sce_id n))
decode_sce_id_iff n s =
    (λ e. spelled n s e, λ e. ap decode_sce_id e.1 ∙ decode_sce_id-encode_sce_id n e.0)
