-- ===== src/Loader/SceSymbol/Names.antt =====
-- The symbol names that ParseSceSymbolReference of src/loader/sce_symbol.cpp accepts.
use kaj_ps.Base.{
  ℕ, ◌/◌, ◌%◌, ◌^◌, ◌<◌, ◌≡◌, ◌↔◌, refl, sym, ◌∙◌, ap, false, ◌||◌, Option, none, some, [], ◌∷◌,
  ◌++◌, arith, ltb, ◌==◌, inl, inr, Option-cases, Bool-cases,
}
use kaj_ps.Base.Assoc
use kaj_ps.Base.Text.{Bytes, is_empty}
use kaj_ps.Loader.SceSymbol.{
  alphabet, index_of, decode_sce_id, separator, split_at_separator, SceSymbolReference,
  parse_sce_symbol_reference,
}
use kaj_ps.Loader.SceSymbol.Letters.{letter, index_of-letter}
use kaj_ps.Loader.SceSymbol.RoundTrip.{encode_sce_id, decode_sce_id_iff}

pair_split :
    (a a' b b' : Bytes)
    → ◌≡◌ {A = Option (Bytes × Bytes)} (some (a, b)) (some (a', b'))
    → (a' ≡ a) × (b' ≡ b)
pair_split a a' b b' e = (cc, cc)

split_found :
    (s before behind : Bytes)
    → split_at_separator s ≡ some (before, behind)
    → (s ≡ before ++ (separator ∷ behind)) × (split_at_separator before ≡ none)
unfolding split_at_separator
split_found [] before behind e = absurd (ground (arith, e))
split_found (c ∷ s) before behind e = elim (Bool-cases (c == separator)) [
  | inl q ↦
      let (none_before, rest) = pair_split [] before s behind (ground (arith, q, e)) in
      let here : c ≡ separator = ground (arith, q) in
      (cc (none_before, rest, here), ap split_at_separator none_before)
  | inr q ↦ elim (Option-cases (split_at_separator s)) [
    | inl f ↦ absurd (ground (arith, q, f, e))
    | inr ((b, t), f) ↦
        let (front, rest) = pair_split (c ∷ b) before t behind (ground (arith, q, f, e)) in
        let (whole, clean) = split_found s b t f in
        (
          ap (λ (u : Bytes). c ∷ u) whole
              ∙ ap (λ (u : Bytes). u ++ (separator ∷ t)) (sym front)
              ∙ ap (λ (u : Bytes). before ++ (separator ∷ u)) (sym rest),
          ap split_at_separator front ∙ ground (arith, q, clean),
        )
  ]
]

split_at_separator-append :
    (before behind : Bytes)
    → split_at_separator before ≡ none
    → split_at_separator (before ++ (separator ∷ behind)) ≡ some (before, behind)
unfolding split_at_separator
split_at_separator-append [] behind e = refl
split_at_separator-append (c ∷ before) behind e =
    let other : c == separator ≡ false = ground (arith, e) in
    let later : split_at_separator before ≡ none =
      ground (arith, other, e, Option-cases (split_at_separator before)) in
    ground (arith, other, split_at_separator-append before behind later)

letter_plain : (d : ℕ) → d < 64 → letter d == separator ≡ false
letter_plain d h = elim (Bool-cases (letter d == separator)) [
  | inr q ↦ q
  | inl q ↦
      let same : letter d ≡ separator = ground (arith, q) in
      let found = index_of-letter d h in
      let missing : index_of separator alphabet ≡ none = unfold index_of in refl in
      absurd (ground (arith, ap (λ (c : ℕ). index_of c alphabet) same, found, missing))
]

encode_plain : (n : ℕ) → n < 2 ^ 16 → split_at_separator (encode_sce_id n) ≡ none
unfolding split_at_separator encode_sce_id
encode_plain n h = elim (Bool-cases (ltb n 64)) [
  | inl a ↦ rw a (ground (arith, letter_plain n (ground (arith, a))))
  | inr a ↦ elim (Bool-cases (ltb n 4096)) [
    | inl b ↦
        let small : n < 4096 = ground (arith, b) in
        rw (a, b)
          (rw (letter_plain (n / 64) (omega arith), letter_plain (n % 64) (omega arith)) refl)
    | inr b ↦
        rw (a, b)
          (rw
            (
              letter_plain (n / 4096) (omega arith),
              letter_plain (n / 64 % 64) (omega arith),
              letter_plain (n % 64) (omega arith),
            )
            refl)
  ]
]

-- The name of a reference.
unfoldable pub print_sce_symbol_reference : SceSymbolReference → Bytes
print_sce_symbol_reference r =
    r.nid ++ (separator ∷ (encode_sce_id r.library_id ++ (separator ∷ encode_sce_id r.module_id)))

-- The parts of a reference are in range.
abbrev pub IsReference : SceSymbolReference → Type 0
IsReference r =
    (is_empty r.nid ≡ false)
    × (split_at_separator r.nid ≡ none)
    × (r.library_id < 2 ^ 16)
    × (r.module_id < 2 ^ 16)

parse_parts :
    (symbol nid rest library m : Bytes) (i k : ℕ)
    → split_at_separator symbol ≡ some (nid, rest)
    → split_at_separator rest ≡ some (library, m)
    → is_empty nid ≡ false
    → split_at_separator m ≡ none
    → decode_sce_id library ≡ some i
    → decode_sce_id m ≡ some k
    → parse_sce_symbol_reference symbol ≡ some (record { nid = nid; library_id = i; module_id = k })
unfolding parse_sce_symbol_reference
parse_parts symbol nid rest library m i k first second filled third l o =
    rw (first, parse_sce_symbol_reference) (rw second (rw (filled, third) (rw (l, o) refl)))

print_parses :
    (r : SceSymbolReference)
    → IsReference r
    → parse_sce_symbol_reference (print_sce_symbol_reference r) ≡ some r
unfolding print_sce_symbol_reference
print_parses r (filled, clean, low, low') =
    let library = encode_sce_id r.library_id in
    let m = encode_sce_id r.module_id in
    let rest = library ++ (separator ∷ m) in
    parse_parts (r.nid ++ (separator ∷ rest)) r.nid rest library m r.library_id r.module_id
      (split_at_separator-append r.nid rest clean)
      (split_at_separator-append library m (encode_plain r.library_id low)) filled
      (encode_plain r.module_id low') ((decode_sce_id_iff r.library_id library).1 (low, refl))
      ((decode_sce_id_iff r.module_id m).1 (low', refl))

-- What ParseSceSymbolReference has seen where it returns a reference.
parse_seen :
    (symbol : Bytes) (r : SceSymbolReference)
    → parse_sce_symbol_reference symbol ≡ some r
    → (rest : Bytes) × (library : Bytes) × (m : Bytes) × (split_at_separator symbol
        ≡ some (r.nid, rest))
      × (split_at_separator rest ≡ some (library, m))
      × (is_empty r.nid ≡ false)
      × (decode_sce_id library ≡ some r.library_id)
      × (decode_sce_id m ≡ some r.module_id)
unfolding parse_sce_symbol_reference
parse_seen symbol r e = elim (Option-cases (split_at_separator symbol)) [
  | inl f ↦ absurd (ground (arith, f, e))
  | inr ((nid, rest), f) ↦ elim (Option-cases (split_at_separator rest)) [
    | inl g ↦ absurd (ground (arith, f, g, e))
    | inr ((library, m), g) ↦
        elim (Bool-cases (is_empty nid || Assoc.is_some (split_at_separator m))) [
          | inl b ↦ absurd (ground (arith, f, g, b, e))
          | inr b ↦ elim (Option-cases (decode_sce_id library)) [
            | inl d ↦ absurd (ground (arith, f, g, b, d, e))
            | inr (i, d) ↦ elim (Option-cases (decode_sce_id m)) [
              | inl d' ↦ absurd (ground (arith, f, g, b, d, d', e))
              | inr (k, d') ↦
                  let whole : record { nid = nid; library_id = i; module_id = k } ≡ r =
                    ground (arith, f, g, b, d, d', e) in
                  let name : nid ≡ r.nid = ap (λ (t : SceSymbolReference). t.nid) whole in
                  (
                    rest,
                    library,
                    m,
                    f ∙ ap (λ t. some (t, rest)) name,
                    g,
                    ap is_empty (sym name) ∙ ground (arith, b),
                    d ∙ ap (λ (t : SceSymbolReference). some t.library_id) whole,
                    d' ∙ ap (λ (t : SceSymbolReference). some t.module_id) whole,
                  )
            ]
          ]
        ]
  ]
]

-- ParseSceSymbolReference accepts exactly the names nid#library#module: a non-empty nid without a
-- separator, and the spellings of two 16-bit numbers. It returns their parts.
pub parse_sce_symbol_reference_iff :
    (symbol : Bytes) (r : SceSymbolReference)
    → (parse_sce_symbol_reference symbol ≡ some r)
      ↔ (IsReference r × (symbol ≡ print_sce_symbol_reference r))
parse_sce_symbol_reference_iff symbol r = (
  λ e.
      let (rest, library, m, first, second, filled, l, o) = parse_seen symbol r e in
      let (whole, clean) = split_found symbol r.nid rest first in
      let (tail, _) = split_found rest library m second in
      let (low, same) = (decode_sce_id_iff r.library_id library).0 l in
      let (low', same') = (decode_sce_id_iff r.module_id m).0 o in
      (
        (filled, clean, low, low'),
        unfold print_sce_symbol_reference in
            whole
            ∙ ap (λ (t : Bytes). r.nid ++ (separator ∷ t))
                (tail
                  ∙ ap (λ (t : Bytes). t ++ (separator ∷ m)) same
                  ∙ ap (λ (t : Bytes). encode_sce_id r.library_id ++ (separator ∷ t)) same'),
      ),
  λ p. ap parse_sce_symbol_reference p.1 ∙ print_parses r p.0,
)
