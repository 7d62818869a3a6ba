-- ===== src/Loader/StaticTls/Laws.antt =====
-- RegisterModule of StaticTlsLayout: where the blocks of the registered modules lie.
use Prim.Native.Nat.{bit_and}
use native.Mathlib.Nat.{mod-add-div, mod-lt, mod-eq_of_lt, mod-mod, add-mod-mod}
use kaj_ps.Base.{
  ℕ, suc, ◌+◌, ◌-◌, ◌*◌, ◌/◌, ◌%◌, ◌^◌, ◌≤◌, ◌<◌, ◌≡◌, ◌≢◌, ◌∙◌, ap, subst, sym, refl, false,
  Option, none, some, List, [], ◌∷◌, arith, ◌==◌, ltb, max, if◌then◌else◌, ◌⊎◌, inl, inr,
  Bool-cases, ==_iff, ◌&&◌, Option-cases,
}
use kaj_ps.Base.Bits.{bit_and_mask, pow_pos, mod_unique, power_of_two}
use kaj_ps.Base.Assoc
use kaj_ps.Loader.StaticTls.{
  StaticTlsLayoutStatus, layout_ok, invalid_module_id, invalid_memory_size, invalid_alignment,
  layout_overflow, reservation_exceeded, module_order_invalid, module_conflict, StaticTlsModule,
  StaticTlsLayout, Registered, no_module, new_layout, last_id, is_out_of_order, overflows,
  offset_after, register_new, register_found, normalized, register_module, find_module,
}

-- A candidate reduced by the rest of candidate and bias is a multiple less the bias.
rest_removed : (c b n : ℕ) → 1 ≤ n → b < n → n - 1 ≤ c → (c - (c % n + b) % n + b) % n ≡ 0
rest_removed c b n p small large =
    let q = c / n in
    let split : c % n + n * q ≡ c = mod-add-div c n in
    let below : c % n < n = mod-lt c p in
    elim (Bool-cases (ltb (c % n + b) n)) [
      | inl one ↦
          let rest : (c % n + b) % n ≡ c % n + b =
            ap (λ (t : ℕ). t % n) (omega arith)
            ∙ mod_unique 0 (c % n + b) n (ground (arith, one)) in
          let whole : c - (c % n + b) % n + b ≡ 0 + n * q =
            omega (arith, rest, split, below, large) in
          ap (λ (t : ℕ). t % n) whole ∙ mod_unique q 0 n (omega (arith, p))
      | inr two ↦
          let rest : (c % n + b) % n ≡ c % n + b - n =
            ap (λ (t : ℕ). t % n) (ground (arith, two))
            ∙ mod_unique 1 (c % n + b - n) n (omega (arith, below, small)) in
          let next : n * suc q ≡ n * q + n = grind arith in
          let whole : c - (c % n + b) % n + b ≡ 0 + n * suc q =
            ground (arith, rest, split, below, large, next, two, small) in
          ap (λ (t : ℕ). t % n) whole ∙ mod_unique (suc q) 0 n (omega (arith, p))
    ]

-- Where a new block goes: behind the total, as near as its alignment allows.
offset_lem :
    (k total size bias : ℕ)
    → bias < 2 ^ k
    → let offset = offset_after total size (2 ^ k) bias in
      (total + size ≤ offset) × (offset < total + size + 2 ^ k) × ((offset + bias) % 2 ^ k ≡ 0)
unfolding offset_after
offset_lem k total size bias small =
    let c = total + size + 2 ^ k - 1 in
    let rest : bit_and (bit_and c (2 ^ k - 1) + bias) (2 ^ k - 1) ≡ (c % 2 ^ k + bias) % 2 ^ k =
      bit_and_mask k (bit_and c (2 ^ k - 1) + bias)
      ∙ ap (λ (t : ℕ). (t + bias) % 2 ^ k) (bit_and_mask k c) in
    let below : (c % 2 ^ k + bias) % 2 ^ k < 2 ^ k = mod-lt _ (pow_pos k) in
    (
      omega (arith, rest, below, pow_pos k),
      omega (arith, rest, below, pow_pos k),
      ap (λ (t : ℕ). (c - t + bias) % 2 ^ k) rest
          ∙ rest_removed c bias (2 ^ k) (pow_pos k) small (omega (arith, pow_pos k)),
    )

abbrev pub Placed : StaticTlsLayout → StaticTlsModule → Type 0
Placed l m =
    (1 ≤ m.memory_size)
    × (m.memory_size ≤ m.static_offset)
    × (m.static_offset ≤ l.total_size)
    × ((m.static_offset + m.alignment_bias) % m.alignment ≡ 0)
    × (m.alignment ≤ l.maximum_alignment)

-- Every registered block is placed within the total, on its alignment, and a later block starts
-- behind all earlier ones.
pub record Inv (l : StaticTlsLayout) : Type 0 where
  pub sorted : Assoc.Above 0 l.modules
  pub bounded : l.total_size ≤ l.reservation
  pub placed : (k : ℕ) (m : StaticTlsModule) → find_module k l ≡ some m → Placed l m
  pub apart :
      (i j : ℕ) (m n : StaticTlsModule)
      → find_module i l ≡ some m
      → find_module j l ≡ some n
      → i < j
      → m.static_offset + n.memory_size ≤ n.static_offset

pub new_layout-Inv : (reservation : ℕ) → Inv (new_layout reservation)
unfolding new_layout find_module Assoc.find
new_layout-Inv reservation = record {
  sorted = tt;
  bounded = omega arith;
  placed = λ k m e. cc;
  apart = λ i j m n e f h. cc;
}

last-Above :
    (b l : ℕ) (ms : List (ℕ × StaticTlsModule)) → Assoc.Above b ms → last_id ms ≡ some l → b ≤ l
unfolding last_id
last-Above b l [] s e = absurd (ground (arith, e))
last-Above b l ((k, m) ∷ ms) s e = elim (Option-cases (last_id ms)) [
  | inl f ↦ ground (arith, e, f)
  | inr (x, f) ↦ ground (arith, e, f, last-Above (suc k) x ms s.1 f)
]

before_new :
    (id k b : ℕ) (m : StaticTlsModule) (ms : List (ℕ × StaticTlsModule))
    → Assoc.Above b ms
    → is_out_of_order id (last_id ms) ≡ false
    → Assoc.find k ms ≡ some m
    → k < id
unfolding last_id Assoc.find
before_new id k b m [] s o e = absurd (ground (arith, e))
before_new id k b m ((j, w) ∷ ms) s o e = elim (Option-cases (last_id ms)) [
  | inl f ↦ ground (arith, o, e, f, before_new id k (suc j) m ms s.1)
  | inr (x, f) ↦
      ground (arith, o, e, f, last-Above (suc j) x ms s.1 f, before_new id k (suc j) m ms s.1)
]

-- What RegisterModule answers: the layout with the block of the module, or an error and the layout as
-- it was.
abbrev pub Outcome : ℕ → ℕ → ℕ → ℕ → StaticTlsLayout → Registered → Type 0
Outcome id size alignment bias l (l', status, m) =
    Inv l'
    × ((status ≡ layout_ok)
          × (m.memory_size ≡ size)
          × (m.alignment ≡ alignment)
          × ((m.static_offset + bias) % alignment ≡ 0)
          × (m.alignment_bias ≡ bias % alignment)
          × Placed l' m
          × ((k : ℕ) → find_module k l' ≡ (if id == k then some m else find_module k l))
        ⊎ (status ≢ layout_ok) × (l' ≡ l))

refused :
    (id size alignment bias : ℕ) (l : StaticTlsLayout) (status : StaticTlsLayoutStatus)
    (m : StaticTlsModule)
    → Inv l
    → status ≢ layout_ok
    → Outcome id size alignment bias l (l, status, m)
refused id size alignment bias l status m g h = (g, inr (h, refl))

-- A bias counts by its rest.
of_rest :
    (id size alignment b bias : ℕ) (l : StaticTlsLayout) (r : Registered)
    → b ≡ bias % alignment
    → Outcome id size alignment b l r
    → Outcome id size alignment bias l r
of_rest id size alignment b bias l (l', status, m) e (g, inr kept) = (g, inr kept)
of_rest id size alignment b bias l (l', status, m) e
      (g, inl (fine, s, a, start, rest, placed, others)) =
    (
      g,
      inl (
        fine,
        s,
        a,
        sym (add-mod-mod m.static_offset bias alignment)
            ∙ ap (λ (t : ℕ). (m.static_offset + t) % alignment) (sym e)
            ∙ start,
        rest ∙ ap (λ (t : ℕ). t % alignment) e ∙ mod-mod bias alignment,
        placed,
        others,
      ),
    )

-- A new block behind all others keeps the invariant.
add_lem :
    (id : ℕ) (m : StaticTlsModule) (l : StaticTlsLayout)
    → Inv l
    → find_module id l ≡ none
    → is_out_of_order id (last_id l.modules) ≡ false
    → 1 ≤ m.memory_size
    → l.total_size + m.memory_size ≤ m.static_offset
    → (m.static_offset + m.alignment_bias) % m.alignment ≡ 0
    → m.alignment_bias % m.alignment ≡ m.alignment_bias
    → m.static_offset ≤ l.reservation
    → Outcome id m.memory_size m.alignment m.alignment_bias l (
      record l {
        modules = Assoc.emplace id m l.modules;
        total_size = m.static_offset;
        maximum_alignment = max l.maximum_alignment m.alignment;
      },
      layout_ok,
      m,
    )
unfolding find_module
add_lem id m l g new order some_size behind aligned small fits =
    let found : (k : ℕ)
        → Assoc.find k (Assoc.emplace id m l.modules)
          ≡ (if id == k then some m else Assoc.find k l.modules) =
      λ k. Assoc.find-emplace k id m l.modules new in
    (
      record {
        sorted = Assoc.emplace-Above 0 id m l.modules (omega arith) g.sorted;
        bounded = fits;
        placed = λ k n e. ground (arith, found k, e, g.placed k n, some_size, behind, aligned);
        apart = λ i j a b e f h. ground (
          arith,
          found i,
          found j,
          e,
          f,
          h,
          behind,
          g.placed i a,
          g.apart i j a b,
          before_new id j 0 b l.modules g.sorted order,
        );
      },
      inl (
        refl,
        refl,
        refl,
        aligned,
        sym small,
        (some_size, omega (arith, behind), omega arith, aligned, omega arith),
        found,
      ),
    )

register_new_lem :
    (id size k bias : ℕ) (l : StaticTlsLayout)
    → Inv l
    → find_module id l ≡ none
    → 1 ≤ size
    → bias < 2 ^ k
    → Outcome id size (2 ^ k) bias l (register_new id size (2 ^ k) bias l)
unfolding register_new
register_new_lem id size k bias l g new some_size small =
    let no = refused id size (2 ^ k) bias l in
    elim (Bool-cases (is_out_of_order id (last_id l.modules))) [
      | inl o ↦ rw o (no module_order_invalid no_module g (λ e. cc))
      | inr o ↦ elim (Bool-cases (overflows l.total_size size (2 ^ k))) [
        | inl v ↦ rw (o, v) (no layout_overflow no_module g (λ e. cc))
        | inr v ↦
            elim (Bool-cases (ltb l.reservation (offset_after l.total_size size (2 ^ k) bias))) [
              | inl x ↦ rw (o, v, x) (no reservation_exceeded no_module g (λ e. cc))
              | inr x ↦
                  let (behind, _, aligned) = offset_lem k l.total_size size bias small in
                  let entry : StaticTlsModule = record {
                    module_id = id;
                    memory_size = size;
                    alignment = 2 ^ k;
                    alignment_bias = bias;
                    static_offset = offset_after l.total_size size (2 ^ k) bias;
                  } in
                  rw (o, v, x)
                    (add_lem id entry l g new o some_size behind aligned (mod-eq_of_lt small)
                      (ground (arith, x)))
            ]
      ]
    ]

same_place :
    (id k : ℕ) (m : StaticTlsModule) (l : StaticTlsLayout)
    → find_module id l ≡ some m
    → find_module k l ≡ (if id == k then some m else find_module k l)
same_place id k m l e = elim (Bool-cases (id == k)) [
  | inl q ↦ rw q (subst (λ t. find_module t l ≡ some m) ((==_iff id k).0 q) e)
  | inr q ↦ rw q refl
]

same_start :
    (id : ℕ) (m : StaticTlsModule) (l : StaticTlsLayout) (bias alignment : ℕ)
    → Placed l m
    → m.alignment_bias ≡ bias
    → m.alignment ≡ alignment
    → (m.static_offset + bias) % alignment ≡ 0
same_start id m l bias alignment p b a =
    subst (λ t. (m.static_offset + bias) % t ≡ 0) a
      (subst (λ t. (m.static_offset + t) % m.alignment ≡ 0) b p.3)

register_found_lem :
    (id size k bias : ℕ) (found : Option StaticTlsModule) (l : StaticTlsLayout)
    → Inv l
    → find_module id l ≡ found
    → 1 ≤ size
    → bias < 2 ^ k
    → Outcome id size (2 ^ k) bias l (register_found id size (2 ^ k) bias found l)
register_found_lem id size k bias none l g e some_size small =
    register_new_lem id size k bias l g e some_size small
register_found_lem id size k bias (some m) l g e some_size small =
    elim (Bool-cases
      ((m.memory_size == size) && (m.alignment == 2 ^ k) && (m.alignment_bias == bias))) [
        | inl s ↦ rw s (
          g,
          inl (
            refl,
            ground (arith, s),
            ground (arith, s),
            same_start id m l bias (2 ^ k) (g.placed id m e) (ground (arith, s))
                (ground (arith, s)),
            ground (arith, s) ∙ sym (mod-eq_of_lt small),
            g.placed id m e,
            λ j. same_place id j m l e,
          ),
        )
        | inr s ↦ rw s (refused id size (2 ^ k) bias l module_conflict m g (λ q. cc))
      ]

-- RegisterModule keeps all blocks apart and within the reservation, each at a distance below the
-- thread pointer that its own bias makes up to a multiple of its alignment. Where it succeeds, the
-- module has a block of the size and the alignment asked for, whose distance and the bias asked for
-- make a multiple of the alignment, it keeps the rest of that bias, and no other module's block moves.
-- Where it does not, the layout is as it was.
pub register_module_lem :
    (id size alignment bias : ℕ) (l : StaticTlsLayout)
    → Inv l
    → Outcome id size (normalized alignment) bias l (register_module id size alignment bias l)
unfolding register_module find_module
register_module_lem id size alignment bias l g =
    let a = normalized alignment in
    let no = refused id size a bias l in
    elim (Bool-cases (id == 0)) [
      | inl i ↦ rw i (no invalid_module_id no_module g (λ e. cc))
      | inr i ↦ elim (Bool-cases (size == 0)) [
        | inl s ↦ rw (i, s) (no invalid_memory_size no_module g (λ e. cc))
        | inr s ↦ elim (Bool-cases (bit_and a (a - 1) == 0)) [
          | inr p ↦ rw (i, s, p) (no invalid_alignment no_module g (λ e. cc))
          | inl p ↦
              let (k, power) = power_of_two a (ground arith) (ground (arith, p)) in
              let small : bit_and bias (a - 1) < 2 ^ k =
                subst (λ t. bit_and bias (t - 1) < 2 ^ k) (sym power)
                  (omega (arith, bit_and_mask k bias, mod-lt bias (pow_pos k))) in
              let rest : bit_and bias (a - 1) ≡ bias % a =
                subst (λ t. bit_and bias (t - 1) ≡ bias % t) (sym power) (bit_and_mask k bias) in
              rw (i, s, p)
                (of_rest id size a (bit_and bias (a - 1)) bias l
                  (register_found id size a (bit_and bias (a - 1)) (find_module id l) l) rest
                  (subst
                    (λ t.
                      Outcome id size t (bit_and bias (a - 1)) l
                        (register_found id size t (bit_and bias (a - 1)) (find_module id l) l))
                    (sym power)
                    (register_found_lem id size k (bit_and bias (a - 1)) (find_module id l) l g refl
                      (ground (arith, s)) small)))
        ]
      ]
    ]
