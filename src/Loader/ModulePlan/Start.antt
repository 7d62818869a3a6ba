-- ===== src/Loader/ModulePlan/Start.antt =====
-- What holds between the turns of the loops of BuildModuleStartPlan of src/loader/module_plan.cpp.
use kaj_ps.Base.{
  ◌++◌, ℕ, suc, ◌+◌, ◌≤◌, ◌<◌, ◌≡◌, refl, sym, ap, ◌∙◌, Bool, true, false, not, ◌&&◌, ◌||◌, List,
  [], ◌∷◌, arith, ◌==◌, if◌then◌else◌, bit, count, inl, inr, Bool-cases,
}
use kaj_ps.Loader.ModulePlan.Order.{Node, Plan, mark, all_started, start, can_start}

-- The indices rise from `b` on.
abbrev pub Rising : ℕ → List Node → Type 0
Rising b [] = Unit {0}
Rising b (n ∷ nodes) = (b ≤ n.index) × Rising (suc n.index) nodes

abbrev pub initializer : ℕ → List Node → Bool
initializer i [] = false
initializer i (n ∷ nodes) = (n.index == i) && n.has_initializer || initializer i nodes

abbrev pub dependencies_of : ℕ → List Node → List ℕ
dependencies_of i [] = []
dependencies_of i (n ∷ nodes) = if n.index == i then n.dependencies else dependencies_of i nodes

-- How many modules are still to start.
abbrev pub waiting : (ℕ → Bool) → List Node → ℕ
waiting started [] = 0
waiting started (n ∷ nodes) =
    bit (n.has_initializer && not (started n.index)) + waiting started nodes

-- The modules of a part of the list, as the whole list has them.
abbrev pub Members : List Node → List Node → Type 0
Members nodes [] = Unit {0}
Members nodes (n ∷ ns) =
    (initializer n.index nodes ≡ n.has_initializer)
    × (dependencies_of n.index nodes ≡ n.dependencies)
    × Members nodes ns

pub initializer_low :
    (i b : ℕ) (nodes : List Node) → Rising b nodes → i < b → initializer i nodes ≡ false
initializer_low i b [] r h = refl
initializer_low i b (n ∷ nodes) r h = ground (arith, initializer_low i (suc n.index) nodes r.1)

Members-weaken :
    (b : ℕ) (m : Node) (nodes ns : List Node)
    → m.index < b
    → Rising b ns
    → Members nodes ns
    → Members (m ∷ nodes) ns
Members-weaken b m nodes [] h r k = tt
Members-weaken b m nodes (n ∷ ns) h r (i, d, k) =
    let other : m.index == n.index ≡ false = ground (arith, r.0) in
    (rw other i, rw other d, Members-weaken (suc n.index) m nodes ns (omega (arith, r.0)) r.1 k)

pub all-Members : (b : ℕ) (nodes : List Node) → Rising b nodes → Members nodes nodes
all-Members b [] r = tt
all-Members b (n ∷ nodes) r =
    let here : n.index == n.index ≡ true = ground arith in
    let low = initializer_low n.index (suc n.index) nodes r.1 (omega arith) in
    (
      ground (arith, here, low),
      rw here refl,
      Members-weaken (suc n.index) n nodes nodes (omega arith) r.1
          (all-Members (suc n.index) nodes r.1),
    )

waiting_low :
    (i b : ℕ) (started : ℕ → Bool) (nodes : List Node)
    → Rising b nodes
    → i < b
    → waiting (mark i started) nodes ≡ waiting started nodes
waiting_low i b started [] r h = refl
waiting_low i b started (n ∷ nodes) r h =
    let other : n.index == i ≡ false = ground (arith, r.0) in
    rw other (
      ap (λ (t : ℕ). bit (n.has_initializer && not (started n.index)) + t)
        (waiting_low i (suc n.index) started nodes r.1 (omega (arith, r.0))))

-- A module that starts is one less to start.
pub waiting-mark :
    (i b : ℕ) (started : ℕ → Bool) (nodes : List Node)
    → Rising b nodes
    → initializer i nodes ≡ true
    → started i ≡ false
    → suc (waiting (mark i started) nodes) ≡ waiting started nodes
waiting-mark i b started [] r e s = absurd cc
waiting-mark i b started (n ∷ nodes) r e s = elim (Bool-cases (n.index == i)) [
  | inl q ↦
      let same : n.index ≡ i = ground (arith, q) in
      let low = initializer_low i (suc n.index) nodes r.1 (omega (arith, same)) in
      let rest = waiting_low i (suc n.index) started nodes r.1 (omega (arith, same)) in
      let idle : started n.index ≡ false = ap started same ∙ s in
      let first : n.has_initializer ≡ true = ground (arith, e, q, low) in
      rw (q, first, idle) (omega (arith, rest))
  | inr q ↦
      let rest = waiting-mark i (suc n.index) started nodes r.1 (ground (arith, e, q)) s in
      rw q (omega (arith, rest))
]

-- The flags after a sequence of starts.
abbrev pub marks : List ℕ → (ℕ → Bool) → ℕ → Bool
marks [] started = started
marks (i ∷ is) started = marks is (mark i started)

-- Each module of the sequence comes after its dependencies.
abbrev pub WellOrdered : List Node → (ℕ → Bool) → List ℕ → Type 0
WellOrdered nodes started [] = Unit {0}
WellOrdered nodes started (i ∷ is) =
    (all_started started (dependencies_of i nodes) ≡ true) × WellOrdered nodes (mark i started) is

marks_end :
    (is : List ℕ) (i k : ℕ) (started : ℕ → Bool)
    → marks (is ++ (i ∷ [])) started k ≡ mark i (marks is started) k
marks_end [] i k started = refl
marks_end (j ∷ is) i k started = marks_end is i k (mark j started)

end-WellOrdered :
    (nodes : List Node) (is : List ℕ) (i : ℕ) (started : ℕ → Bool)
    → WellOrdered nodes started is
    → all_started (marks is started) (dependencies_of i nodes) ≡ true
    → WellOrdered nodes started (is ++ (i ∷ []))
end-WellOrdered nodes [] i started w a = (a, tt)
end-WellOrdered nodes (j ∷ is) i started w a =
    (w.0, end-WellOrdered nodes is i (mark j started) w.1 a)

pub all_started-same :
    (f g : ℕ → Bool) (is : List ℕ) → ((k : ℕ) → f k ≡ g k) → all_started f is ≡ all_started g is
all_started-same f g [] h = refl
all_started-same f g (i ∷ is) h = rw (h i, all_started-same f g is h) refl

count_end : (is : List ℕ) (i k : ℕ) → count k (is ++ (i ∷ [])) ≡ count k is + bit (i == k)
count_end [] i k = omega arith
count_end (j ∷ is) i k = omega (arith, count_end is i k)

abbrev pub none_started : ℕ → Bool
none_started i = false

-- The state of the loops.
pub record Good (nodes : List Node) (p : Plan) : Type 0 where
  pub counts : (i : ℕ) → count i p.start_order ≡ bit (p.started i)
  pub only : (i : ℕ) → p.started i && not (initializer i nodes) ≡ false
  pub left : p.remaining ≡ waiting p.started nodes
  pub flags : (i : ℕ) → p.started i ≡ marks p.start_order none_started i
  pub ordered : WellOrdered nodes none_started p.start_order

pub start-Good :
    (b : ℕ) (n : Node) (nodes : List Node) (p : Plan)
    → Rising b nodes
    → initializer n.index nodes ≡ n.has_initializer
    → dependencies_of n.index nodes ≡ n.dependencies
    → Good nodes p
    → can_start p.started n ≡ true
    → Good nodes (start n.index p)
start-Good b n nodes p r i d g c =
    let first : initializer n.index nodes ≡ true = i ∙ ground (arith, c) in
    let idle : p.started n.index ≡ false = ground (arith, c) in
    let ready : all_started p.started n.dependencies ≡ true = ground (arith, c) in
    record {
      counts = λ k. ground (arith, count_end p.start_order n.index k, g.counts k, idle);
      only = λ k. elim (Bool-cases (k == n.index)) [
        | inl q ↦
            let same : k ≡ n.index = ground (arith, q) in
            rw q (ap (λ (t : ℕ). not (initializer t nodes)) same ∙ ap not first)
        | inr q ↦ rw q (g.only k)
      ];
      left = omega (arith, waiting-mark n.index b p.started nodes r first idle, g.left);
      flags = λ k.
          ap (λ (t : Bool). (k == n.index) || t) (g.flags k)
          ∙ sym (marks_end p.start_order n.index k none_started);
      ordered = end-WellOrdered nodes p.start_order n.index none_started g.ordered (
          sym (
            all_started-same p.started (marks p.start_order none_started)
              (dependencies_of n.index nodes) g.flags)
          ∙ ap (all_started p.started) d
          ∙ ready);
    }
