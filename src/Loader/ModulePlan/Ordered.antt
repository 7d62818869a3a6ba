-- ===== src/Loader/ModulePlan/Ordered.antt =====
-- The order of the starts in BuildModuleStartPlan of src/loader/module_plan.cpp, by what the modules
-- need.
use kaj_ps.Base.{
  ℕ, suc, ◌≡◌, refl, sym, ap, ◌∙◌, Bool, true, false, not, ◌&&◌, List, [], ◌∷◌, arith, ◌==◌, ◌⊎◌,
  inl, inr, Bool-cases,
}
use kaj_ps.Loader.ModulePlan.{ModuleDependencyInput, has_initializer_at}
use kaj_ps.Loader.ModulePlan.Order.{Node, mark, all_started}
use kaj_ps.Loader.ModulePlan.Start.{
  Rising, initializer, dependencies_of, WellOrdered, initializer_low,
}
use kaj_ps.Loader.ModulePlan.Runs.{AllBlocked}
use kaj_ps.Loader.ModulePlan.Needs.{requires, contains}

-- Each module of the sequence comes after every module that it needs.
abbrev pub Ordered : List ModuleDependencyInput → (ℕ → Bool) → List ℕ → Type 0
Ordered modules started [] = Unit {0}
Ordered modules started (i ∷ is) =
    ((j : ℕ) → requires modules i j && not (started j) ≡ false)
    × Ordered modules (mark i started) is

-- The module has started, has no initialiser, or needs a module that has not started.
abbrev pub IsServed : List ModuleDependencyInput → (ℕ → Bool) → ℕ → Type 0
IsServed modules started i =
    (has_initializer_at i modules && not (started i) ≡ false)
    ⊎ ((j : ℕ) × (requires modules i j ≡ true) × (started j ≡ false))

all_started-contains :
    (started : ℕ → Bool) (ks : List ℕ) (j : ℕ)
    → all_started started ks ≡ true
    → contains j ks && not (started j) ≡ false
all_started-contains started [] j a = refl
all_started-contains started (k ∷ ks) j a = elim (Bool-cases (k == j)) [
  | inl q ↦ let same : k ≡ j = ground (arith, q) in ground (arith, a, q, ap started same)
  | inr q ↦ ground (arith, a, q, all_started-contains started ks j)
]

not_started :
    (started : ℕ → Bool) (ks : List ℕ)
    → all_started started ks ≡ false
    → (j : ℕ) × (contains j ks ≡ true) × (started j ≡ false)
not_started started [] a = absurd cc
not_started started (k ∷ ks) a = elim (Bool-cases (started k)) [
  | inr s ↦ (k, ground arith, s)
  | inl s ↦
      let (j, there, idle) = not_started started ks (ground (arith, a, s)) in
      (j, ground (arith, there), idle)
]

AllBlocked-at :
    (started : ℕ → Bool) (b i : ℕ) (nodes : List Node)
    → Rising b nodes
    → AllBlocked started nodes
    → initializer i nodes && not (started i) ≡ true
    → all_started started (dependencies_of i nodes) ≡ false
AllBlocked-at started b i [] r a h = absurd cc
AllBlocked-at started b i (n ∷ nodes) r (stuck, a) h = elim (Bool-cases (n.index == i)) [
  | inl q ↦
      let same : n.index ≡ i = ground (arith, q) in
      let low = initializer_low i (suc n.index) nodes r.1 in
      rw q (ground (arith, stuck, h, q, low, ap started same))
  | inr q ↦ rw q (AllBlocked-at started (suc n.index) i nodes r.1 a (ground (arith, h, q)))
]

module _ (modules : List ModuleDependencyInput) (nodes : List Node)
    (needed : (i j : ℕ) → contains j (dependencies_of i nodes) ≡ requires modules i j) where
  pub WellOrdered-Ordered :
      (started : ℕ → Bool) (is : List ℕ) → WellOrdered nodes started is → Ordered modules started is
  WellOrdered-Ordered started [] w = tt
  WellOrdered-Ordered started (i ∷ is) (a, w) = (
    λ j.
        ap (λ (b : Bool). b && not (started j)) (sym (needed i j))
        ∙ all_started-contains started (dependencies_of i nodes) j a,
    WellOrdered-Ordered (mark i started) is w,
  )

  pub AllBlocked-IsServed :
      (started : ℕ → Bool) (i : ℕ)
      → Rising 0 nodes
      → initializer i nodes ≡ has_initializer_at i modules
      → AllBlocked started nodes
      → IsServed modules started i
  AllBlocked-IsServed started i r e a =
      elim (Bool-cases (has_initializer_at i modules && not (started i))) [
        | inr h ↦ inl h
        | inl h ↦
            let stuck =
              AllBlocked-at started 0 i nodes r a (ap (λ (b : Bool). b && not (started i)) e ∙ h) in
            let (j, there, idle) = not_started started (dependencies_of i nodes) stuck in
            inr (j, sym (needed i j) ∙ there, idle)
      ]
