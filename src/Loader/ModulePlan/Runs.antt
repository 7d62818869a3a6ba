-- ===== src/Loader/ModulePlan/Runs.antt =====
-- The while loop of BuildModuleStartPlan of src/loader/module_plan.cpp with its fuel, and the modules
-- that it leaves.
use kaj_ps.Base.{
  ℕ, zero, suc, ◌≤◌, ◌<◌, ◌≡◌, refl, ap, ◌∙◌, Bool, true, false, not, ◌&&◌, List, [], ◌∷◌, arith,
  ◌==◌, bit, count, inl, inr, Bool-cases,
}
use kaj_ps.Loader.ModulePlan.Order.{Node, Plan, start, can_start, pass, run, fallback}
use kaj_ps.Loader.ModulePlan.Start.{
  Rising, Members, initializer, waiting, waiting-mark, Good, start-Good, all-Members,
  initializer_low,
}

-- No module of the list can start.
abbrev pub AllBlocked : (ℕ → Bool) → List Node → Type 0
AllBlocked started [] = Unit {0}
AllBlocked started (n ∷ nodes) = (can_start started n ≡ false) × AllBlocked started nodes

module _ (nodes : List Node) (r : Rising 0 nodes) where
  pass-Good :
      (ns : List Node) (p : Plan) → Members nodes ns → Good nodes p → Good nodes (pass ns p).0
  unfolding pass
  pass-Good [] p k g = g
  pass-Good (n ∷ ns) p (i, d, k) g = elim (Bool-cases (can_start p.started n)) [
    | inl c ↦ rw (c, pass) (pass-Good ns (start n.index p) k (start-Good 0 n nodes p r i d g c))
    | inr c ↦ rw (c, pass) (pass-Good ns p k g)
  ]

  pass_shrinks : (ns : List Node) (p : Plan) → (pass ns p).0.remaining ≤ p.remaining
  unfolding pass
  pass_shrinks [] p = omega arith
  pass_shrinks (n ∷ ns) p = elim (Bool-cases (can_start p.started n)) [
    | inl c ↦ rw (c, pass) (omega (arith, pass_shrinks ns (start n.index p)))
    | inr c ↦ rw (c, pass) (pass_shrinks ns p)
  ]

  pass_progresses :
      (ns : List Node) (p : Plan)
      → Members nodes ns
      → Good nodes p
      → (pass ns p).1 ≡ true
      → (pass ns p).0.remaining < p.remaining
  unfolding pass
  pass_progresses [] p k g = λ e. absurd cc
  pass_progresses (n ∷ ns) p (i, d, k) g = elim (Bool-cases (can_start p.started n)) [
    | inl c ↦
        let first : initializer n.index nodes ≡ true = i ∙ ground (arith, c) in
        let fewer = waiting-mark n.index 0 p.started nodes r first (ground (arith, c)) in
        rw (c, pass) (λ e. omega (arith, pass_shrinks ns (start n.index p), fewer, g.left))
    | inr c ↦ rw (c, pass) (λ e. pass_progresses ns p k g e)
  ]

  pass_blocked :
      (ns : List Node) (p : Plan)
      → (pass ns p).1 ≡ false
      → ((pass ns p).0 ≡ p) × AllBlocked p.started ns
  unfolding pass
  pass_blocked [] p = λ e. (refl, tt)
  pass_blocked (n ∷ ns) p = elim (Bool-cases (can_start p.started n)) [
    | inl c ↦ rw (c, pass) (λ e. absurd cc)
    | inr c ↦
        rw (c, pass) (λ e. let (same, blocked) = pass_blocked ns p e in (same, (refl, blocked)))
  ]

  nothing_waits :
      (started : ℕ → Bool) (ns : List Node) → waiting started ns ≡ 0 → AllBlocked started ns
  nothing_waits started [] e = tt
  nothing_waits started (n ∷ ns) e =
      (ground (arith, e), nothing_waits started ns (omega (arith, e)))

  -- The loop with enough fuel.
  pub run_lem :
      (fuel : ℕ) (p : Plan)
      → p.remaining ≤ fuel
      → Good nodes p
      → let p' = run fuel nodes p in Good nodes p' × AllBlocked p'.started nodes
  unfolding run
  run_lem zero p h g = (g, nothing_waits p.started nodes (omega (arith, g.left)))
  run_lem (suc fuel) p h g = elim (Bool-cases (p.remaining == 0)) [
    | inl z ↦ rw (z, run) (g, nothing_waits p.started nodes (ground (arith, z, g.left)))
    | inr z ↦
        let members = all-Members 0 nodes r in
        elim (Bool-cases (pass nodes p).1) [
          | inl e ↦
              let fewer = pass_progresses nodes p members g e in
              rw (z, e, run)
                (run_lem fuel (pass nodes p).0 (omega (arith, fewer)) (pass-Good nodes p members g))
          | inr e ↦
              let (same, blocked) = pass_blocked nodes p e in rw (z, e, run) (rw same (g, blocked))
        ]
  ]

  -- More fuel than there are modules to start gives the same plan.
  pub run_settled :
      (fuel fuel' : ℕ) (p : Plan)
      → p.remaining ≤ fuel
      → p.remaining ≤ fuel'
      → Good nodes p
      → run fuel nodes p ≡ run fuel' nodes p
  unfolding run
  run_settled zero zero p h h' g = refl
  run_settled zero (suc fuel') p h h' g =
      let none_left : p.remaining == 0 ≡ true = ground arith in rw (none_left, run) refl
  run_settled (suc fuel) zero p h h' g =
      let none_left : p.remaining == 0 ≡ true = ground arith in rw (none_left, run) refl
  run_settled (suc fuel) (suc fuel') p h h' g = elim (Bool-cases (p.remaining == 0)) [
    | inl z ↦ rw (z, run) refl
    | inr z ↦
        let members = all-Members 0 nodes r in
        elim (Bool-cases (pass nodes p).1) [
          | inr e ↦ rw (z, e, run) refl
          | inl e ↦
              let fewer = pass_progresses nodes p members g e in
              rw (z, e, run)
                (run_settled fuel fuel' (pass nodes p).0 (omega (arith, fewer))
                  (omega (arith, fewer)) (pass-Good nodes p members g))
        ]
  ]

pub count_fallback :
    (i b : ℕ) (started : ℕ → Bool) (nodes : List Node)
    → Rising b nodes
    → count i (fallback started nodes) ≡ bit (initializer i nodes && not (started i))
unfolding fallback
count_fallback i b started [] r = refl
count_fallback i b started (n ∷ nodes) r =
    let later = count_fallback i (suc n.index) started nodes r.1 in
    let low = initializer_low i (suc n.index) nodes r.1 in
    elim (Bool-cases (n.index == i)) [
      | inl q ↦
          let same : n.index ≡ i = ground (arith, q) in
          let flag : started n.index ≡ started i = ap started same in
          ground (arith, later, low, q, flag, same)
      | inr q ↦ ground (arith, later, q)
    ]
