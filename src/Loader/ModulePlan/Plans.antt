-- ===== src/Loader/ModulePlan/Plans.antt =====
-- The plan that BuildModuleStartPlan of src/loader/module_plan.cpp returns.
use kaj_ps.Base.{
  ◌++◌, ℕ, zero, suc, ◌+◌, ◌≤◌, ◌≡◌, refl, sym, ap, ◌∙◌, Bool, true, false, List, [], ◌∷◌, arith,
  ltb, ◌==◌, bit, length, count, inl, inr, Bool-cases, count-append,
}
use kaj_ps.Base.Text.{Bytes}
use kaj_ps.Loader.ModulePlan.{
  ModuleDependencyInput, ModulePlanStatus, plan_ok, invalid_module_name, duplicate_module_identity,
  limit_exceeded, ModuleStartPlanResult, maximum_planned_modules, collect_identities,
  resolve_modules, has_initializer_at, count_initializers, plan_starts, by_status,
  build_module_start_plan,
}
use kaj_ps.Loader.ModulePlan.Order.{Node, Plan, run, fallback}
use kaj_ps.Loader.ModulePlan.Start.{
  Rising, initializer, waiting, Good, none_started, marks, all_started-same, initializer_low,
}
use kaj_ps.Loader.ModulePlan.Needs.{contains-dependencies}
use kaj_ps.Loader.ModulePlan.Ordered.{Ordered, IsServed, WellOrdered-Ordered, AllBlocked-IsServed}
use kaj_ps.Loader.ModulePlan.Runs.{AllBlocked, run_lem, run_settled, count_fallback}

module _ (all : List ModuleDependencyInput) (identities : List (Bytes × ℕ)) where
  nodes-Rising :
      (index : ℕ) (modules : List ModuleDependencyInput)
      → Rising index (resolve_modules all identities index modules).0
  unfolding resolve_modules
  nodes-Rising index [] = tt
  nodes-Rising index (m ∷ modules) = (omega arith, nodes-Rising (suc index) modules)

  nodes_initializer :
      (i index : ℕ) (modules : List ModuleDependencyInput)
      → initializer (index + i) (resolve_modules all identities index modules).0
        ≡ has_initializer_at i modules
  unfolding resolve_modules
  nodes_initializer i index [] = refl
  nodes_initializer zero index (m ∷ modules) =
      let here : index == index + 0 ≡ true = ground arith in
      let low =
        initializer_low (index + 0) (suc index)
          (resolve_modules all identities (suc index) modules).0 (nodes-Rising (suc index) modules)
          (omega arith) in
      rw here (ground (arith, low))
  nodes_initializer (suc i) index (m ∷ modules) =
      let other : index == index + suc i ≡ false = ground arith in
      let shift : index + suc i ≡ suc index + i = omega arith in
      rw other (
        ap (λ (k : ℕ). initializer k (resolve_modules all identities (suc index) modules).0) shift
        ∙ nodes_initializer i (suc index) modules)

  nodes_waiting :
      (index : ℕ) (modules : List ModuleDependencyInput)
      → waiting none_started (resolve_modules all identities index modules).0
        ≡ count_initializers modules
  unfolding resolve_modules
  nodes_waiting index [] = refl
  nodes_waiting index (m ∷ modules) = ground (arith, nodes_waiting (suc index) modules)

-- The state before the loop.
abbrev pub first_plan : List ModuleDependencyInput → Plan
first_plan modules = record {
  started = λ i. false;
  start_order = [];
  remaining = count_initializers modules;
}

first_plan-Good :
    (identities : List (Bytes × ℕ)) (modules : List ModuleDependencyInput)
    → Good (resolve_modules modules identities 0 modules).0 (first_plan modules)
first_plan-Good identities modules = record {
  counts = λ i. refl;
  only = λ i. refl;
  left = sym (nodes_waiting modules identities 0 modules);
  flags = λ i. refl;
  ordered = tt;
}

status_ok :
    (modules : List ModuleDependencyInput) (identities : List (Bytes × ℕ))
    (status : ModulePlanStatus)
    → (by_status modules identities status).status ≡ plan_ok
    → by_status modules identities status ≡ plan_starts modules identities
status_ok modules identities plan_ok e = refl
status_ok modules identities invalid_module_name e = absurd cc
status_ok modules identities duplicate_module_identity e = absurd cc
status_ok modules identities limit_exceeded e = absurd cc

built :
    (modules : List ModuleDependencyInput)
    → (build_module_start_plan modules).status ≡ plan_ok
    → build_module_start_plan modules ≡ plan_starts modules (collect_identities 0 0 [] modules).0
unfolding build_module_start_plan
built modules = elim (Bool-cases (ltb maximum_planned_modules (length modules))) [
  | inl b ↦ rw b (λ e. absurd cc)
  | inr b ↦
      let (identities, status) = collect_identities 0 0 [] modules in
      rw b (status_ok modules identities status)
]

initializers :
    (modules : List ModuleDependencyInput) (identities : List (Bytes × ℕ)) (i : ℕ)
    → initializer i (resolve_modules modules identities 0 modules).0 ≡ has_initializer_at i modules
initializers modules identities i =
    ap (λ (k : ℕ). initializer k (resolve_modules modules identities 0 modules).0) (omega arith)
    ∙ nodes_initializer modules identities i 0 modules

-- A plan starts each module that has an initialiser exactly once, and no other module.
pub starts_once :
    (modules : List ModuleDependencyInput) (i : ℕ)
    → (build_module_start_plan modules).status ≡ plan_ok
    → count i (build_module_start_plan modules).start_order ≡ bit (has_initializer_at i modules)
starts_once modules i e =
    let identities = (collect_identities 0 0 [] modules).0 in
    let nodes = (resolve_modules modules identities 0 modules).0 in
    let rising = nodes-Rising modules identities 0 modules in
    let fuel = count_initializers modules in
    let (g, _) =
      run_lem nodes rising fuel (first_plan modules) (omega arith)
        (first_plan-Good identities modules) in
    let plan = run fuel nodes (first_plan modules) in
    let late = count_fallback i 0 plan.started nodes rising in
    let who = initializers modules identities i in
    rw (built modules e) (
      count-append i plan.start_order (fallback plan.started nodes)
      ∙ ground (arith, g.counts i, g.only i, late, who))

blocked_same :
    (f g : ℕ → Bool) (nodes : List Node)
    → ((i : ℕ) → f i ≡ g i)
    → AllBlocked f nodes
    → AllBlocked g nodes
blocked_same f g [] h b = tt
blocked_same f g (n ∷ nodes) h b = (
  sym (ground (arith, h n.index, all_started-same f g n.dependencies h)) ∙ b.0,
  blocked_same f g nodes h b.1,
)

names_ok :
    (modules : List ModuleDependencyInput)
    → (build_module_start_plan modules).status ≡ plan_ok
    → (collect_identities 0 0 [] modules).1 ≡ plan_ok
unfolding build_module_start_plan
names_ok modules = elim (Bool-cases (ltb maximum_planned_modules (length modules))) [
  | inl b ↦ rw b (λ e. absurd cc)
  | inr b ↦
      let (identities, status) = collect_identities 0 0 [] modules in
      rw b (planned modules identities status)
]
  where
    planned :
        (modules : List ModuleDependencyInput) (identities : List (Bytes × ℕ))
        (status : ModulePlanStatus)
        → (by_status modules identities status).status ≡ plan_ok
        → status ≡ plan_ok
    planned modules identities plan_ok e = refl
    planned modules identities invalid_module_name e = absurd cc
    planned modules identities duplicate_module_identity e = absurd cc
    planned modules identities limit_exceeded e = absurd cc

-- The order of a plan has two parts. In the first, each module comes after every other module that
-- has an initialiser and of which it needs a library, by the file's or the shared object's name. The
-- second holds the modules that the plan counts as fallback starts: each module that has an
-- initialiser and does not stand in the first part needs such a module that does not stand there
-- either.
pub dependencies_first :
    (modules : List ModuleDependencyInput)
    → (build_module_start_plan modules).status ≡ plan_ok
    → let plan = build_module_start_plan modules in
      (early : List ℕ) × (late : List ℕ) × (plan.start_order ≡ early ++ late)
      × (plan.fallback_start_count ≡ length late)
      × Ordered modules none_started early
      × ((i : ℕ) → IsServed modules (marks early none_started) i)
dependencies_first modules e =
    let identities = (collect_identities 0 0 [] modules).0 in
    let nodes = (resolve_modules modules identities 0 modules).0 in
    let rising = nodes-Rising modules identities 0 modules in
    let fuel = count_initializers modules in
    let (g, blocked) =
      run_lem nodes rising fuel (first_plan modules) (omega arith)
        (first_plan-Good identities modules) in
    let plan = run fuel nodes (first_plan modules) in
    let stuck =
      blocked_same plan.started (marks plan.start_order none_started) nodes g.flags blocked in
    let needed = λ (i j : ℕ). contains-dependencies modules i j (names_ok modules e) in
    (
      plan.start_order,
      fallback plan.started nodes,
      ap (λ (r : ModuleStartPlanResult). r.start_order) (built modules e),
      ap (λ (r : ModuleStartPlanResult). r.fallback_start_count) (built modules e),
      WellOrdered-Ordered modules nodes needed none_started plan.start_order g.ordered,
      λ i.
          AllBlocked-IsServed modules nodes needed (marks plan.start_order none_started) i rising
            (initializers modules identities i) stuck,
    )

-- The count of the modules to start is fuel enough for the loop that orders them: more fuel gives the
-- same plan.
pub plan_settled :
    (modules : List ModuleDependencyInput) (identities : List (Bytes × ℕ)) (fuel : ℕ)
    → count_initializers modules ≤ fuel
    → let nodes = (resolve_modules modules identities 0 modules).0 in
      run fuel nodes (first_plan modules)
      ≡ run (count_initializers modules) nodes (first_plan modules)
plan_settled modules identities fuel h =
    run_settled (resolve_modules modules identities 0 modules).0
      (nodes-Rising modules identities 0 modules) fuel (count_initializers modules)
      (first_plan modules) h (omega arith) (first_plan-Good identities modules)
