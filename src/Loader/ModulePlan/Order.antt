-- ===== src/Loader/ModulePlan/Order.antt =====
-- The loops of BuildModuleStartPlan of src/loader/module_plan.cpp that put the modules in order, over
-- the modules with their dependencies.
use kaj_ps.Base.{
  ◌++◌, ℕ, zero, suc, ◌-◌, Bool, true, false, not, ◌&&◌, ◌||◌, List, [], ◌∷◌, ltb, ◌==◌,
  if◌then◌else◌,
}

pub record Node : Type 0 where
  pub index : ℕ
  pub has_initializer : Bool
  pub dependencies : List ℕ

-- `started`, `result.start_order` and `remaining` of the source.
pub record Plan : Type 0 where
  pub started : ℕ → Bool
  pub start_order : List ℕ
  pub remaining : ℕ

-- std::set::insert
unfoldable pub insert_index : ℕ → List ℕ → List ℕ
insert_index i [] = i ∷ []
insert_index i (k ∷ ks) =
    if ltb i k then i ∷ k ∷ ks else if k == i then k ∷ ks else k ∷ insert_index i ks

-- A write of true into a vector of flags.
abbrev pub mark : ℕ → (ℕ → Bool) → ℕ → Bool
mark i started k = (k == i) || started k

-- std::all_of over the dependencies.
abbrev pub all_started : (ℕ → Bool) → List ℕ → Bool
all_started started [] = true
all_started started (i ∷ is) = started i && all_started started is

abbrev pub start : ℕ → Plan → Plan
start i p = record {
  started = mark i p.started;
  start_order = p.start_order ++ (i ∷ []);
  remaining = p.remaining - 1;
}

abbrev pub can_start : (ℕ → Bool) → Node → Bool
can_start started n =
    n.has_initializer && not (started n.index) && all_started started n.dependencies

-- One turn of the while loop: the loop over the modules, and `progressed`.
unfoldable pub pass : List Node → Plan → Plan × Bool
pass [] p = (p, false)
pass (n ∷ nodes) p =
    let (started, _) = pass nodes (start n.index p) in
    let kept = pass nodes p in if can_start p.started n then (started, true) else kept

-- The while loop.
unfoldable pub run : ℕ → List Node → Plan → Plan
run zero nodes p = p
run (suc fuel) nodes p =
    let (next, progressed) = pass nodes p in
    let rest = run fuel nodes next in
    if p.remaining == 0 then p else if progressed then rest else next

-- The last loop: the modules that the while loop has not started.
unfoldable pub fallback : (ℕ → Bool) → List Node → List ℕ
fallback started [] = []
fallback started (n ∷ nodes) =
    let later = fallback started nodes in
    if n.has_initializer && not (started n.index) then n.index ∷ later else later
