-- ===== src/Loader/ModulePlan.antt =====
-- src/loader/module_plan.h and src/loader/module_plan.cpp: the order in which the modules of a program
-- start. Names are lists of codes.
pub mod Order
pub mod Start
pub mod Runs
pub mod Needs
pub mod Ordered
pub mod Plans
use kaj_ps.Base.{
  ◌++◌, ℕ, zero, suc, ◌+◌, ◌-◌, Bool, true, false, not, ◌&&◌, ◌||◌, Option, none, some, List, [],
  ◌∷◌, ltb, leb, ◌==◌, if◌then◌else◌, bit, length,
}
use kaj_ps.Base.Text.{Bytes, bytes_eq, is_empty}
use kaj_ps.Loader.ModulePlan.Order.{Node, Plan, run, fallback, insert_index}

abbrev pub maximum_planned_modules : ℕ
maximum_planned_modules = 4096

abbrev pub maximum_planned_dependencies : ℕ
maximum_planned_dependencies = 65536

pub data ModulePlanStatus : Type 0 where
  plan_ok invalid_module_name duplicate_module_identity limit_exceeded : ModulePlanStatus

pub record ModuleDependencyInput : Type 0 where
  pub file_name : Bytes
  pub shared_object_name : Option Bytes
  pub needed_libraries : List Bytes
  pub has_initializer : Bool

pub record ModuleStartPlanResult : Type 0 where
  pub status : ModulePlanStatus
  pub start_order : List ℕ
  pub missing_dependencies : List (ℕ × Bytes)
  pub fallback_start_count : ℕ

-- '/' or '\'
abbrev pub is_path_separator : ℕ → Bool
is_path_separator c = (c == 0x2F) || (c == 0x5C)

abbrev pub has_path_separator : Bytes → Bool
has_path_separator [] = false
has_path_separator (c ∷ s) = is_path_separator c || has_path_separator s

-- BaseName
unfoldable pub base_name : Bytes → Bytes
base_name [] = []
base_name (c ∷ s) =
    let behind = base_name s in
    if has_path_separator s then behind else if is_path_separator c then s else c ∷ s

-- 'A' to 'Z' become small letters.
abbrev pub fold_character : ℕ → ℕ
fold_character c = if leb 0x41 c && leb c 0x5A then c + 0x20 else c

abbrev pub fold_characters : Bytes → Bytes
fold_characters [] = []
fold_characters (c ∷ s) = fold_character c ∷ fold_characters s

-- NormalizeName
unfoldable pub normalize_name : Bytes → Bytes
normalize_name value = fold_characters (base_name value)

unfoldable pub find_identity : Bytes → List (Bytes × ℕ) → Option ℕ
find_identity name [] = none
find_identity name ((n, index) ∷ identities) =
    let later = find_identity name identities in if bytes_eq n name then some index else later

-- AddIdentity
unfoldable pub add_identity : List (Bytes × ℕ) → Bytes → ℕ → List (Bytes × ℕ) × Bool
add_identity identities name index =
    let normalized = normalize_name name in
    if is_empty normalized
    then (identities, false)
    else elim (find_identity normalized identities) [
      | none ↦ ((normalized, index) ∷ identities, true)
      | some found ↦ (identities, found == index)
    ]

-- AddIdentity of the shared object's name, where there is one that is not empty.
abbrev pub add_shared : List (Bytes × ℕ) → Option Bytes → ℕ → List (Bytes × ℕ) × Bool
add_shared identities none index = (identities, true)
add_shared identities (some name) index =
    if is_empty name then (identities, true) else add_identity identities name index

-- The first loop of BuildModuleStartPlan: the names of the modules, or the status it stops with.
unfoldable pub collect_identities :
    ℕ → ℕ → List (Bytes × ℕ) → List ModuleDependencyInput → List (Bytes × ℕ) × ModulePlanStatus
collect_identities index dependency_count identities [] = (identities, plan_ok)
collect_identities index dependency_count identities (m ∷ modules) =
    let (named, is_new) = add_identity identities m.file_name index in
    let (shared, is_new') = add_shared named m.shared_object_name index in
    let rest =
      collect_identities (suc index) (dependency_count + length m.needed_libraries) shared
        modules in
    if is_empty (normalize_name m.file_name)
    then (identities, invalid_module_name)
    else if not is_new || not is_new'
    then (shared, duplicate_module_identity)
    else if ltb (maximum_planned_dependencies - dependency_count) (length m.needed_libraries)
    then (shared, limit_exceeded)
    else rest

abbrev pub has_initializer_at : ℕ → List ModuleDependencyInput → Bool
has_initializer_at i [] = false
has_initializer_at zero (m ∷ modules) = m.has_initializer
has_initializer_at (suc i) (m ∷ modules) = has_initializer_at i modules

abbrev pub contains_name : Bytes → List Bytes → Bool
contains_name name [] = false
contains_name name (n ∷ names) = bytes_eq n name || contains_name name names

-- The inner loop over the needed libraries of the module `index`: its dependencies and the libraries
-- that are missing.
unfoldable pub resolve_names :
    List ModuleDependencyInput
    → List (Bytes × ℕ)
    → ℕ
    → List Bytes
    → List Bytes
    → List ℕ × List (ℕ × Bytes)
resolve_names modules identities index missing_names [] = ([], [])
resolve_names modules identities index missing_names (name ∷ names) =
    let normalized = normalize_name name in
    let (needed, missing) = resolve_names modules identities index missing_names names in
    let (needed', missing') =
      resolve_names modules identities index (normalized ∷ missing_names) names in
    if is_empty normalized then (needed, missing) else elim (find_identity normalized identities) [
      | none ↦
          if contains_name normalized missing_names
          then (needed, missing)
          else (needed', (index, name) ∷ missing')
      | some found ↦
          if not (found == index) && has_initializer_at found modules
          then (insert_index found needed, missing)
          else (needed, missing)
    ]

-- The second loop: each module with its dependencies, and all missing libraries.
unfoldable pub resolve_modules :
    List ModuleDependencyInput
    → List (Bytes × ℕ)
    → ℕ
    → List ModuleDependencyInput
    → List Node × List (ℕ × Bytes)
resolve_modules all identities index [] = ([], [])
resolve_modules all identities index (m ∷ modules) =
    let (needed, missing) = resolve_names all identities index [] m.needed_libraries in
    let (nodes, missing') = resolve_modules all identities (suc index) modules in
    (
      record { index = index; has_initializer = m.has_initializer; dependencies = needed } ∷ nodes,
      missing ++ missing',
    )

abbrev pub count_initializers : List ModuleDependencyInput → ℕ
count_initializers [] = 0
count_initializers (m ∷ modules) = bit m.has_initializer + count_initializers modules

abbrev pub failed_plan : ModulePlanStatus → ModuleStartPlanResult
failed_plan status = record {
  status = status;
  start_order = [];
  missing_dependencies = [];
  fallback_start_count = 0;
}

-- The rest of BuildModuleStartPlan, where the names are collected. The fuel of the loop is the count
-- of the modules to start.
abbrev pub plan_starts : List ModuleDependencyInput → List (Bytes × ℕ) → ModuleStartPlanResult
plan_starts modules identities =
    let (nodes, missing) = resolve_modules modules identities 0 modules in
    let count = count_initializers modules in
    let plan =
      run count nodes (record { started = λ i. false; start_order = []; remaining = count }) in
    let late = fallback plan.started nodes in
    record {
      status = plan_ok;
      start_order = plan.start_order ++ late;
      missing_dependencies = missing;
      fallback_start_count = length late;
    }

abbrev pub by_status :
    List ModuleDependencyInput → List (Bytes × ℕ) → ModulePlanStatus → ModuleStartPlanResult
by_status modules identities plan_ok = plan_starts modules identities
by_status modules identities invalid_module_name = failed_plan invalid_module_name
by_status modules identities duplicate_module_identity = failed_plan duplicate_module_identity
by_status modules identities limit_exceeded = failed_plan limit_exceeded

-- BuildModuleStartPlan
unfoldable pub build_module_start_plan : List ModuleDependencyInput → ModuleStartPlanResult
build_module_start_plan modules =
    let (identities, status) = collect_identities 0 0 [] modules in
    if ltb maximum_planned_modules (length modules)
    then failed_plan limit_exceeded
    else by_status modules identities status
