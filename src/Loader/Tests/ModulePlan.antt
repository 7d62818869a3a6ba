-- ===== src/Loader/Tests/ModulePlan.antt =====
-- Start plans at concrete inputs.
use kaj_ps.Base.{ℕ, ◌++◌, ◌≡◌, refl, arith, none, List, [], ◌∷◌, count, bit, true, length}
use kaj_ps.Base.Text.{codes, bytes_eq}
use kaj_ps.Loader.ModulePlan.{
  ModuleDependencyInput, build_module_start_plan, collect_identities, resolve_modules, plan_ok,
  has_initializer_at, count_initializers, resolve_names, add_identity, find_identity,
  normalize_name, base_name,
}
use kaj_ps.Loader.ModulePlan.Order.{run, pass, fallback, insert_index}
use kaj_ps.Loader.ModulePlan.Start.{none_started, marks}
use kaj_ps.Loader.ModulePlan.Needs.{requires}
use kaj_ps.Loader.ModulePlan.Ordered.{Ordered, IsServed}
use kaj_ps.Loader.ModulePlan.Plans.{starts_once, dependencies_first, plan_settled, first_plan}

-- The program needs a library that comes behind it; two further libraries need each other.
abbrev program : List ModuleDependencyInput
program =
    record {
      file_name = codes "app/eboot.bin";
      shared_object_name = none;
      needed_libraries = codes "LibC.prx" ∷ codes "gone.prx" ∷ [];
      has_initializer = true;
    }
    ∷ record {
      file_name = codes "libc.prx";
      shared_object_name = none;
      needed_libraries = [];
      has_initializer = true;
    }
    ∷ record {
      file_name = codes "a.prx";
      shared_object_name = none;
      needed_libraries = codes "b.prx" ∷ [];
      has_initializer = true;
    }
    ∷ record {
      file_name = codes "b.prx";
      shared_object_name = none;
      needed_libraries = codes "a.prx" ∷ [];
      has_initializer = true;
    }
    ∷ []

program_plan : (build_module_start_plan program).start_order ≡ 1 ∷ 0 ∷ 2 ∷ 3 ∷ []
unfolding build_module_start_plan collect_identities resolve_modules resolve_names add_identity
    find_identity normalize_name base_name bytes_eq insert_index run pass fallback
program_plan = refl

program_ok : (build_module_start_plan program).status ≡ plan_ok
unfolding build_module_start_plan collect_identities add_identity find_identity normalize_name
    base_name bytes_eq
program_ok = refl

needs_library : requires program 0 1 ≡ true
unfolding normalize_name base_name bytes_eq
needs_library = refl

starts_once_example :
    count 2 (build_module_start_plan program).start_order ≡ bit (has_initializer_at 2 program)
starts_once_example = starts_once program 2 program_ok

dependencies_first_example :
    let plan = build_module_start_plan program in
    (early : List ℕ) × (late : List ℕ) × (plan.start_order ≡ early ++ late)
    × (plan.fallback_start_count ≡ length late)
    × Ordered program none_started early
    × ((i : ℕ) → IsServed program (marks early none_started) i)
dependencies_first_example = dependencies_first program program_ok

plan_settled_example :
    let nodes = (resolve_modules program [] 0 program).0 in
    run 10 nodes (first_plan program) ≡ run (count_initializers program) nodes (first_plan program)
plan_settled_example = plan_settled program [] 10 (omega arith)
