-- ===== src/Loader/ModulePlan/Needs.antt =====
-- Which modules a module needs, read off the names alone, and what the two loops over the names in
-- BuildModuleStartPlan of src/loader/module_plan.cpp find.
use native.Mathlib.Nat.{zero-add}
use kaj_ps.Base.{
  ℕ, zero, suc, ◌+◌, ◌-◌, ◌≡◌, refl, sym, ap, subst, ◌∙◌, Bool, true, false, not, ◌&&◌, ◌||◌,
  Option, none, some, List, [], ◌∷◌, arith, ◌==◌, ltb, length, inl, inr, Bool-cases, Option-cases,
}
use kaj_ps.Base.Text.{Bytes, bytes_eq, bytes_eq_iff, is_empty}
use kaj_ps.Loader.ModulePlan.{
  ModuleDependencyInput, plan_ok, normalize_name, find_identity, add_identity, add_shared,
  collect_identities, has_initializer_at, contains_name, resolve_names, resolve_modules,
  maximum_planned_dependencies,
}
use kaj_ps.Loader.ModulePlan.Order.{insert_index}
use kaj_ps.Loader.ModulePlan.Start.{dependencies_of}

abbrev is_shared_name : Bytes → Option Bytes → Bool
is_shared_name name none = false
is_shared_name name (some shared) = not (is_empty shared) && bytes_eq (normalize_name shared) name

-- The normalised name is the file's or the shared object's.
abbrev is_name_of : Bytes → ModuleDependencyInput → Bool
is_name_of name m =
    bytes_eq (normalize_name m.file_name) name || is_shared_name name m.shared_object_name

-- The name is one of the module `j`, where the list starts with the module `index`.
abbrev pub is_named_from : ℕ → Bytes → ℕ → List ModuleDependencyInput → Bool
is_named_from index name j [] = false
is_named_from index name j (m ∷ modules) =
    (index == j) && is_name_of name m || is_named_from (suc index) name j modules

abbrev pub libraries_of : ℕ → List ModuleDependencyInput → List Bytes
libraries_of i [] = []
libraries_of zero (m ∷ modules) = m.needed_libraries
libraries_of (suc i) (m ∷ modules) = libraries_of i modules

-- One of the libraries is the module `j`.
abbrev pub has_library : List ModuleDependencyInput → ℕ → List Bytes → Bool
has_library modules j [] = false
has_library modules j (name ∷ names) =
    not (is_empty (normalize_name name)) && is_named_from 0 (normalize_name name) j modules
    || has_library modules j names

-- The module `i` needs the initialiser of another module, `j`.
abbrev pub requires : List ModuleDependencyInput → ℕ → ℕ → Bool
requires modules i j =
    not (j == i) && has_initializer_at j modules && has_library modules j (libraries_of i modules)

abbrev pub contains : ℕ → List ℕ → Bool
contains j [] = false
contains j (k ∷ ks) = (k == j) || contains j ks

abbrev found_as : ℕ → Option ℕ → Bool
found_as j none = false
found_as j (some found) = found == j

contains-insert_index :
    (j i : ℕ) (ks : List ℕ) → contains j (insert_index i ks) ≡ (i == j) || contains j ks
unfolding insert_index
contains-insert_index j i [] = refl
contains-insert_index j i (k ∷ ks) = ground (arith, contains-insert_index j i ks)

-- A name that is added is found as the module's, and every other name as before.
add_identity_lem :
    (identities : List (Bytes × ℕ)) (name n : Bytes) (index j : ℕ)
    → (add_identity identities name index).1 ≡ true
    → found_as j (find_identity n (add_identity identities name index).0)
      ≡ (index == j) && bytes_eq (normalize_name name) n || found_as j (find_identity n identities)
unfolding add_identity find_identity
add_identity_lem identities name n index j = elim (Bool-cases (is_empty (normalize_name name))) [
  | inl e ↦ rw (e, add_identity) (λ h. absurd cc)
  | inr e ↦ elim (Bool-cases (bytes_eq (normalize_name name) n)) [
    | inr other ↦ elim (Option-cases (find_identity (normalize_name name) identities)) [
      | inl f ↦ rw (e, f, add_identity) (λ h. rw (other, find_identity) (ground arith))
      | inr (k, f) ↦ rw (e, f, other, add_identity) (λ h. ground arith)
    ]
    | inl same ↦
        let here : normalize_name name ≡ n = (bytes_eq_iff (normalize_name name) n).0 same in
        elim (Option-cases (find_identity (normalize_name name) identities)) [
          | inl f ↦
              let missing : find_identity n identities ≡ none =
                ap (λ x. find_identity x identities) (sym here) ∙ f in
              rw (e, f, add_identity) (λ h. rw (same, find_identity) (ground (arith, missing)))
          | inr (k, f) ↦
              let there : find_identity n identities ≡ some k =
                ap (λ x. find_identity x identities) (sym here) ∙ f in
              rw (e, f, same, add_identity) (λ h. ground (arith, h, there))
        ]
  ]
]

add_shared_lem :
    (identities : List (Bytes × ℕ)) (shared : Option Bytes) (n : Bytes) (index j : ℕ)
    → (add_shared identities shared index).1 ≡ true
    → found_as j (find_identity n (add_shared identities shared index).0)
      ≡ (index == j) && is_shared_name n shared || found_as j (find_identity n identities)
add_shared_lem identities none n index j = λ h. ground arith
add_shared_lem identities (some name) n index j = elim (Bool-cases (is_empty name)) [
  | inl e ↦ rw e (λ h. ground arith)
  | inr e ↦ rw e (λ h. add_identity_lem identities name n index j h)
]

-- Where the first loop succeeds, the names are found that the modules have, and no other.
pub collect_identities_lem :
    (index count : ℕ) (identities : List (Bytes × ℕ)) (modules : List ModuleDependencyInput)
    (n : Bytes) (j : ℕ)
    → (collect_identities index count identities modules).1 ≡ plan_ok
    → found_as j (find_identity n (collect_identities index count identities modules).0)
      ≡ is_named_from index n j modules || found_as j (find_identity n identities)
unfolding collect_identities
collect_identities_lem index count identities [] n j = λ h. refl
collect_identities_lem index count identities (m ∷ modules) n j =
    let (named, is_new) = add_identity identities m.file_name index in
    let (shared, is_new') = add_shared named m.shared_object_name index in
    let many = ltb (maximum_planned_dependencies - count) (length m.needed_libraries) in
    elim (Bool-cases (is_empty (normalize_name m.file_name))) [
      | inl e ↦ rw e (λ h. absurd cc)
      | inr e ↦ elim (Bool-cases is_new) [
        | inr a ↦ rw (e, a) (λ h. absurd cc)
        | inl a ↦ elim (Bool-cases is_new') [
          | inr b ↦ rw (e, a, b) (λ h. absurd cc)
          | inl b ↦ elim (Bool-cases many) [
            | inl x ↦ rw (e, a, b, x) (λ h. absurd cc)
            | inr x ↦
                let first = add_identity_lem identities m.file_name n index j a in
                let second = add_shared_lem named m.shared_object_name n index j b in
                let rest =
                  collect_identities_lem (suc index) (count + length m.needed_libraries) shared
                    modules n j in
                rw (e, a, b, x) (λ h. rest h ∙ ground (arith, first, second))
          ]
        ]
      ]
    ]

has_found : List (Bytes × ℕ) → ℕ → List Bytes → Bool
has_found identities j [] = false
has_found identities j (name ∷ names) =
    not (is_empty (normalize_name name))
      && found_as j (find_identity (normalize_name name) identities)
    || has_found identities j names

-- The dependencies of a module are the modules found by its libraries' names, but for itself and
-- those without an initialiser.
contains-resolve_names :
    (modules : List ModuleDependencyInput) (identities : List (Bytes × ℕ)) (index j : ℕ)
    (missing names : List Bytes)
    → contains j (resolve_names modules identities index missing names).0
      ≡ not (j == index) && has_initializer_at j modules && has_found identities j names
unfolding resolve_names has_found
contains-resolve_names modules identities index j missing [] = ground arith
contains-resolve_names modules identities index j missing (name ∷ names) =
    let normalized = normalize_name name in
    let rest = contains-resolve_names modules identities index j missing names in
    let rest' = contains-resolve_names modules identities index j (normalized ∷ missing) names in
    elim (Bool-cases (is_empty normalized)) [
      | inl e ↦ rw e rest
      | inr e ↦ elim (Option-cases (find_identity normalized identities)) [
        | inl f ↦ elim (Bool-cases (contains_name normalized missing)) [
          | inl c ↦ rw (e, f, c) rest
          | inr c ↦ rw (e, f, c) rest'
        ]
        | inr (found, f) ↦
            let others = (resolve_names modules identities index missing names).0 in
            let inserted = contains-insert_index j found others in
            elim (Bool-cases (found == j)) [
              | inl q ↦
                  let same : found ≡ j = ground (arith, q) in
                  let starts : has_initializer_at found modules ≡ has_initializer_at j modules =
                    ap (λ (k : ℕ). has_initializer_at k modules) same in
                  rw (e, f) (ground (arith, rest, inserted, q, same, starts))
              | inr q ↦ rw (e, f) (ground (arith, rest, inserted, q))
            ]
      ]
    ]

has_found_lem :
    (modules : List ModuleDependencyInput) (j : ℕ) (names : List Bytes)
    → (collect_identities 0 0 [] modules).1 ≡ plan_ok
    → has_found (collect_identities 0 0 [] modules).0 j names ≡ has_library modules j names
unfolding has_found find_identity
has_found_lem modules j [] ok = refl
has_found_lem modules j (name ∷ names) ok =
    let rest = has_found_lem modules j names ok in
    let found = collect_identities_lem 0 0 [] modules (normalize_name name) j ok in
    ground (arith, rest, found)

dependencies_of-resolve_modules :
    (all : List ModuleDependencyInput) (identities : List (Bytes × ℕ)) (index i : ℕ)
    (modules : List ModuleDependencyInput)
    → dependencies_of (index + i) (resolve_modules all identities index modules).0
      ≡ (resolve_names all identities (index + i) [] (libraries_of i modules)).0
unfolding resolve_modules
dependencies_of-resolve_modules all identities index i [] = unfold resolve_names in refl
dependencies_of-resolve_modules all identities index zero (m ∷ modules) =
    let here : index == index + 0 ≡ true = ground arith in
    let same : index ≡ index + 0 = omega arith in
    rw here (ap (λ (k : ℕ). (resolve_names all identities k [] m.needed_libraries).0) same)
dependencies_of-resolve_modules all identities index (suc i) (m ∷ modules) =
    let other : index == index + suc i ≡ false = ground arith in
    let shift : suc index + i ≡ index + suc i = omega arith in
    rw other (
      subst
        (λ k.
          dependencies_of k (resolve_modules all identities (suc index) modules).0
          ≡ (resolve_names all identities k [] (libraries_of i modules)).0)
        shift (dependencies_of-resolve_modules all identities (suc index) i modules))

-- The loops give each module the dependencies that its names require.
pub contains-dependencies :
    (modules : List ModuleDependencyInput) (i j : ℕ)
    → (collect_identities 0 0 [] modules).1 ≡ plan_ok
    → let nodes = (resolve_modules modules (collect_identities 0 0 [] modules).0 0 modules).0 in
      contains j (dependencies_of i nodes) ≡ requires modules i j
contains-dependencies modules i j ok =
    let identities = (collect_identities 0 0 [] modules).0 in
    let nodes = (resolve_modules modules identities 0 modules).0 in
    let libraries = libraries_of i modules in
    let found : dependencies_of i nodes ≡ (resolve_names modules identities i [] libraries).0 =
      subst (λ k. dependencies_of k nodes ≡ (resolve_names modules identities k [] libraries).0)
        (zero-add i) (dependencies_of-resolve_modules modules identities 0 i modules) in
    ap (contains j) found
    ∙ contains-resolve_names modules identities i j [] libraries
    ∙ ap (λ (b : Bool). not (j == i) && has_initializer_at j modules && b)
        (has_found_lem modules j libraries ok)
