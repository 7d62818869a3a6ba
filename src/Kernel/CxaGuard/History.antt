-- ===== src/Kernel/CxaGuard/History.antt =====
-- Acquire and Complete of CxaGuardService of src/kernel/cxa_guard.cpp in any order, by any threads.
use kaj_ps.Base.{
  ℕ, ◌≡◌, ◌≢◌, ◌∙◌, ap, subst, refl, Bool, true, false, not, ◌&&◌, Option, none, some, List, [],
  ◌∷◌, arith, ◌==◌, if◌then◌else◌, inl, inr, Bool-cases,
}
use kaj_ps.Base.Assoc
use kaj_ps.Kernel.Scheduler.Machine.{Machine}
use kaj_ps.Kernel.CxaGuard.{
  Guards, acquire, acquire_for, acquire_from, wait_for_owner, complete, complete_for, complete_from,
}

-- A call of the service, or whatever happens to the threads between two calls: another machine, in
-- which another thread may run.
pub data Call : Type 0 where
  acquires : ℕ → Bool → Call
  completes : (now address : ℕ) → Call
  elsewhere : Machine → Call

unfoldable pub perform : Call → Guards → Guards
perform (acquires address initialized) g = (acquire address initialized g).0
perform (completes now address) g = (complete now address g).0
perform (elsewhere m) g = record g { machine = m }

unfoldable pub perform_all : List Call → Guards → Guards
perform_all [] g = g
perform_all (c ∷ cs) g = perform_all cs (perform c g)

-- The call tells its thread to initialise what the guard at the address stands for.
abbrev pub starts : ℕ → Call → Guards → Bool
starts a (acquires address initialized) g = (address == a) && (acquire address initialized g).2
starts a (completes now address) g = false
starts a (elsewhere m) g = false

abbrev same_thread : Option ℕ → Option ℕ → Bool
same_thread none who = false
same_thread (some c) none = false
same_thread (some c) (some o) = o == c

-- The thread that initialises behind the call, if `who` did before it: one that is told to do so
-- starts, and Release or Abort by the same thread ends.
abbrev pub initializer_after : ℕ → Option ℕ → Call → Guards → Option ℕ
initializer_after a who (acquires address initialized) g =
    if starts a (acquires address initialized) g then g.machine.scheduler.current_thread else who
initializer_after a who (completes now address) g =
    if (address == a) && same_thread g.machine.scheduler.current_thread who then none else who
initializer_after a who (elsewhere m) g = who

unfoldable pub last_initializer : ℕ → Option ℕ → List Call → Guards → Option ℕ
last_initializer a who [] g = who
last_initializer a who (c ∷ cs) g =
    last_initializer a (initializer_after a who c g) cs (perform c g)

-- No call tells a thread to initialise while one does.
unfoldable pub is_exclusive : ℕ → Option ℕ → List Call → Guards → Bool
is_exclusive a who [] g = true
is_exclusive a who (c ∷ cs) g =
    not (starts a c g && Assoc.is_some who)
    && is_exclusive a (initializer_after a who c g) cs (perform c g)

abbrev owner : ℕ → Guards → Option ℕ
owner a g = Assoc.find a g.owners

waiting_lem :
    (a address : ℕ) (g : Guards)
    → ((wait_for_owner address g).2 ≡ false) × (owner a (wait_for_owner address g).0 ≡ owner a g)
waiting_lem a address g = ground arith

acquire_from_lem :
    (a address c : ℕ) (found : Option ℕ) (g : Guards)
    → Assoc.find address g.owners ≡ found
    → let (g', _, started) = acquire_from address c found g in
      ((address == a) && started && Assoc.is_some (owner a g) ≡ false)
      × (owner a g' ≡ (if (address == a) && started then some c else owner a g))
acquire_from_lem a address c none g e = elim (Bool-cases (address == a)) [
  | inl q ↦
      let same : address ≡ a = ground (arith, q) in
      let free : owner a g ≡ none = subst (λ k. owner k g ≡ none) same e in
      ground (arith, q, Assoc.find-emplace a address c g.owners e, free)
  | inr q ↦ ground (arith, q, Assoc.find-emplace a address c g.owners e)
]
acquire_from_lem a address c (some o) g e = elim (Bool-cases (o == c)) [
  | inl q ↦ rw q (ground arith)
  | inr q ↦ rw q (ground (arith, waiting_lem a address g))
]

acquire_for_lem :
    (a address : ℕ) (initialized : Bool) (current : Option ℕ) (g : Guards)
    → let (g', _, started) = acquire_for address initialized current g in
      ((address == a) && started && Assoc.is_some (owner a g) ≡ false)
      × (owner a g' ≡ (if (address == a) && started then current else owner a g))
acquire_for_lem a address initialized none g = ground arith
acquire_for_lem a address true (some c) g = ground arith
acquire_for_lem a address false (some c) g =
    acquire_from_lem a address c (Assoc.find address g.owners) g refl

acquire_lem :
    (a address : ℕ) (initialized : Bool) (g : Guards)
    → let (g', _, started) = acquire address initialized g in
      ((address == a) && started && Assoc.is_some (owner a g) ≡ false)
      × (owner a g'
          ≡ (if (address == a) && started then g.machine.scheduler.current_thread else owner a g))
unfolding acquire
acquire_lem a address initialized g = elim (Bool-cases (address == 0)) [
  | inl z ↦ rw z (ground arith)
  | inr z ↦ rw z (acquire_for_lem a address initialized g.machine.scheduler.current_thread g)
]

complete_from_lem :
    (now a address c : ℕ) (found : Option ℕ) (g : Guards)
    → Assoc.find address g.owners ≡ found
    → owner a (complete_from now address c found g).0
      ≡ (if (address == a) && same_thread (some c) found then none else owner a g)
complete_from_lem now a address c none g e = ground arith
complete_from_lem now a address c (some o) g e = elim (Bool-cases (o == c)) [
  | inr q ↦ rw q (ground arith)
  | inl q ↦ rw q (ground (arith, Assoc.find-erase a address g.owners))
]

complete_for_lem :
    (now a address : ℕ) (current : Option ℕ) (g : Guards)
    → owner a (complete_for now address current g).0
      ≡ (if (address == a) && same_thread current (owner a g) then none else owner a g)
complete_for_lem now a address none g = ground arith
complete_for_lem now a address (some c) g =
    let step = complete_from_lem now a address c (Assoc.find address g.owners) g refl in
    elim (Bool-cases (address == a)) [
      | inr other ↦ rw other (step ∙ rw other refl)
      | inl same ↦
          step
          ∙ ap
              (λ (k : ℕ).
                if (address == a) && same_thread (some c) (owner k g) then none else owner a g)
              (ground (arith, same))
    ]

complete_lem :
    (now a address : ℕ) (g : Guards)
    → a ≢ 0
    → owner a (complete now address g).0 ≡ (
        if (address == a) && same_thread g.machine.scheduler.current_thread (owner a g)
        then none
        else owner a g)
unfolding complete
complete_lem now a address g valid = elim (Bool-cases (address == 0)) [
  | inl z ↦ let other : address == a ≡ false = ground (arith, z, valid) in rw (z, other) refl
  | inr z ↦ rw z (complete_for_lem now a address g.machine.scheduler.current_thread g)
]

-- One call.
step_lem :
    (a : ℕ) (c : Call) (g : Guards)
    → a ≢ 0
    → (not (starts a c g && Assoc.is_some (owner a g)) ≡ true)
      × (owner a (perform c g) ≡ initializer_after a (owner a g) c g)
unfolding perform
step_lem a (acquires address initialized) g valid =
    let (apart, next) = acquire_lem a address initialized g in (ground (arith, apart), next)
step_lem a (completes now address) g valid = (refl, complete_lem now a address g valid)
step_lem a (elsewhere m) g valid = (refl, refl)

history_lem :
    (a : ℕ) (cs : List Call) (g : Guards)
    → a ≢ 0
    → (is_exclusive a (owner a g) cs g ≡ true)
      × (owner a (perform_all cs g) ≡ last_initializer a (owner a g) cs g)
unfolding is_exclusive last_initializer perform_all
history_lem a [] g valid = (refl, refl)
history_lem a (c ∷ cs) g valid =
    let (apart, next) = step_lem a c g valid in
    let (rest, last) = history_lem a cs (perform c g) valid in
    let rest' : is_exclusive a (initializer_after a (owner a g) c g) cs (perform c g) ≡ true =
      subst (λ w. is_exclusive a w cs (perform c g) ≡ true) next rest in
    (
      rw (apart, rest') refl,
      last ∙ ap (λ (w : Option ℕ). last_initializer a w cs (perform c g)) next,
    )

-- At most one thread initialises at a time, however the calls of all threads and the scheduler's
-- choices are interleaved from a state in which nobody owns the guard at the address: no call tells a
-- thread to initialise before the one told so last, if there is one, has called Release or Abort; and
-- the owner at the end is the thread that was told so last and has not called them since.
pub one_initializer :
    (a : ℕ) (cs : List Call) (g : Guards)
    → a ≢ 0
    → Assoc.find a g.owners ≡ none
    → (is_exclusive a none cs g ≡ true)
      × (Assoc.find a (perform_all cs g).owners ≡ last_initializer a none cs g)
one_initializer a cs g valid free =
    let (apart, last) = history_lem a cs g valid in
    (
      subst (λ w. is_exclusive a w cs g ≡ true) free apart,
      last ∙ ap (λ (w : Option ℕ). last_initializer a w cs g) free,
    )
