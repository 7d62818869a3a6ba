-- ===== src/Kernel/EventQueue/Pending.antt =====
-- EventQueue: the registrations of pending events, and the order in which events leave.
use kaj_ps.Base.{
  ℕ, ◌-◌, ◌≤◌, ◌≡◌, sym, ap, subst, refl, Bool, true, false, not, ◌||◌, some, List, [], ◌∷◌, ◌++◌,
  arith, ◌==◌, length, min, Bool-cases, Option-cases, inl, inr,
}
use kaj_ps.Base.Int.{ℤ}
use kaj_ps.Kernel.EventQueue.{
  EventQueue, Registration, RegisteredKernelEvent, find_if, erase_if, split_at, poll, is_current,
  matches_event, is_for,
}

pub find_if_found :
    {A : Type 0} (test : A → Bool) (xs before behind : List A) (x : A)
    → find_if test xs ≡ some (before, x, behind)
    → (xs ≡ before ++ (x ∷ behind)) × (test x ≡ true)
unfolding find_if
find_if_found test [] before behind x e = absurd (ground (arith, e))
find_if_found test (y ∷ xs) before behind x e = elim (Bool-cases (test y)) [
  | inl f ↦ ground (arith, e, f)
  | inr f ↦ elim (Option-cases (find_if test xs)) [
    | inl g ↦ absurd (ground (arith, e, f, g))
    | inr ((b, z, c), g) ↦ ground (arith, e, f, g, find_if_found test xs b c z g)
  ]
]

split_at_lem :
    (n : ℕ) (es : List RegisteredKernelEvent)
    → n ≤ length es
    → let (front, back) = split_at n es in (front ++ back ≡ es) × (length front ≡ n)
unfolding split_at
split_at_lem n [] h = (refl, omega (arith, h))
split_at_lem n (e ∷ es) h = elim (Bool-cases (n == 0)) [
  | inl z ↦ rw z (refl, ground (arith, z))
  | inr z ↦
      let (whole, size) = split_at_lem (n - 1) es (ground (arith, z, h)) in
      rw z (ap (λ t. e ∷ t) whole, ground (arith, size, z))
]

-- Poll takes the oldest pending events, as many as asked for or all there are, in the order in which
-- they became pending. Of these the persistent ones go behind all others, in their order, and the
-- rest are gone; no other event moves.
pub poll_fifo :
    (maximum_count : ℕ) (q : EventQueue)
    → let (q', events) = poll maximum_count q in
      (length events ≡ min maximum_count (length q.pending_events))
      × ((others : List RegisteredKernelEvent) × (q.pending_events ≡ events ++ others)
          × (q'.pending_events ≡ others ++ erase_if (λ e. not e.persistent) events))
      × (q'.registrations ≡ q.registrations)
unfolding poll
poll_fifo maximum_count q =
    let n = min maximum_count (length q.pending_events) in
    let (whole, size) = split_at_lem n q.pending_events (omega arith) in
    (size, ((split_at n q.pending_events).1, sym whole, refl), refl)

-- All of the events have their registration, of the same generation.
abbrev pub Current : List Registration → List RegisteredKernelEvent → Type 0
Current rs [] = Unit {0}
Current rs (e ∷ es) = (is_current e rs ≡ true) × Current rs es

pub is_current-append :
    (e : RegisteredKernelEvent) (rs ss : List Registration)
    → is_current e (rs ++ ss) ≡ (is_current e rs || is_current e ss)
unfolding is_current
is_current-append e [] ss = refl
is_current-append e (r ∷ rs) ss = ground (arith, is_current-append e rs ss)

pub Current-append :
    (rs : List Registration) (ds es : List RegisteredKernelEvent)
    → Current rs ds
    → Current rs es
    → Current rs (ds ++ es)
Current-append rs [] es c d = d
Current-append rs (x ∷ ds) es c d = (c.0, Current-append rs ds es c.1 d)

pub Current-parts :
    (rs : List Registration) (ds es : List RegisteredKernelEvent)
    → Current rs (ds ++ es)
    → Current rs ds × Current rs es
Current-parts rs [] es c = (tt, c)
Current-parts rs (x ∷ ds) es c = let (a, b) = Current-parts rs ds es c.1 in ((c.0, a), b)

pub Current-erase_if :
    (rs : List Registration) (test : RegisteredKernelEvent → Bool) (es : List RegisteredKernelEvent)
    → Current rs es
    → Current rs (erase_if test es)
unfolding erase_if
Current-erase_if rs test [] c = tt
Current-erase_if rs test (e ∷ es) c = elim (Bool-cases (test e)) [
  | inl t ↦ rw t (Current-erase_if rs test es c.1)
  | inr t ↦ rw t (c.0, Current-erase_if rs test es c.1)
]

-- Polling leaves and returns only events with their registration.
pub poll-Current :
    (maximum_count : ℕ) (q : EventQueue)
    → Current q.registrations q.pending_events
    → let (q', events) = poll maximum_count q in
      Current q.registrations events × Current q'.registrations q'.pending_events
poll-Current maximum_count q c =
    let (size, (others, before, after), same) = poll_fifo maximum_count q in
    let events = (poll maximum_count q).1 in
    let (a, b) =
      Current-parts q.registrations events others (subst (Current q.registrations) before c) in
    (
      a,
      subst (λ rs. Current rs (poll maximum_count q).0.pending_events) (sym same)
          (subst (Current q.registrations) (sym after) (
            Current-append q.registrations others (erase_if (λ e. not e.persistent) events) b
              (Current-erase_if q.registrations (λ e. not e.persistent) events a))),
    )

-- A deleted registration leaves the events of all others current.
pub keep_others :
    (ident : ℕ) (filter : ℤ) (before behind : List Registration) (r : Registration)
    (e : RegisteredKernelEvent)
    → matches_event ident filter r ≡ true
    → is_for ident filter e ≡ false
    → is_current e (before ++ (r ∷ behind)) ≡ true
    → is_current e (before ++ behind) ≡ true
unfolding is_current
keep_others ident filter before behind r e f g h =
    ground
      (arith, f, g, h, is_current-append e before (r ∷ behind), is_current-append e before behind)
