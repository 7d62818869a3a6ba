-- ===== src/Kernel/Scheduler/Order.antt =====
-- The order in which SelectNext runs ready threads.
use kaj_ps.Base.{
  ℕ, zero, suc, ◌≡◌, refl, ◌∙◌, List, [], ◌∷◌, ◌++◌, none, some, inl, inr, Option-cases, length,
}
use mathlib.Core.List.{append_assoc}
use kaj_ps.Kernel.Scheduler.Threads.{Scheduler, is_expired, expired, wake_all, wake_expired}
use kaj_ps.Kernel.Scheduler.Methods.{select_next, running_current, yield_current}
use kaj_ps.Kernel.Scheduler.Inv.{Inv, running_current-none, running_current_lem}
use kaj_ps.Kernel.Scheduler.WakeInv.{wake_expired-Inv}
use kaj_ps.Kernel.Scheduler.Preserve.{select_loop_head, select_next-Inv, yield_current-Inv}

-- With no current thread, SelectNext takes the thread at the head of the ready queue, whatever the
-- time: the rest of the queue keeps its order, in front of the threads whose deadlines have passed.
pub select_next_fifo :
    (now : ℕ) (s : Scheduler) (h : ℕ) (queue : List ℕ)
    → Inv s
    → s.current_thread ≡ none
    → s.ready_threads ≡ h ∷ queue
    → let (s', selected) = select_next now s in
      (selected ≡ some h)
      × (s'.current_thread ≡ some h)
      × (s'.ready_threads ≡ queue ++ (wake_all (is_expired now) expired s.threads).1)
unfolding select_next wake_expired
select_next_fifo now s h queue v n e =
    let (t, f, r, l) =
      select_loop_head (wake_expired now s) h
        (queue ++ (wake_all (is_expired now) expired s.threads).1) (wake_expired-Inv now s v)
        (rw e refl) in
    rw (n, select_next) (rw l (refl, refl, refl))

-- The rounds of a cooperative schedule in which each thread that runs yields; the clock of each
-- round is free.
unfoldable pub rounds : (ℕ → ℕ) → ℕ → Scheduler → Scheduler
rounds clock zero s = s
rounds clock (suc n) s = rounds clock n (yield_current (select_next (clock n) s).0).0

-- One round takes the head of the queue to behind all that were queued.
round_lem :
    (now : ℕ) (s : Scheduler) (h : ℕ) (queue : List ℕ)
    → Inv s
    → s.current_thread ≡ none
    → s.ready_threads ≡ h ∷ queue
    → let s' = (yield_current (select_next now s).0).0 in
      (s'.current_thread ≡ none)
      × (s'.ready_threads ≡ queue ++ ((wake_all (is_expired now) expired s.threads).1 ++ (h ∷ [])))
unfolding yield_current
round_lem now s h queue v n e =
    let (_, cur, rest) = select_next_fifo now s h queue v n e in
    elim (Option-cases (running_current (select_next now s).0)) [
      | inl f ↦ absurd (cc (running_current-none (select_next now s).0 (select_next-Inv now s v) f))
      | inr ((c, t), f) ↦
          let found = running_current_lem (select_next now s).0 c t f in
          rw (f, yield_current) (refl, rw (rest, append_assoc) (cc found.0))
    ]

-- Nobody starves: under the invariant, with no current thread, a thread that is queued behind `n`
-- others is the one that SelectNext selects after `n` rounds in which the selected thread yields,
-- however the clock goes and whichever threads time out meanwhile.
pub rounds_serve :
    (clock : ℕ → ℕ) (now : ℕ) (before : List ℕ) (h : ℕ) (behind : List ℕ) (s : Scheduler)
    → Inv s
    → s.current_thread ≡ none
    → s.ready_threads ≡ before ++ (h ∷ behind)
    → (select_next now (rounds clock (length before) s)).1 ≡ some h
unfolding rounds
rounds_serve clock now [] h behind s v n e = (select_next_fifo now s h behind v n e).0
rounds_serve clock now (g ∷ before) h behind s v n e =
    let at = clock (length before) in
    let (idle, queue) = round_lem at s g (before ++ (h ∷ behind)) v n e in
    rounds_serve clock now before h
      (behind ++ ((wake_all (is_expired at) expired s.threads).1 ++ (g ∷ [])))
      (yield_current (select_next at s).0).0
      (yield_current-Inv (select_next at s).0 (select_next-Inv at s v)) idle
      (queue ∙ append_assoc before (h ∷ behind) _)
