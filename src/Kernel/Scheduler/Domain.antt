-- ===== src/Kernel/Scheduler/Domain.antt =====
-- Which threads there are, before and after each method of GuestScheduler.
use kaj_ps.Base.{
  ℕ, ◌≡◌, ◌⊎◌, refl, Bool, List, [], ◌∷◌, Option, none, some, arith, inl, inr, Option-cases,
  Bool-cases,
}
use kaj_ps.Base.Text.{Bytes, is_empty}
use kaj_ps.Base.Assoc
use kaj_ps.Kernel.WaitKeys.{thread_exit_key}
use kaj_ps.Kernel.Scheduler.Threads.{
  GuestThread, Scheduler, ready, running, blocked_on, woken, expired, is_expired, waits_on,
  wake_expired,
}
use kaj_ps.Kernel.Scheduler.Methods.{
  select_loop, select_next, running_current, yield_current, block_current, wake_blocked_threads,
  wake_blocked_thread, join_thread, as_exited, exit_current, consume_current_thread_timeout,
}
use kaj_ps.Kernel.Scheduler.Wakes.{find-wake_all, wake_some-entry}
use kaj_ps.Kernel.Scheduler.Inv.{Inv}
use kaj_ps.Kernel.Scheduler.WakeInv.{wake_expired-Inv}
use kaj_ps.Kernel.Scheduler.Preserve.{
  join_thread_cases, join_thread_refused, consume_cases, consume_refused,
}

abbrev pub has : ℕ → Scheduler → Bool
has h s = Assoc.is_some (Assoc.find h s.threads)

-- The same threads are there.
abbrev pub SameThreads : Scheduler → Scheduler → Type 0
SameThreads s' s = (h : ℕ) → has h s' ≡ has h s

update-has :
    (h c : ℕ) (t : GuestThread) (m : List (ℕ × GuestThread))
    → Assoc.is_some (Assoc.find h (Assoc.update c t m)) ≡ Assoc.is_some (Assoc.find h m)
update-has h c t m = ground (arith, Assoc.find-update h c t m)

pub wake_expired-has : (now : ℕ) (s : Scheduler) → SameThreads (wake_expired now s) s
unfolding wake_expired
wake_expired-has now s h = ground (arith, find-wake_all (is_expired now) expired h s.threads)

-- A method of the current thread leaves the threads as they are, or changes that thread's entry.
current_cases :
    (s s' : Scheduler)
    → (running_current s ≡ none → s'.threads ≡ s.threads)
    → ((c : ℕ) (t : GuestThread)
        → running_current s ≡ some (c, t)
        → (s'.threads ≡ s.threads)
          ⊎ ((u : GuestThread) × (s'.threads ≡ Assoc.update c u s.threads)))
    → SameThreads s' s
current_cases s s' idle busy h = elim (Option-cases (running_current s)) [
  | inl e ↦ rw (idle e) refl
  | inr ((c, t), e) ↦ elim (busy c t e) [
    | inl f ↦ rw f refl
    | inr (u, f) ↦ rw f (update-has h c u s.threads)
  ]
]

pub yield_current-has : (s : Scheduler) → SameThreads (yield_current s).0 s
unfolding yield_current
yield_current-has s =
    current_cases s (yield_current s).0 (λ e. ground arith)
      (λ c t e. inr (record t { state = ready }, ground arith))

pub block_current-has :
    (key : Bytes) (deadline : Option ℕ) (s : Scheduler)
    → SameThreads (block_current key deadline s).0 s
unfolding block_current
block_current-has key deadline s = elim (Bool-cases (is_empty key)) [
  | inl e ↦ rw (e, block_current) (λ h. refl)
  | inr filled ↦
      current_cases s (block_current key deadline s).0 (λ e. ground arith)
        (λ c t e. inr (blocked_on key deadline t, ground arith))
]

pub join_thread-has : (h : ℕ) (s : Scheduler) → SameThreads (join_thread h s).0 s
join_thread-has h s =
    current_cases s (join_thread h s).0 (λ e. rw (join_thread_refused h s e) refl)
      (λ c t e. elim (join_thread_cases h s c t e) [
        | inl f ↦ inl (rw f refl)
        | inr f ↦ inr (blocked_on (thread_exit_key h) none t, rw f refl)
      ])

pub consume-has :
    (key : Bytes) (s : Scheduler) → SameThreads (consume_current_thread_timeout key s).0 s
consume-has key s =
    current_cases s (consume_current_thread_timeout key s).0
      (λ e. rw (consume_refused key s e) refl)
      (λ c t e. elim (consume_cases key s c t e) [
        | inl f ↦ inl (rw f refl)
        | inr f ↦ inr (record t { timed_out_wait_key = [] }, rw f refl)
      ])

pub exit_current-has : (value : ℕ) (s : Scheduler) → SameThreads (exit_current value s).0 s
unfolding exit_current
exit_current-has value s h = elim (Option-cases (running_current s)) [
  | inl e ↦ ground arith
  | inr ((c, t), e) ↦
      let gone = Assoc.update c (as_exited value t) s.threads in
      ground (
        arith,
        e,
        find-wake_all (waits_on (thread_exit_key c)) woken h gone,
        update-has h c (as_exited value t) s.threads,
      )
]

pub wake_blocked_threads-has :
    (now : ℕ) (key : Bytes) (maximum_count : ℕ) (s : Scheduler)
    → Inv s
    → SameThreads (wake_blocked_threads now key maximum_count s).0 s
unfolding wake_blocked_threads
wake_blocked_threads-has now key maximum_count s v h =
    let up = wake_expired now s in
    ground (
      arith,
      wake_expired-has now s h,
      wake_some-entry (waits_on key) woken maximum_count 1 h up.threads
          (wake_expired-Inv now s v).sorted,
    )

pub wake_blocked_thread-has :
    (now c : ℕ) (key : Bytes) (s : Scheduler) → SameThreads (wake_blocked_thread now c key s).0 s
unfolding wake_blocked_thread
wake_blocked_thread-has now c key s h =
    elim (Option-cases (Assoc.find c (wake_expired now s).threads)) [
      | inl e ↦ ground (arith, wake_expired-has now s h)
      | inr (t, e) ↦
          ground
            (arith, wake_expired-has now s h, update-has h c (woken t) (wake_expired now s).threads)
    ]

select_loop-has :
    (h : ℕ) (m : List (ℕ × GuestThread)) (queue : List ℕ)
    → Assoc.is_some (Assoc.find h (select_loop m queue).1) ≡ Assoc.is_some (Assoc.find h m)
unfolding select_loop
select_loop-has h m [] = refl
select_loop-has h m (c ∷ queue) = elim (Option-cases (Assoc.find c m)) [
  | inl e ↦ rw (e, select_loop) (select_loop-has h m queue)
  | inr (t, e) ↦
      ground (arith, e, select_loop-has h m queue, update-has h c (record t { state = running }) m)
]

pub select_next-has : (now : ℕ) (s : Scheduler) → SameThreads (select_next now s).0 s
unfolding select_next
select_next-has now s h =
    let up = wake_expired now s in
    ground (arith, wake_expired-has now s h, select_loop-has h up.threads up.ready_threads)
