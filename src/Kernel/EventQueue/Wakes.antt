-- ===== src/Kernel/EventQueue/Wakes.antt =====
-- How Delete of EventQueueService of src/kernel/event_queue.cpp ends a wait, and
-- the deadline of a wait.
use kaj_ps.Base.{
  ℕ, ◌+◌, ◌-◌, ◌*◌, ◌^◌, ◌≤◌, ◌<◌, ◌≡◌, ◌≢◌, refl, sym, subst, count, ap, ◌∙◌, true, false, Option,
  some, List, [], ◌∷◌, arith, ◌==◌, min, inl, inr, Option-cases, Bool-cases,
}
use kaj_ps.Base.Assoc
use kaj_ps.Kernel.Status.{kernel_ok, permission_denied}
use kaj_ps.Kernel.WaitKeys.{event_queue_key, event_queue_key_nonempty}
use kaj_ps.Kernel.Objects.{event_queue}
use kaj_ps.Kernel.Handles
use kaj_ps.Kernel.Scheduler.Methods.{wake_blocked_thread}
use kaj_ps.Kernel.Scheduler.Threads.{Scheduler, GuestThread, blocked}
use kaj_ps.Kernel.Scheduler.Inv.{Inv}
use kaj_ps.Kernel.Scheduler.Preserve.{wake_blocked_thread-Inv}
use kaj_ps.Kernel.Scheduler.Machine.{Good}
use kaj_ps.Kernel.Scheduler.WakeOne.{IsReady, wake_one_keeps, wake_one_other, wake_one_readies}
use kaj_ps.Kernel.EventQueue.Service.{
  EventQueues, Waiter, waiting, deleted, is_waiting, delete, delete_waiters, with_scheduler,
}
use kaj_ps.Kernel.EventQueue.Waits.{
  wait, wait_by, wait_existing, waiter_of, without_waiter, deadline_of,
}

-- A wait's deadline is the clock plus the timeout, or the largest 64-bit number where the sum is more.
pub deadline_of_lem :
    (now timeout : ℕ)
    → now < 2 ^ 64
    → timeout < 2 ^ 64
    → deadline_of now timeout ≡ min (now + timeout * 1000) (2 ^ 64 - 1)
unfolding deadline_of
deadline_of_lem now timeout h w = ground arith

find-delete_waiters :
    (now h t : ℕ) (w : Waiter) (waiters : List (ℕ × Waiter)) (scheduler : Scheduler)
    → Assoc.find t waiters ≡ some w
    → w.queue_handle ≡ h
    → Assoc.find t (delete_waiters now h waiters scheduler).0
      ≡ some (record w { completion = deleted; events = [] })
unfolding delete_waiters Assoc.find
find-delete_waiters now h t w [] scheduler f q = absurd (ground (arith, f))
find-delete_waiters now h t w ((k, v) ∷ waiters) scheduler f q =
    let awake = (wake_blocked_thread now k (event_queue_key h) scheduler).0 in
    elim (Bool-cases (k == t)) [
      | inl same ↦
          let entry : v ≡ w = ground (arith, same, f) in
          let ours : v.queue_handle == h ≡ true =
            ground (arith, ap (λ (u : Waiter). u.queue_handle) entry, q) in
          let done : ◌≡◌ {A = Option Waiter} (some (record v { completion = deleted; events = [] }))
              (some (record w { completion = deleted; events = [] })) =
            ap (λ (u : Waiter). some (record u { completion = deleted; events = [] })) entry in
          elim (Bool-cases (is_waiting v)) [
            | inl b ↦ rw (ours, b) (rw same done)
            | inr b ↦ rw (ours, b) (rw same done)
          ]
      | inr other ↦
          let f' : Assoc.find t waiters ≡ some w = ground (arith, other, f) in
          elim (Bool-cases (v.queue_handle == h)) [
            | inr b ↦ rw b (rw other (find-delete_waiters now h t w waiters scheduler f' q))
            | inl b ↦ elim (Bool-cases (is_waiting v)) [
              | inl c ↦ rw (b, c) (rw other (find-delete_waiters now h t w waiters awake f' q))
              | inr c ↦ rw (b, c) (rw other (find-delete_waiters now h t w waiters scheduler f' q))
            ]
          ]
    ]

delete_ok :
    (now h : ℕ) (s : EventQueues)
    → (delete now h s).1 ≡ kernel_ok
    → let (waiters, scheduler) = delete_waiters now h s.waiters s.machine.scheduler in
      ((delete now h s).0.waiters ≡ waiters) × ((delete now h s).0.machine.scheduler ≡ scheduler)
unfolding delete
delete_ok now h s = elim (Option-cases (Handles.remove h event_queue s.machine.handles).1) [
  | inl r ↦ rw (r, delete) (λ e. absurd cc)
  | inr (o, r) ↦ rw (r, delete) (λ e. (refl, refl))
]

wait_deleted :
    (now h maximum_count t : ℕ) (timeout : Option ℕ) (w : Waiter) (s : EventQueues)
    → 1 ≤ maximum_count
    → s.machine.scheduler.current_thread ≡ some t
    → Assoc.find t s.waiters ≡ some w
    → w.queue_handle ≡ h
    → w.completion ≡ deleted
    → wait now h maximum_count timeout s ≡ (without_waiter t s, permission_denied, [])
unfolding wait
wait_deleted now h maximum_count t timeout w s some_count c f q d =
    let counted : maximum_count == 0 ≡ false = ground arith in
    let ours : w.queue_handle == h ≡ true = ground (arith, q) in
    let mine : waiter_of s.machine.scheduler.current_thread s ≡ some (t, w) =
      ap (λ (k : Option ℕ). waiter_of k s) c ∙ (rw (f, waiter_of) refl) in
    let told : wait_existing t h w s ≡ (without_waiter t s, permission_denied, []) =
      rw ours (rw d refl) in
    rw counted
      (ap (λ (o : Option (ℕ × Waiter)). wait_by now h maximum_count timeout o s) mine ∙ told)

delete_waiters-Inv :
    (now h : ℕ) (waiters : List (ℕ × Waiter)) (scheduler : Scheduler)
    → Inv scheduler
    → Inv (delete_waiters now h waiters scheduler).1
unfolding delete_waiters
delete_waiters-Inv now h [] scheduler v = v
delete_waiters-Inv now h ((k, w) ∷ waiters) scheduler v =
    let awake = (wake_blocked_thread now k (event_queue_key h) scheduler).0 in
    elim (Bool-cases (w.queue_handle == h)) [
      | inr b ↦ rw b (delete_waiters-Inv now h waiters scheduler v)
      | inl b ↦ elim (Bool-cases (is_waiting w)) [
        | inr c ↦ rw (b, c) (delete_waiters-Inv now h waiters scheduler v)
        | inl c ↦
            rw (b, c)
              (delete_waiters-Inv now h waiters awake
                (wake_blocked_thread-Inv now k (event_queue_key h) scheduler v))
      ]
    ]

delete_waiters_keeps :
    (now h t : ℕ) (waiters : List (ℕ × Waiter)) (scheduler : Scheduler)
    → IsReady t scheduler
    → IsReady t (delete_waiters now h waiters scheduler).1
unfolding delete_waiters
delete_waiters_keeps now h t [] scheduler r = r
delete_waiters_keeps now h t ((k, w) ∷ waiters) scheduler r =
    let awake = (wake_blocked_thread now k (event_queue_key h) scheduler).0 in
    elim (Bool-cases (w.queue_handle == h)) [
      | inr b ↦ rw b (delete_waiters_keeps now h t waiters scheduler r)
      | inl b ↦ elim (Bool-cases (is_waiting w)) [
        | inr c ↦ rw (b, c) (delete_waiters_keeps now h t waiters scheduler r)
        | inl c ↦
            rw (b, c)
              (delete_waiters_keeps now h t waiters awake
                (wake_one_keeps now k t (event_queue_key h) scheduler r))
      ]
    ]

-- The loop readies the blocked thread of each waiter for the queue.
delete_waiters_readies :
    (now h t : ℕ) (w : Waiter) (u : GuestThread) (waiters : List (ℕ × Waiter))
    (scheduler : Scheduler)
    → t ≢ 0
    → Assoc.find t waiters ≡ some w
    → w.queue_handle ≡ h
    → w.completion ≡ waiting
    → Assoc.find t scheduler.threads ≡ some u
    → u.state ≡ blocked
    → u.wait_key ≡ event_queue_key h
    → IsReady t (delete_waiters now h waiters scheduler).1
unfolding delete_waiters Assoc.find
delete_waiters_readies now h t w u [] scheduler valid f q c e b k = absurd (ground (arith, f))
delete_waiters_readies now h t w u ((j, v) ∷ waiters) scheduler valid f q c e b k =
    let key = event_queue_key h in
    let awake = (wake_blocked_thread now j key scheduler).0 in
    elim (Bool-cases (j == t)) [
      | inl same ↦
          let entry : v ≡ w = ground (arith, same, f) in
          let ours : v.queue_handle == h ≡ true =
            ground (arith, ap (λ (x : Waiter). x.queue_handle) entry, q) in
          let waits : v.completion ≡ waiting = ap (λ (x : Waiter). x.completion) entry ∙ c in
          let asleep : is_waiting v ≡ true = ground (arith, waits) in
          let named : j ≡ t = ground (arith, same) in
          let readied : IsReady t awake =
            subst (λ i. IsReady t (wake_blocked_thread now i key scheduler).0) (sym named)
              (wake_one_readies now t key u scheduler valid (event_queue_key_nonempty h) e b k) in
          rw (ours, asleep) (delete_waiters_keeps now h t waiters awake readied)
      | inr other ↦
          let f' : Assoc.find t waiters ≡ some w = ground (arith, other, f) in
          let later = delete_waiters_readies now h t w u waiters scheduler valid f' q c e b k in
          elim (Bool-cases (v.queue_handle == h)) [
            | inr x ↦ rw x later
            | inl x ↦ elim (Bool-cases (is_waiting v)) [
              | inr y ↦ rw (x, y) later
              | inl y ↦ elim (wake_one_other now j t key u scheduler e) [
                | inl r ↦ rw (x, y) (delete_waiters_keeps now h t waiters awake r)
                | inr e' ↦
                    rw (x, y) (delete_waiters_readies now h t w u waiters awake valid f' q c e' b k)
              ]
            ]
          ]
    ]

-- Delete ends the waits for the queue. A thread that is blocked in a wait for it is ready afterwards
-- and queued once; and in whatever later state of the scheduler it runs and calls Wait again, it is
-- told that the queue is gone, and its waiter is removed.
pub delete_ends_wait :
    (now now' h maximum_count t : ℕ) (timeout : Option ℕ) (w : Waiter) (u : GuestThread)
    (scheduler : Scheduler) (s : EventQueues)
    → Good s.machine
    → 1 ≤ maximum_count
    → Assoc.find t s.waiters ≡ some w
    → w.queue_handle ≡ h
    → w.completion ≡ waiting
    → Assoc.find t s.machine.scheduler.threads ≡ some u
    → u.state ≡ blocked
    → u.wait_key ≡ event_queue_key h
    → (delete now h s).1 ≡ kernel_ok
    → scheduler.current_thread ≡ some t
    → let s' = (delete now h s).0 in
      let later = with_scheduler scheduler s' in
      IsReady t s'.machine.scheduler
      × (count t s'.machine.scheduler.ready_threads ≡ 1)
      × (wait now' h maximum_count timeout later ≡ (without_waiter t later, permission_denied, []))
delete_ends_wait now now' h maximum_count t timeout w u scheduler s g some_count f q waits e b k ok
      c =
    let later = with_scheduler scheduler (delete now h s).0 in
    let gone : Waiter = record w { completion = deleted; events = [] } in
    let (kept, left) = delete_ok now h s ok in
    let found : Assoc.find t later.waiters ≡ some gone =
      ap (Assoc.find t) kept ∙ find-delete_waiters now h t w s.waiters s.machine.scheduler f q in
    let valid : t ≢ 0 = λ z.
      absurd
        (ground (arith, z, e, Assoc.find_below 1 t s.machine.scheduler.threads g.threads.sorted)) in
    let woken : IsReady t (delete_waiters now h s.waiters s.machine.scheduler).1 =
      delete_waiters_readies now h t w u s.waiters s.machine.scheduler valid f q waits e b k in
    let inv = delete_waiters-Inv now h s.waiters s.machine.scheduler g.threads in
    (
      subst (IsReady t) (sym left) woken,
      subst (λ (x : Scheduler). count t x.ready_threads ≡ 1) (sym left)
          (ground (arith, inv.queued t, woken)),
      wait_deleted now' h maximum_count t timeout gone later some_count c found q refl,
    )
