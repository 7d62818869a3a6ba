-- ===== src/Kernel/EventQueue/Waits.antt =====
-- Poll and Wait of EventQueueService of src/kernel/event_queue.cpp.
use kaj_ps.Base.{
  ℕ, ◌+◌, ◌-◌, ◌*◌, ◌/◌, ◌^◌, Bool, true, false, not, Option, none, some, List, [], ◌∷◌, ltb, ◌==◌,
  if◌then◌else◌,
}
use kaj_ps.Base.Assoc
use kaj_ps.Kernel.Status.{
  KernelStatus, kernel_ok, invalid_argument, not_found, busy, would_block, permission_denied,
  timed_out,
}
use kaj_ps.Kernel.WaitKeys.{event_queue_key}
use kaj_ps.Kernel.Scheduler.Methods.{block_current, consume_current_thread_timeout}
use kaj_ps.Kernel.EventQueue.{EventQueue, KernelEvent, RegisteredKernelEvent, is_current}
use kaj_ps.Kernel.EventQueue as Queue
use kaj_ps.Kernel.EventQueue.Service.{
  EventQueues, Waiter, waiting, reserved, deleted, find, store, with_scheduler,
}

-- CurrentEvents
unfoldable pub current_events : EventQueue → List RegisteredKernelEvent → List KernelEvent
current_events q [] = []
current_events q (e ∷ es) =
    let rest = current_events q es in if is_current e q.registrations then e.event ∷ rest else rest

abbrev pub Answer : Type 0
Answer = EventQueues × KernelStatus × List KernelEvent

abbrev pub is_none {ℓ} : {A : Type ℓ} → List A → Bool
is_none [] = true
is_none (x ∷ xs) = false

-- PollLocked, by the queue found.
abbrev pub poll_found : ℕ → ℕ → Option EventQueue → EventQueues → Answer
poll_found h maximum_count none s = (s, not_found, [])
poll_found h maximum_count (some q) s =
    let (q', events) = Queue.poll maximum_count q in
    let current = current_events q' events in
    if is_none current then (store h q' s, busy, []) else (store h q' s, kernel_ok, current)

-- PollLocked, and so Poll
unfoldable pub poll : ℕ → ℕ → EventQueues → Answer
poll h maximum_count s =
    if maximum_count == 0
    then (s, invalid_argument, [])
    else poll_found h maximum_count (find h s) s

abbrev pub without_waiter : ℕ → EventQueues → EventQueues
without_waiter t s = record s { waiters = Assoc.erase t s.waiters }

-- The block at the end of Wait, by the result of the poll before it; `unblocked` is the state where
-- there is no thread to block.
abbrev pub block_waiter : ℕ → Option ℕ → EventQueues → EventQueues → Answer
block_waiter h deadline unblocked s =
    let (scheduler, blocked) = block_current (event_queue_key h) deadline s.machine.scheduler in
    if blocked then (with_scheduler scheduler s, would_block, []) else (unblocked, busy, [])

-- The poll of a waiter that is there already, and what follows.
abbrev pub poll_again : ℕ → ℕ → Waiter → Answer → Answer
poll_again t h w (s, busy, events) = block_waiter h w.deadline_nanoseconds s s
poll_again t h w (s, status, events) = (without_waiter t s, status, events)

-- Wait of a waiter that still waits.
abbrev pub wait_on : ℕ → ℕ → Waiter → EventQueues → Answer
wait_on t h w s =
    let (scheduler, expired) =
      consume_current_thread_timeout (event_queue_key h) s.machine.scheduler in
    if expired
    then (without_waiter t (with_scheduler scheduler s), timed_out, [])
    else poll_again t h w (poll h w.maximum_count s)

-- Wait of a waiter for which events are reserved, by the queue found.
abbrev pub wait_reserved : ℕ → ℕ → Waiter → Option EventQueue → EventQueues → Answer
wait_reserved t h w none s = (without_waiter t s, permission_denied, [])
wait_reserved t h w (some q) s =
    let current = current_events q w.events in
    let again = record w { completion = waiting; events = [] } in
    if not (is_none current)
    then (without_waiter t s, kernel_ok, current)
    else wait_on t h again (record s { waiters = Assoc.update t again s.waiters })

-- Wait of a thread that has a waiter.
abbrev pub wait_existing : ℕ → ℕ → Waiter → EventQueues → Answer
wait_existing t h w s = if not (w.queue_handle == h) then (s, busy, []) else elim w.completion [
  | deleted ↦ (without_waiter t s, permission_denied, [])
  | reserved ↦ wait_reserved t h w (find h s) s
  | waiting ↦ wait_on t h w s
]

-- The deadline of a timeout in microseconds; both steps stop at the largest 64-bit number.
unfoldable pub deadline_of : ℕ → ℕ → ℕ
deadline_of now timeout =
    let maximum = 2 ^ 64 - 1 in
    let duration = if ltb (maximum / 1000) timeout then maximum else timeout * 1000 in
    if ltb (maximum - now) duration then maximum else now + duration

abbrev pub deadline_for : ℕ → Option ℕ → Option ℕ
deadline_for now none = none
deadline_for now (some timeout) = some (deadline_of now timeout)

abbrev pub is_zero : Option ℕ → Bool
is_zero none = false
is_zero (some timeout) = timeout == 0

-- Wait behind the poll that found nothing, by the running thread.
abbrev pub wait_new : ℕ → ℕ → ℕ → Option ℕ → Option ℕ → EventQueues → Answer
wait_new now h maximum_count timeout none s = (s, busy, [])
wait_new now h maximum_count timeout (some t) s =
    let w : Waiter = record {
      queue_handle = h;
      maximum_count = maximum_count;
      deadline_nanoseconds = deadline_for now timeout;
      completion = waiting;
      events = [];
    } in
    let noted = record s { waiters = Assoc.emplace t w s.waiters } in
    block_waiter h w.deadline_nanoseconds (without_waiter t noted) noted

-- Wait without a waiter, by the result of the first poll.
abbrev pub wait_polled : ℕ → ℕ → ℕ → Option ℕ → Option ℕ → Answer → Answer
wait_polled now h maximum_count timeout current (s, busy, events) =
    if is_zero timeout then (s, timed_out, []) else wait_new now h maximum_count timeout current s
wait_polled now h maximum_count timeout current (s, status, events) = (s, status, events)

abbrev pub waiter_of : Option ℕ → EventQueues → Option (ℕ × Waiter)
waiter_of none s = none
waiter_of (some t) s = elim (Assoc.find t s.waiters) [ none ↦ none | some w ↦ some (t, w) ]

-- Wait, by the waiter of the running thread.
abbrev pub wait_by : ℕ → ℕ → ℕ → Option ℕ → Option (ℕ × Waiter) → EventQueues → Answer
wait_by now h maximum_count timeout (some (t, w)) s = wait_existing t h w s
wait_by now h maximum_count timeout none s =
    wait_polled now h maximum_count timeout s.machine.scheduler.current_thread
      (poll h maximum_count s)

-- Wait
unfoldable pub wait : ℕ → ℕ → ℕ → Option ℕ → EventQueues → Answer
wait now h maximum_count timeout s =
    let answer =
      wait_by now h maximum_count timeout (waiter_of s.machine.scheduler.current_thread s) s in
    if maximum_count == 0 then (s, invalid_argument, []) else answer
