-- ===== src/Kernel/Scheduler/Methods.antt =====
-- src/kernel/guest_scheduler.cpp: the methods of GuestScheduler. The mutex makes each method one step;
-- `now` is what KernelClockService::MonotonicNanoseconds returns during the call. A method that
-- writes returns the new scheduler beside its result.
use kaj_ps.Base.{
  ℕ, Bool, true, false, not, List, [], ◌∷◌, ◌++◌, Option, none, some, ◌==◌, ltb, length,
  if◌then◌else◌, erase_all,
}
use kaj_ps.Base.Int.{ℤ}
use kaj_ps.Base.Text.{Bytes, bytes_eq, is_empty}
use kaj_ps.Base.Assoc
use kaj_ps.Kernel.Status.{
  KernelStatus, kernel_ok, invalid_argument, not_found, busy, would_block, no_resources,
}
use kaj_ps.Kernel.Objects.{thread_object, thread}
use kaj_ps.Kernel.Handles
use kaj_ps.Kernel.Handles.{HandleTable, invalid_kernel_handle}
use kaj_ps.Kernel.WaitKeys.{thread_exit_key}
use kaj_ps.Kernel.Scheduler.Threads.{
  GuestThread, Scheduler, ready, running, exited, is_ready, is_running, is_exited, new_thread,
  woken, blocked_on, waits_on, wake_all, wake_some, wake_expired, requeue,
  maximum_guest_thread_name_length,
}

-- CreateThread
unfoldable pub create_thread :
    Bytes → ℤ → ℕ → ℕ → HandleTable → Scheduler → HandleTable × Scheduler × KernelStatus × ℕ
create_thread name priority entry argument handles s =
    if ltb maximum_guest_thread_name_length (length name)
    then (handles, s, invalid_argument, invalid_kernel_handle)
    else let (handles', handle) = Handles.insert (some thread_object) handles in
      elim handle [
        | none ↦ (handles', s, no_resources, invalid_kernel_handle)
        | some h ↦ (
          handles',
          record s {
            threads = Assoc.emplace h (new_thread name priority entry argument) s.threads;
            ready_threads = s.ready_threads ++ (h ∷ []);
          },
          kernel_ok,
          h,
        )
      ]

-- The removal from the ready queue and the map, after HandleTable::Remove.
abbrev pub drop_thread : ℕ → Scheduler → Scheduler
drop_thread h s = record s {
  threads = Assoc.erase h s.threads;
  ready_threads = erase_all h s.ready_threads;
}

-- DiscardReadyThread
unfoldable pub discard_ready_thread : ℕ → HandleTable → Scheduler → HandleTable × Scheduler × Bool
discard_ready_thread h handles s =
    let (handles', removed) = Handles.remove h thread handles in
    elim (Assoc.find h s.threads) [
      | none ↦ (handles, s, false)
      | some t ↦ if not (is_ready t.state) then (handles, s, false) else elim removed [
        | none ↦ (handles', s, false)
        | some o ↦ (handles', drop_thread h s, true)
      ]
    ]

-- The loop of SelectNext: the entry that runs next, with the map and the queue that the loop leaves.
unfoldable pub select_loop :
    List (ℕ × GuestThread) → List ℕ → Option ℕ × List (ℕ × GuestThread) × List ℕ
select_loop threads [] = (none, threads, [])
select_loop threads (h ∷ queue) =
    let rest = select_loop threads queue in
    elim (Assoc.find h threads) [
      | none ↦ rest
      | some t ↦
          if is_ready t.state
          then (some h, Assoc.update h (record t { state = running }) threads, queue)
          else rest
    ]

-- SelectNext
unfoldable pub select_next : ℕ → Scheduler → Scheduler × Option ℕ
select_next now s = elim s.current_thread [
  | some c ↦ (s, none)
  | none ↦
      let woken_up = wake_expired now s in
      let (selected, threads, queue) = select_loop woken_up.threads woken_up.ready_threads in
      (record { threads = threads; ready_threads = queue; current_thread = selected }, selected)
]

-- The checks that the methods of the current thread share: there is one, it is in the map, and its
-- state is running.
unfoldable pub running_current : Scheduler → Option (ℕ × GuestThread)
running_current s = elim s.current_thread [
  | none ↦ none
  | some c ↦ elim (Assoc.find c s.threads) [
    | none ↦ none
    | some t ↦ if is_running t.state then some (c, t) else none
  ]
]

-- YieldCurrent
unfoldable pub yield_current : Scheduler → Scheduler × Bool
yield_current s = elim (running_current s) [
  | none ↦ (s, false)
  | some (c, t) ↦ (
    record {
      threads = Assoc.update c (record t { state = ready }) s.threads;
      ready_threads = s.ready_threads ++ (c ∷ []);
      current_thread = none;
    },
    true,
  )
]

-- The current thread as it blocks.
abbrev pub block_thread : Bytes → Option ℕ → ℕ → GuestThread → Scheduler → Scheduler
block_thread key deadline c t s = record s {
  threads = Assoc.update c (blocked_on key deadline t) s.threads;
  current_thread = none;
}

-- BlockCurrentLocked, and so BlockCurrent (no deadline) and BlockCurrentUntil
unfoldable pub block_current : Bytes → Option ℕ → Scheduler → Scheduler × Bool
block_current key deadline s = if is_empty key then (s, false) else elim (running_current s) [
  | none ↦ (s, false)
  | some (c, t) ↦ (block_thread key deadline c t s, true)
]

-- WakeBlockedThreads, with the count of threads that it woke
unfoldable pub wake_blocked_threads : ℕ → Bytes → ℕ → Scheduler → Scheduler × ℕ
wake_blocked_threads now key maximum_count s =
    if is_empty key
    then (s, 0)
    else if maximum_count == 0
    then (s, 0)
    else let s' = wake_expired now s in
      let (threads, queued) = wake_some maximum_count (waits_on key) woken s'.threads in
      (requeue s' (threads, queued), length queued)

-- WakeBlockedThread
unfoldable pub wake_blocked_thread : ℕ → ℕ → Bytes → Scheduler → Scheduler × Bool
wake_blocked_thread now h key s =
    if h == invalid_kernel_handle
    then (s, false)
    else if is_empty key
    then (s, false)
    else let s' = wake_expired now s in
      elim (Assoc.find h s'.threads) [
        | none ↦ (s', false)
        | some t ↦
            if waits_on key t
            then (requeue s' (Assoc.update h (woken t) s'.threads, h ∷ []), true)
            else (s', false)
      ]

-- JoinThread: the status and the exit value
unfoldable pub join_thread : ℕ → Scheduler → Scheduler × KernelStatus × ℕ
join_thread h s = elim (Assoc.find h s.threads) [
  | none ↦ (s, not_found, 0)
  | some target ↦
      if is_exited target.state then (s, kernel_ok, target.exit_value) else elim s.current_thread [
        | none ↦ (s, busy, 0)
        | some c ↦ if c == h then (s, invalid_argument, 0) else elim (running_current s) [
          | none ↦ (s, busy, 0)
          | some (_, t) ↦ (block_thread (thread_exit_key h) none c t s, would_block, 0)
        ]
      ]
]

-- The writes of ExitCurrent to the thread that exits.
abbrev pub as_exited : ℕ → GuestThread → GuestThread
as_exited value t = record t {
  state = exited;
  wait_key = [];
  wait_deadline_nanoseconds = none;
  timed_out_wait_key = [];
  exit_value = value;
}

-- ExitCurrent
unfoldable pub exit_current : ℕ → Scheduler → Scheduler × Bool
exit_current value s = elim (running_current s) [
  | none ↦ (s, false)
  | some (c, t) ↦
      let gone = Assoc.update c (as_exited value t) s.threads in
      let left = record s { threads = gone; current_thread = none } in
      (requeue left (wake_all (waits_on (thread_exit_key c)) woken gone), true)
]

-- CurrentThreadTimedOut
unfoldable pub current_thread_timed_out : Bytes → Scheduler → Bool
current_thread_timed_out key s =
    if is_empty key
    then false
    else elim (running_current s) [ none ↦ false | some (c, t) ↦ bytes_eq t.timed_out_wait_key key ]

-- ConsumeCurrentThreadTimeout
unfoldable pub consume_current_thread_timeout : Bytes → Scheduler → Scheduler × Bool
consume_current_thread_timeout key s =
    if is_empty key then (s, false) else elim (running_current s) [
      | none ↦ (s, false)
      | some (c, t) ↦
          if bytes_eq t.timed_out_wait_key key
          then (
            record s { threads = Assoc.update c (record t { timed_out_wait_key = [] }) s.threads },
            true,
          )
          else (s, false)
    ]
