-- ===== src/Kernel/EventQueue/Service.antt =====
-- EventQueueService of src/kernel/event_queue.cpp over the scheduler and the handle table. The service's
-- mutex makes each method one step; `now` is the monotonic clock in that step, one value for all the
-- times that the step reads it. The table's entry and the service's map point to one queue, whose
-- state stands in the map.
use kaj_ps.Base.{
  ℕ, suc, Bool, true, false, not, ◌||◌, Option, none, some, List, [], ◌∷◌, ltb, leb, ◌==◌,
  if◌then◌else◌, length,
}
use kaj_ps.Base.Int.{ℤ}
use kaj_ps.Base.Assoc
use kaj_ps.Base.Text.{Bytes}
use kaj_ps.Kernel.Status.{KernelStatus, kernel_ok, invalid_argument, not_found, no_resources}
use kaj_ps.Kernel.WaitKeys.{event_queue_key}
use kaj_ps.Kernel.Objects.{KernelObject, event_queue_object, event_queue}
use kaj_ps.Kernel.Handles
use kaj_ps.Kernel.Handles.{invalid_kernel_handle}
use kaj_ps.Kernel.Scheduler.Threads.{Scheduler}
use kaj_ps.Kernel.Scheduler.Methods.{wake_blocked_thread}
use kaj_ps.Kernel.Scheduler.Machine.{Machine}
use kaj_ps.Kernel.EventQueue.{
  EventQueue, KernelEvent, RegisteredKernelEvent, new_queue, register_event, delete_event,
  add_user_event, delete_user_event, trigger_user_event, trigger_first_by_filter, is_current,
  event_filter_graphics, event_filter_video_out,
}
use kaj_ps.Kernel.EventQueue as Queue

abbrev pub maximum_event_queue_name_length : ℕ
maximum_event_queue_name_length = 31

pub data WaitCompletion : Type 0 where
  waiting reserved deleted : WaitCompletion

pub record Waiter : Type 0 where
  pub queue_handle : ℕ
  pub maximum_count : ℕ
  pub deadline_nanoseconds : Option ℕ
  pub completion : WaitCompletion
  pub events : List RegisteredKernelEvent

pub record EventQueues : Type 0 where
  pub machine : Machine
  pub waiters : List (ℕ × Waiter)
  pub queues : List (ℕ × EventQueue)

abbrev pub is_waiting : Waiter → Bool
is_waiting w = elim w.completion [ waiting ↦ true | reserved ↦ false | deleted ↦ false ]

abbrev pub find_queue : ℕ → Option KernelObject → List (ℕ × EventQueue) → Option EventQueue
find_queue h none queues = none
find_queue h (some o) queues = Assoc.find h queues

-- Find
unfoldable pub find : ℕ → EventQueues → Option EventQueue
find h s = find_queue h (Handles.find h event_queue s.machine.handles) s.queues

-- A write through the pointer to a queue.
abbrev pub store : ℕ → EventQueue → EventQueues → EventQueues
store h q s = record s { queues = Assoc.update h q s.queues }

abbrev pub with_scheduler : Scheduler → EventQueues → EventQueues
with_scheduler scheduler s = record s { machine = record s.machine { scheduler = scheduler } }

-- Create
unfoldable pub create : Bytes → EventQueues → EventQueues × KernelStatus × ℕ
create name s =
    let (handles, handle) = Handles.insert (some event_queue_object) s.machine.handles in
    if ltb maximum_event_queue_name_length (length name)
    then (s, invalid_argument, invalid_kernel_handle)
    else elim handle [
      | none ↦ (
        record s { machine = record s.machine { handles = handles } },
        no_resources,
        invalid_kernel_handle,
      )
      | some h ↦ (
        record s {
          machine = record s.machine { handles = handles };
          queues = Assoc.emplace h (new_queue name) s.queues;
        },
        kernel_ok,
        h,
      )
    ]

-- The loop of Delete over the waiters: what is left of them, and the scheduler.
unfoldable pub delete_waiters :
    ℕ → ℕ → List (ℕ × Waiter) → Scheduler → List (ℕ × Waiter) × Scheduler
delete_waiters now h [] scheduler = ([], scheduler)
delete_waiters now h ((t, w) ∷ waiters) scheduler =
    let (awake, _) = wake_blocked_thread now t (event_queue_key h) scheduler in
    let (kept, behind) = delete_waiters now h waiters scheduler in
    let (kept', behind') = delete_waiters now h waiters awake in
    let gone = record w { completion = deleted; events = [] } in
    if not (w.queue_handle == h)
    then ((t, w) ∷ kept, behind)
    else if is_waiting w
    then ((t, gone) ∷ kept', behind')
    else ((t, gone) ∷ kept, behind)

-- Delete
unfoldable pub delete : ℕ → ℕ → EventQueues → EventQueues × KernelStatus
delete now h s =
    let (handles, removed) = Handles.remove h event_queue s.machine.handles in
    let (waiters, scheduler) = delete_waiters now h s.waiters s.machine.scheduler in
    elim removed [
      | none ↦ (s, not_found)
      | some o ↦ (
        record {
          machine = record { handles = handles; scheduler = scheduler };
          waiters = waiters;
          queues = Assoc.erase h s.queues;
        },
        kernel_ok,
      )
    ]

-- Whether a waiter's deadline is reached.
abbrev pub is_due : ℕ → Option ℕ → Bool
is_due now none = false
is_due now (some deadline) = leb deadline now

-- ReserveWaitingThreadsLocked: the loop over the waiters, in the order of the threads' handles.
unfoldable pub reserve :
    ℕ → ℕ → EventQueue → List (ℕ × Waiter) → Scheduler → EventQueue × List (ℕ × Waiter) × Scheduler
reserve now h q [] scheduler = (q, [], scheduler)
reserve now h q ((t, w) ∷ waiters) scheduler =
    let (polled, events) = Queue.poll w.maximum_count q in
    let (awake, _) = wake_blocked_thread now t (event_queue_key h) scheduler in
    let (q', skipped, behind) = reserve now h q waiters scheduler in
    let (q'', kept, behind') = reserve now h polled waiters awake in
    if not (w.queue_handle == h) || not (is_waiting w)
    then (q', (t, w) ∷ skipped, behind)
    else if is_due now w.deadline_nanoseconds
    then (q', (t, w) ∷ skipped, behind)
    else elim events [
      | [] ↦ (polled, (t, w) ∷ waiters, scheduler)
      | ◌∷◌ e es ↦ (q'', (t, record w { completion = reserved; events = e ∷ es }) ∷ kept, behind')
    ]

abbrev pub reserve_for : ℕ → ℕ → EventQueue → EventQueues → EventQueues
reserve_for now h q s =
    let (q', waiters, scheduler) = reserve now h q s.waiters s.machine.scheduler in
    record {
      machine = record s.machine { scheduler = scheduler };
      waiters = waiters;
      queues = Assoc.update h q' s.queues;
    }

-- A method of the queue by its handle.
abbrev pub on_queue :
    ℕ
    → (EventQueue → EventQueue × KernelStatus)
    → Option EventQueue
    → EventQueues
    → EventQueues × KernelStatus
on_queue h method none s = (s, not_found)
on_queue h method (some q) s = let (q', status) = method q in (store h q' s, status)

abbrev pub register_status : ℕ → ℤ → ℕ → EventQueue → EventQueue × KernelStatus
register_status ident filter word q =
    let (q', status, generation) = register_event ident filter 0 word q in (q', status)

-- AddUserEvent, DeleteUserEvent
unfoldable pub add_user : ℕ → ℕ → Bool → EventQueues → EventQueues × KernelStatus
add_user h ident edge s = on_queue h (add_user_event ident edge) (find h s) s

unfoldable pub delete_user : ℕ → ℕ → EventQueues → EventQueues × KernelStatus
delete_user h ident s = on_queue h (delete_user_event ident) (find h s) s

abbrev pub reserve_if_ok :
    ℕ → ℕ → EventQueue × KernelStatus → EventQueues → EventQueues × KernelStatus
reserve_if_ok now h (q, kernel_ok) s = (reserve_for now h q s, kernel_ok)
reserve_if_ok now h (q, status) s = (store h q s, status)

-- TriggerUserEvent
unfoldable pub trigger_user : ℕ → ℕ → ℕ → ℕ → EventQueues → EventQueues × KernelStatus
trigger_user now h ident word s = elim (find h s) [
  | none ↦ (s, not_found)
  | some q ↦ reserve_if_ok now h (trigger_user_event ident word q) s
]

-- AddGraphicsEvent, DeleteGraphicsEvent, AddVideoOutEvent, DeleteVideoOutEvent
unfoldable pub add_graphics : ℕ → ℕ → ℕ → EventQueues → EventQueues × KernelStatus
add_graphics h ident word s =
    on_queue h (register_status ident event_filter_graphics word) (find h s) s

unfoldable pub delete_graphics : ℕ → ℕ → EventQueues → EventQueues × KernelStatus
delete_graphics h ident s = on_queue h (delete_event ident event_filter_graphics) (find h s) s

unfoldable pub add_video_out : ℕ → ℕ → ℕ → EventQueues → EventQueues × KernelStatus
add_video_out h ident word s =
    on_queue h (register_status ident event_filter_video_out word) (find h s) s

unfoldable pub delete_video_out : ℕ → ℕ → EventQueues → EventQueues × KernelStatus
delete_video_out h ident s = on_queue h (delete_event ident event_filter_video_out) (find h s) s

-- The loop of TriggerGraphicsEvents and TriggerVideoOutEvents over the queues of the map.
unfoldable pub trigger_each : ℕ → ℤ → ℕ → List (ℕ × EventQueue) → EventQueues → EventQueues × ℕ
trigger_each now filter word [] s = (s, 0)
trigger_each now filter word ((h, q) ∷ queues) s =
    let (q', triggered) = trigger_first_by_filter filter word q in
    let (after, count) = trigger_each now filter word queues (reserve_for now h q' s) in
    let (after', count') = trigger_each now filter word queues s in
    if triggered then (after, suc count) else (after', count')

unfoldable pub trigger_graphics : ℕ → ℕ → EventQueues → EventQueues × ℕ
trigger_graphics now word s = trigger_each now event_filter_graphics word s.queues s

unfoldable pub trigger_video_out : ℕ → ℕ → EventQueues → EventQueues × ℕ
trigger_video_out now word s = trigger_each now event_filter_video_out word s.queues s
