-- ===== src/Kernel/Tests/Services.antt =====
-- Event flags, event queues, static initialisation guards and the process lifecycle at concrete inputs.
use Prim.Native.Nat.{bit_or}
use kaj_ps.Base.{
  List, ◌≡◌, refl, true, false, none, some, [], ◌∷◌, arith, count, length, min, ◌++◌, not, ◌≤◌,
}
use kaj_ps.Base.Int.{pos}
use kaj_ps.Base.Text.{codes}
use kaj_ps.Base.Assoc
use kaj_ps.Kernel.Status.{kernel_ok, would_block}
use kaj_ps.Kernel.WaitKeys.{cxa_guard_key}
use kaj_ps.Kernel.Objects.{EventFlag, semaphore_object, event_flag_object, thread_object}
use kaj_ps.Kernel.Handles
use kaj_ps.Kernel.Scheduler.Threads.{running, blocked_on, is_ready, wake_expired, wake_all}
use kaj_ps.Kernel.Scheduler.Methods.{
  running_current, block_current, select_next, select_loop, wake_blocked_threads,
}
use kaj_ps.Kernel.Scheduler.Inv.{has_state}
use kaj_ps.Kernel.Scheduler.Machine.{Machine, Good, next, inserts, blocks, selects, wake_waiting}
use kaj_ps.Kernel.Scheduler.History.{reachable-Good}
use kaj_ps.Kernel.EventFlag.{find, set, wait, decode_wait_mode, wait_all, clear_pattern}
use kaj_ps.Kernel.EventFlag.Service.{set_ends_wait}
use kaj_ps.Kernel.CxaGuard.{Guards, acquire, complete, complete_hands_over}
use kaj_ps.Kernel.CxaGuard.History.{
  Call, acquires, completes, elsewhere, is_exclusive, last_initializer, perform, perform_all,
  one_initializer,
}
use kaj_ps.Kernel.ProcessLifecycle.{
  GuestCxaDestructor, new_process, callback_count, registers_atexit, exits, call, calls,
  first_exit_counts, calls-callback_count, maximum_process_exit_callbacks,
}
use kaj_ps.Kernel.EventQueue
use kaj_ps.Kernel.EventQueue.{RegisteredKernelEvent, new_queue, erase_if, event_filter_user}
use kaj_ps.Kernel.EventQueue.Pending.{Current, poll_fifo}
use kaj_ps.Kernel.EventQueue.History.{
  QueueCall, registers_event, triggers_user_event, deletes_event, run_calls, run_call,
  polled_events-Current,
}
use kaj_ps.Kernel.Tests.World.{world, world-Reach, pool, first_thread, second_thread}

abbrev flag : EventFlag
flag = record { name = codes "flag"; attributes = 0x11; bits = 5 }

-- The event flag is handle 4.
abbrev flagged : Machine
flagged = record world {
  handles = record {
    objects =
        (1, thread_object)
        ∷ (2, thread_object)
        ∷ (3, semaphore_object pool)
        ∷ (4, event_flag_object flag)
        ∷ [];
    next_handle = 5;
    exhausted = false;
  };
}

flagged-Good : Good flagged
unfolding Handles.insert Assoc.emplace
flagged-Good = reachable-Good (next world-Reach (inserts (event_flag_object flag)))

set_ends_wait_example :
    let (waiting, result, _) = wait 4 3 0x21 flagged in
    let (m, status) = set 0 4 2 waiting in
    (result ≡ would_block)
    × (status ≡ kernel_ok)
    × (find 4 m ≡ some (record flag { bits = bit_or 5 2 }))
    × (has_state (λ u. is_ready u.state) (Assoc.find 1 m.scheduler.threads) ≡ true)
    × (count 1 m.scheduler.ready_threads ≡ 1)
unfolding find Handles.find Assoc.find running_current decode_wait_mode
set_ends_wait_example =
    set_ends_wait 0 4 1 3 0x21 2 flagged flag first_thread wait_all clear_pattern flagged-Good refl
      refl (λ e. omega (arith, e)) refl refl

-- Thread 1 waits for the guard of thread 2, which runs.
abbrev guarded : Machine
guarded = record world {
  scheduler = record {
    threads =
        (1, blocked_on (cxa_guard_key 256) none first_thread)
        ∷ (2, record second_thread { state = running })
        ∷ [];
    ready_threads = [];
    current_thread = some 2;
  };
}

guarded-Good : Good guarded
unfolding block_current running_current select_next select_loop wake_expired wake_all Assoc.find
    Assoc.update cxa_guard_key
guarded-Good =
    reachable-Good (next (next world-Reach (blocks (cxa_guard_key 256) none)) (selects 0))

complete_hands_over_example :
    let (g, status) = complete 0 256 (record { owners = (256, 2) ∷ []; machine = guarded }) in
    let (h, result, should_initialize) = acquire 256 false (record g { machine = world }) in
    (status ≡ kernel_ok)
    × (has_state (λ u. is_ready u.state) (Assoc.find 1 g.machine.scheduler.threads) ≡ true)
    × (count 1 g.machine.scheduler.ready_threads ≡ 1)
    × (result ≡ kernel_ok)
    × (should_initialize ≡ true)
    × (Assoc.find 256 h.owners ≡ some 1)
unfolding Assoc.find
complete_hands_over_example =
    complete_hands_over 0 256 2 1 1 (blocked_on (cxa_guard_key 256) none first_thread)
      (record { owners = (256, 2) ∷ []; machine = guarded }) world guarded-Good
      (λ e. omega (arith, e)) refl refl refl refl refl refl

-- Thread 1 starts to initialise and loses the processor; thread 2 asks for the guard and blocks;
-- thread 1 runs again and ends by Abort, and thread 2 starts anew.
abbrev guard_calls : List Call
guard_calls =
    acquires 256 false
    ∷ elsewhere guarded
    ∷ acquires 256 false
    ∷ elsewhere world
    ∷ completes 0 256
    ∷ elsewhere guarded
    ∷ acquires 256 false
    ∷ []

abbrev no_guards : Guards
no_guards = record { owners = []; machine = world }

-- Thread 2 was told to initialise last.
second_starts : last_initializer 256 none guard_calls no_guards ≡ some 2
unfolding last_initializer perform acquire complete Assoc.find Assoc.emplace Assoc.erase
    block_current running_current wake_waiting wake_blocked_threads cxa_guard_key
second_starts = refl

one_initializer_example :
    (is_exclusive 256 none guard_calls no_guards ≡ true)
    × (Assoc.find 256 (perform_all guard_calls no_guards).owners
        ≡ last_initializer 256 none guard_calls no_guards)
unfolding Assoc.find
one_initializer_example = one_initializer 256 guard_calls no_guards (λ e. omega (arith, e)) refl

abbrev destructor : GuestCxaDestructor
destructor = record { function = 4096; argument = 8; dso = 2 }

first_exit_counts_example :
    (calls
      (exits (pos 2) ∷ registers_atexit 4096 ∷ [])
      (call (exits (pos 1)) new_process)).exit_request
    ≡ record { requested = true; status = pos 1 }
unfolding new_process
first_exit_counts_example =
    first_exit_counts (pos 1) (exits (pos 2) ∷ registers_atexit 4096 ∷ []) new_process refl

calls-callback_count_example :
    callback_count (calls (registers_atexit 4096 ∷ exits (pos 1) ∷ []) new_process)
    ≤ maximum_process_exit_callbacks
calls-callback_count_example = calls-callback_count (registers_atexit 4096 ∷ exits (pos 1) ∷ [])

-- The event of 7 stays, the one of 8 goes with its registration.
abbrev queue_calls : List QueueCall
queue_calls =
    registers_event 7 event_filter_user 0x21 0
    ∷ registers_event 8 event_filter_user 0x21 0
    ∷ triggers_user_event 8 1
    ∷ triggers_user_event 7 1
    ∷ deletes_event 8 event_filter_user
    ∷ []

one_reported : length (EventQueue.poll 4 (run_calls queue_calls (new_queue (codes "queue")))).1 ≡ 1
unfolding run_calls run_call EventQueue.poll EventQueue.register_event EventQueue.delete_event
    EventQueue.trigger_user_event new_queue erase_if EventQueue.find_if EventQueue.put
    EventQueue.split_at
one_reported = refl

polled_events-Current_example :
    let q = run_calls queue_calls (new_queue (codes "queue")) in
    Current q.registrations (EventQueue.poll 4 q).1
polled_events-Current_example = polled_events-Current (codes "queue") queue_calls 4

poll_fifo_example :
    let q = run_calls queue_calls (new_queue (codes "queue")) in
    let (q', events) = EventQueue.poll 4 q in
    (length events ≡ min 4 (length q.pending_events))
    × ((others : List RegisteredKernelEvent) × (q.pending_events ≡ events ++ others)
        × (q'.pending_events ≡ others ++ erase_if (λ e. not e.persistent) events))
    × (q'.registrations ≡ q.registrations)
poll_fifo_example = poll_fifo 4 (run_calls queue_calls (new_queue (codes "queue")))
