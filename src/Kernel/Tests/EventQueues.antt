-- ===== src/Kernel/Tests/EventQueues.antt =====
-- The event queue service at concrete inputs: thread 2 runs, and thread 1 waits for the queue of handle 4.
use kaj_ps.Base.{◌+◌, ◌*◌, ◌-◌, ◌^◌, ◌≡◌, refl, none, some, [], ◌∷◌, arith, min, false, count}
use kaj_ps.Base.Text.{codes}
use kaj_ps.Base.Assoc
use kaj_ps.Kernel.Status.{kernel_ok, permission_denied}
use kaj_ps.Kernel.WaitKeys.{event_queue_key}
use kaj_ps.Kernel.Objects.{thread_object, event_queue_object, semaphore_object}
use kaj_ps.Kernel.Handles
use kaj_ps.Kernel.Scheduler.Threads.{running, blocked_on, wake_expired, wake_all}
use kaj_ps.Kernel.Scheduler.Methods.{running_current, block_current, select_next, select_loop}
use kaj_ps.Kernel.Scheduler.Machine.{Machine, Good, next, inserts, blocks, selects}
use kaj_ps.Kernel.Scheduler.History.{reachable-Good}
use kaj_ps.Kernel.Scheduler.WakeOne.{IsReady}
use kaj_ps.Kernel.EventQueue.{new_queue}
use kaj_ps.Kernel.EventQueue.Service.{EventQueues, Waiter, waiting, delete, with_scheduler}
use kaj_ps.Kernel.EventQueue.Waits.{wait, without_waiter, deadline_of}
use kaj_ps.Kernel.EventQueue.Wakes.{deadline_of_lem, delete_ends_wait}
use kaj_ps.Kernel.Tests.World.{world, world-Reach, pool, first_thread, second_thread}

abbrev a_waiter : Waiter
a_waiter = record {
  queue_handle = 4;
  maximum_count = 4;
  deadline_nanoseconds = none;
  completion = waiting;
  events = [];
}

abbrev a_machine : Machine
a_machine = record {
  handles = record {
    objects =
        (1, thread_object)
        ∷ (2, thread_object)
        ∷ (3, semaphore_object pool)
        ∷ (4, event_queue_object)
        ∷ [];
    next_handle = 5;
    exhausted = false;
  };
  scheduler = record {
    threads =
        (1, blocked_on (event_queue_key 4) none first_thread)
        ∷ (2, record second_thread { state = running })
        ∷ [];
    ready_threads = [];
    current_thread = some 2;
  };
}

a_machine-Good : Good a_machine
unfolding Handles.insert Assoc.emplace block_current running_current select_next select_loop
    wake_expired wake_all Assoc.find Assoc.update event_queue_key
a_machine-Good = reachable-Good (
    next (next (next world-Reach (inserts event_queue_object)) (blocks (event_queue_key 4) none))
      (selects 0))

abbrev a_service : EventQueues
a_service = record {
  machine = a_machine;
  waiters = (1, a_waiter) ∷ [];
  queues = (4, new_queue (codes "queue")) ∷ [];
}

deadline_of_lem_example : deadline_of 5000 7 ≡ min (5000 + 7 * 1000) (2 ^ 64 - 1)
deadline_of_lem_example = deadline_of_lem 5000 7 (omega arith) (omega arith)

queue_deleted : (delete 0 4 a_service).1 ≡ kernel_ok
unfolding delete Handles.remove Assoc.find
queue_deleted = refl

-- Thread 1 runs again in the scheduler of `world`.
delete_ends_wait_example :
    let s = (delete 0 4 a_service).0 in
    let later = with_scheduler world.scheduler s in
    IsReady 1 s.machine.scheduler
    × (count 1 s.machine.scheduler.ready_threads ≡ 1)
    × (wait 9 4 4 none later ≡ (without_waiter 1 later, permission_denied, []))
unfolding Assoc.find
delete_ends_wait_example =
    delete_ends_wait 0 9 4 4 1 none a_waiter (blocked_on (event_queue_key 4) none first_thread)
      world.scheduler a_service a_machine-Good (omega arith) refl refl refl refl refl refl
      queue_deleted refl
