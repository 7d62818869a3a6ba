-- ===== src/Kernel/Tests/World.antt =====
-- Two threads and a semaphore: thread 1 runs, thread 2 is ready, and the semaphore is handle 3.
use kaj_ps.Base.{[], ◌∷◌, some, false}
use kaj_ps.Base.Int.{pos}
use kaj_ps.Base.Text.{codes}
use kaj_ps.Base.Assoc
use kaj_ps.Kernel.Objects.{Semaphore, semaphore_object, thread_object}
use kaj_ps.Kernel.Handles
use kaj_ps.Kernel.Handles.{HandleTable}
use kaj_ps.Kernel.Scheduler.Threads.{
  GuestThread, running, new_thread, empty, wake_expired, wake_all,
}
use kaj_ps.Kernel.Scheduler.Methods.{create_thread, select_next, select_loop}
use kaj_ps.Kernel.Scheduler.Machine.{
  Machine, Good, Reach, here, next, creates, inserts, selects, start, create,
}
use kaj_ps.Kernel.Scheduler.History.{reachable-Good}

abbrev pub first_thread : GuestThread
first_thread = record (new_thread (codes "main") (pos 700) 4096 0) { state = running }

abbrev pub second_thread : GuestThread
second_thread = new_thread (codes "worker") (pos 700) 8192 1

-- Two of four are taken.
abbrev pub pool : Semaphore
pool = record { name = codes "pool"; attributes = 1; maximum_count = pos 4; count = pos 2 }

abbrev pub world : Machine
world = record {
  handles = record {
    objects = (1, thread_object) ∷ (2, thread_object) ∷ (3, semaphore_object pool) ∷ [];
    next_handle = 4;
    exhausted = false;
  };
  scheduler = record {
    threads = (1, first_thread) ∷ (2, second_thread) ∷ [];
    ready_threads = 2 ∷ [];
    current_thread = some 1;
  };
}

pub world-Reach : Reach start world
unfolding create create_thread Handles.insert Handles.empty empty select_next select_loop
    wake_expired wake_all Assoc.emplace Assoc.find Assoc.update
world-Reach =
    next
      (next
        (next (next here (creates (codes "main") (pos 700) 4096 0))
          (creates (codes "worker") (pos 700) 8192 1))
        (inserts (semaphore_object pool)))
      (selects 0)

pub world-Good : Good world
world-Good = reachable-Good world-Reach
