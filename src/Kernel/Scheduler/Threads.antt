-- ===== src/Kernel/Scheduler/Threads.antt =====
-- The state of src/kernel/guest_scheduler.h, and the loops of src/kernel/guest_scheduler.cpp that wake
-- threads. What such a loop reads of an entry is not changed by its writes to the others, so it
-- rebuilds the map entry by entry and collects the handles that the source pushes onto the queue.
use kaj_ps.Base.{
  ℕ, zero, suc, ◌&&◌, Bool, true, false, List, [], ◌∷◌, ◌++◌, Option, none, some, leb,
  if◌then◌else◌,
}
use kaj_ps.Base.Int.{ℤ}
use kaj_ps.Base.Text.{Bytes, bytes_eq}

abbrev pub maximum_guest_thread_name_length : ℕ
maximum_guest_thread_name_length = 31

pub data GuestThreadState : Type 0 where
  ready running blocked exited : GuestThreadState

pub record GuestThread : Type 0 where
  pub name : Bytes
  pub priority : ℤ
  pub state : GuestThreadState
  pub wait_key : Bytes
  pub exit_value : ℕ
  pub entry_address : ℕ
  pub argument : ℕ
  pub wait_deadline_nanoseconds : Option ℕ
  pub timed_out_wait_key : Bytes

pub record Scheduler : Type 0 where
  pub threads : List (ℕ × GuestThread)
  pub ready_threads : List ℕ
  pub current_thread : Option ℕ

unfoldable pub empty : Scheduler
empty = record { threads = []; ready_threads = []; current_thread = none }

abbrev pub is_ready : GuestThreadState → Bool
is_ready ready = true
is_ready _ = false

abbrev pub is_running : GuestThreadState → Bool
is_running running = true
is_running _ = false

abbrev pub is_blocked : GuestThreadState → Bool
is_blocked blocked = true
is_blocked _ = false

abbrev pub is_exited : GuestThreadState → Bool
is_exited exited = true
is_exited _ = false

-- GuestThread's constructor
abbrev pub new_thread : Bytes → ℤ → ℕ → ℕ → GuestThread
new_thread name priority entry argument = record {
  name = name;
  priority = priority;
  state = ready;
  wait_key = [];
  exit_value = 0;
  entry_address = entry;
  argument = argument;
  wait_deadline_nanoseconds = none;
  timed_out_wait_key = [];
}

-- The four writes by which WakeBlockedThreads, WakeBlockedThread and ExitCurrent wake a thread.
abbrev pub woken : GuestThread → GuestThread
woken t = record t {
  state = ready;
  wait_key = [];
  wait_deadline_nanoseconds = none;
  timed_out_wait_key = [];
}

-- The writes of WakeExpiredThreadsLocked.
abbrev pub expired : GuestThread → GuestThread
expired t = record t {
  state = ready;
  timed_out_wait_key = t.wait_key;
  wait_key = [];
  wait_deadline_nanoseconds = none;
}

-- The writes of BlockCurrentLocked.
abbrev pub blocked_on : Bytes → Option ℕ → GuestThread → GuestThread
blocked_on key deadline t = record t {
  state = blocked;
  wait_key = key;
  wait_deadline_nanoseconds = deadline;
  timed_out_wait_key = [];
}

abbrev has_passed : ℕ → Option ℕ → Bool
has_passed now none = false
has_passed now (some d) = leb d now

abbrev pub is_expired : ℕ → GuestThread → Bool
is_expired now t = is_blocked t.state && has_passed now t.wait_deadline_nanoseconds

abbrev pub waits_on : Bytes → GuestThread → Bool
waits_on key t = is_blocked t.state && bytes_eq t.wait_key key

-- A loop over all threads that changes those that pass the test and queues their handles.
unfoldable pub wake_all :
    (GuestThread → Bool)
    → (GuestThread → GuestThread)
    → List (ℕ × GuestThread)
    → List (ℕ × GuestThread) × List ℕ
wake_all test change [] = ([], [])
wake_all test change ((h, t) ∷ m) =
    let (rest, queued) = wake_all test change m in
    if test t then ((h, change t) ∷ rest, h ∷ queued) else ((h, t) ∷ rest, queued)

-- The same with the break at `wake_count == maximum_count`; `left` is the difference of the two.
unfoldable pub wake_some :
    ℕ
    → (GuestThread → Bool)
    → (GuestThread → GuestThread)
    → List (ℕ × GuestThread)
    → List (ℕ × GuestThread) × List ℕ
wake_some left test change [] = ([], [])
wake_some zero test change ((h, t) ∷ m) = ((h, t) ∷ m, [])
wake_some (suc left) test change ((h, t) ∷ m) =
    let (rest, queued) = wake_some (if test t then left else suc left) test change m in
    if test t then ((h, change t) ∷ rest, h ∷ queued) else ((h, t) ∷ rest, queued)

abbrev pub requeue : Scheduler → List (ℕ × GuestThread) × List ℕ → Scheduler
requeue s (threads, queued) = record s {
  threads = threads;
  ready_threads = s.ready_threads ++ queued;
}

-- WakeExpiredThreadsLocked
unfoldable pub wake_expired : ℕ → Scheduler → Scheduler
wake_expired now s = requeue s (wake_all (is_expired now) expired s.threads)
