-- ===== src/Kernel/Scheduler/Machine.antt =====
-- The scheduler of src/kernel/guest_scheduler.cpp with the handle table of src/kernel/handle_table.cpp that
-- it shares with the other services, as a step relation.
use kaj_ps.Base.{◌-◌, ◌^◌, ℕ, ◌≡◌, ◌≢◌, false, Option, some}
use kaj_ps.Base.Int.{ℤ}
use kaj_ps.Base.Text.{Bytes}
use kaj_ps.Base.Assoc
use kaj_ps.Kernel.Handles
use kaj_ps.Kernel.Handles.{HandleTable}
use kaj_ps.Kernel.Handles.Inv as HandlesInv
use kaj_ps.Kernel.Objects.{KernelObject, KernelObjectType, thread_object, thread, same_type}
use kaj_ps.Kernel.Scheduler.Threads.{Scheduler, empty}
use kaj_ps.Kernel.Scheduler.Methods.{
  create_thread, discard_ready_thread, select_next, yield_current, block_current,
  wake_blocked_threads, wake_blocked_thread, join_thread, exit_current,
  consume_current_thread_timeout,
}
use kaj_ps.Kernel.Scheduler.Inv.{Inv, Linked}

-- The scheduler and the handle table that it shares with the services.
pub record Machine : Type 0 where
  pub handles : HandleTable
  pub scheduler : Scheduler

pub record Good (m : Machine) : Type 0 where
  pub table : HandlesInv.Inv m.handles
  pub threads : Inv m.scheduler
  pub linked : Linked m.handles m.scheduler

-- CreateThread and DiscardReadyThread as steps of the machine.
unfoldable pub create : Bytes → ℤ → ℕ → ℕ → Machine → Machine
create name priority entry argument m =
    let (handles, scheduler, _, _) =
      create_thread name priority entry argument m.handles m.scheduler in
    record { handles = handles; scheduler = scheduler }

unfoldable pub discard : ℕ → Machine → Machine
discard h m =
    let (handles, scheduler, _) = discard_ready_thread h m.handles m.scheduler in
    record { handles = handles; scheduler = scheduler }

-- One call: of a method of the scheduler, with any clock, or by another client of the table, which
-- neither makes nor touches the entry of a thread.
pub data Step (m : Machine) : Machine → Type 0 where
  creates :
      (name : Bytes) (priority : ℤ) (entry argument : ℕ)
      → Step m (create name priority entry argument m)
  discards : (h : ℕ) → Step m (discard h m)
  selects : (now : ℕ) → Step m (record m { scheduler = (select_next now m.scheduler).0 })
  yields : Step m (record m { scheduler = (yield_current m.scheduler).0 })
  blocks :
      (key : Bytes) (deadline : Option ℕ)
      → Step m (record m { scheduler = (block_current key deadline m.scheduler).0 })
  wakes :
      (now : ℕ) (key : Bytes) (maximum_count : ℕ)
      → Step m (record m { scheduler = (wake_blocked_threads now key maximum_count m.scheduler).0 })
  wakes_one :
      (now h : ℕ) (key : Bytes)
      → Step m (record m { scheduler = (wake_blocked_thread now h key m.scheduler).0 })
  joins : (h : ℕ) → Step m (record m { scheduler = (join_thread h m.scheduler).0 })
  exits : (value : ℕ) → Step m (record m { scheduler = (exit_current value m.scheduler).0 })
  consumes :
      (key : Bytes)
      → Step m (record m { scheduler = (consume_current_thread_timeout key m.scheduler).0 })
  inserts :
      (o : KernelObject) → Step m (record m { handles = (Handles.insert (some o) m.handles).0 })
  removes :
      (h : ℕ) (type : KernelObjectType)
      → same_type thread type ≡ false
      → Step m (record m { handles = (Handles.remove h type m.handles).0 })
  writes :
      (h : ℕ) (o : KernelObject)
      → Assoc.find h m.handles.objects ≢ some thread_object
      → Step m (record m { handles = Handles.write h o m.handles })

pub data Reach (m : Machine) : Machine → Type 0 where
  here : Reach m m
  next : {n o : Machine} → Reach m n → Step n o → Reach m o

abbrev pub start : Machine
start = record { handles = Handles.empty; scheduler = empty }

-- std::numeric_limits<std::size_t>::max(), the default limit of WakeBlockedThreads
abbrev pub no_limit : ℕ
no_limit = 2 ^ 64 - 1

-- The call by which the services wake all threads that wait on a key.
unfoldable pub wake_waiting : ℕ → Bytes → Machine → Machine
wake_waiting now key m = record m {
  scheduler = (wake_blocked_threads now key no_limit m.scheduler).0;
}
