-- ===== src/Kernel/Scheduler/History.antt =====
-- Histories of calls of GuestScheduler and of the shared handle table, and the invariants.
use kaj_ps.Base.{ℕ, ◌≡◌, ◌≢◌, sym, ◌∙◌, true, false, some, arith, inl, inr, Option-cases}
use kaj_ps.Base.Assoc
use kaj_ps.Kernel.Handles
use kaj_ps.Kernel.Handles.{HandleTable}
use kaj_ps.Kernel.Handles.Inv as HandlesInv
use kaj_ps.Kernel.Objects.{KernelObject, KernelObjectType, thread_object, thread, same_type}
use kaj_ps.Kernel.Scheduler.Threads.{GuestThread, Scheduler, is_running, empty}
use kaj_ps.Kernel.Scheduler.Inv.{Inv, empty-Inv}
use kaj_ps.Kernel.Scheduler.Preserve.{
  yield_current-Inv, block_current-Inv, wake_blocked_threads-Inv, wake_blocked_thread-Inv,
  select_next-Inv, join_thread-Inv, exit_current-Inv, consume-Inv,
}
use kaj_ps.Kernel.Scheduler.Domain.{
  SameThreads, yield_current-has, block_current-has, wake_blocked_threads-has,
  wake_blocked_thread-has, select_next-has, join_thread-has, exit_current-has, consume-has,
}
use kaj_ps.Kernel.Scheduler.Lifetime.{create-Good, discard-Good}
use kaj_ps.Kernel.Scheduler.Machine.{
  Machine, Good, Step, creates, discards, selects, yields, blocks, wakes, wakes_one, joins, exits,
  consumes, inserts, removes, writes, Reach, here, next, start,
}

-- A method that keeps the set of threads.
keep_threads :
    (m : Machine) (s : Scheduler)
    → Inv s
    → SameThreads s m.scheduler
    → Good m
    → Good (record m { scheduler = s })
keep_threads m s v same g = record {
  table = g.table;
  threads = v;
  linked = λ k p. g.linked k (sym (same k) ∙ p);
}

insert-Good :
    (o : KernelObject) (m : Machine)
    → Good m
    → Good (record m { handles = (Handles.insert (some o) m.handles).0 })
insert-Good o m g = record {
  table = HandlesInv.insert-Inv (some o) m.handles g.table;
  threads = g.threads;
  linked = λ k p. elim (Option-cases (Handles.insert (some o) m.handles).1) [
    | inl e ↦ rw (HandlesInv.insert_refused-table o m.handles e) (g.linked k p)
    | inr (h, e) ↦ ground (arith, g.linked k p, HandlesInv.insert_entries o m.handles h k g.table e)
  ];
}

remove-Good :
    (h : ℕ) (type : KernelObjectType) (m : Machine)
    → same_type thread type ≡ false
    → Good m
    → Good (record m { handles = (Handles.remove h type m.handles).0 })
unfolding Handles.find
remove-Good h type m other g = record {
  table = HandlesInv.remove-Inv h type m.handles g.table;
  threads = g.threads;
  linked =
      λ k p. ground (arith, g.linked k p, g.linked h, HandlesInv.remove_entries h k type m.handles);
}

write-Good :
    (h : ℕ) (o : KernelObject) (m : Machine)
    → Assoc.find h m.handles.objects ≢ some thread_object
    → Good m
    → Good (record m { handles = Handles.write h o m.handles })
unfolding Handles.write
write-Good h o m other g = record {
  table = unfold Handles.write in HandlesInv.write-Inv h o m.handles g.table;
  threads = g.threads;
  linked = λ k p. ground (arith, g.linked k p, Assoc.find-update k h o m.handles.objects, other);
}

pub Step-Good : {m n : Machine} → Step m n → Good m → Good n
Step-Good {m} (creates name priority entry argument) g =
    create-Good name priority entry argument m g
Step-Good {m} (discards h) g = discard-Good h m g
Step-Good {m} (selects now) g =
    keep_threads m _ (select_next-Inv now m.scheduler g.threads) (select_next-has now m.scheduler) g
Step-Good {m} yields g =
    keep_threads m _ (yield_current-Inv m.scheduler g.threads) (yield_current-has m.scheduler) g
Step-Good {m} (blocks key deadline) g =
    keep_threads m _ (block_current-Inv key deadline m.scheduler g.threads)
      (block_current-has key deadline m.scheduler) g
Step-Good {m} (wakes now key maximum_count) g =
    keep_threads m _ (wake_blocked_threads-Inv now key maximum_count m.scheduler g.threads)
      (wake_blocked_threads-has now key maximum_count m.scheduler g.threads) g
Step-Good {m} (wakes_one now h key) g =
    keep_threads m _ (wake_blocked_thread-Inv now h key m.scheduler g.threads)
      (wake_blocked_thread-has now h key m.scheduler) g
Step-Good {m} (joins h) g =
    keep_threads m _ (join_thread-Inv h m.scheduler g.threads) (join_thread-has h m.scheduler) g
Step-Good {m} (exits value) g =
    keep_threads m _ (exit_current-Inv value m.scheduler g.threads)
      (exit_current-has value m.scheduler) g
Step-Good {m} (consumes key) g =
    keep_threads m _ (consume-Inv key m.scheduler g.threads) (consume-has key m.scheduler) g
Step-Good {m} (inserts o) g = insert-Good o m g
Step-Good {m} (removes h type other) g = remove-Good h type m other g
Step-Good {m} (writes h o other) g = write-Good h o m other g

start-Good : Good start
unfolding empty Assoc.find
start-Good = record { table = HandlesInv.empty-Inv; threads = empty-Inv; linked = λ h p. cc }

pub Reach-Good : {m n : Machine} → Good m → Reach m n → Good n
Reach-Good g here = g
Reach-Good g (next r s) = Step-Good s (Reach-Good g r)

-- From a new scheduler and handle table, whatever calls were made, by whatever clock: the invariants
-- of the handle table and of the scheduler hold, and every thread has its entry in the table.
pub reachable-Good : {n : Machine} → Reach start n → Good n
reachable-Good r = Reach-Good start-Good r

-- At most one thread runs at any time, and it is the current thread: in every reachable state two
-- running threads are one.
pub one_thread_runs :
    {n : Machine} (h k : ℕ) (t u : GuestThread)
    → Reach start n
    → Assoc.find h n.scheduler.threads ≡ some t
    → is_running t.state ≡ true
    → Assoc.find k n.scheduler.threads ≡ some u
    → is_running u.state ≡ true
    → (h ≡ k) × (n.scheduler.current_thread ≡ some h)
one_thread_runs {n} h k t u r ft rt fu ru =
    let v = (reachable-Good r).threads in ground (arith, v.current h, v.current k)
