-- ===== src/Kernel/Tests/Scheduler.antt =====
-- The scheduler at concrete inputs.
use kaj_ps.Base.{ℕ, ◌≡◌, refl, [], ◌∷◌, none, some, count, true}
use kaj_ps.Base.Assoc
use kaj_ps.Kernel.Status.{kernel_ok}
use kaj_ps.Kernel.WaitKeys.{thread_exit_key}
use kaj_ps.Kernel.Scheduler.Threads.{
  Scheduler, ready, running, wake_all, wake_expired, woken, blocked_on,
}
use kaj_ps.Kernel.Scheduler.Methods.{
  select_next, select_loop, running_current, yield_current, join_thread, exit_current, as_exited,
}
use kaj_ps.Kernel.Scheduler.Machine.{Good, next, yields, selects, joins}
use kaj_ps.Kernel.Scheduler.History.{reachable-Good, one_thread_runs}
use kaj_ps.Kernel.Scheduler.Order.{rounds, rounds_serve}
use kaj_ps.Kernel.Scheduler.Blocking.{exit_current_lem, join_woken_by_exit}
use kaj_ps.Kernel.Tests.World.{world, world-Reach, first_thread, second_thread}

reachable-Good_example : Good world
reachable-Good_example = reachable-Good world-Reach

one_thread_runs_example : (◌≡◌ {A = ℕ} 1 1) × (world.scheduler.current_thread ≡ some 1)
unfolding Assoc.find
one_thread_runs_example =
    one_thread_runs 1 1 first_thread first_thread world-Reach refl refl refl refl

-- Thread 1 has yielded.
abbrev yielded : Scheduler
yielded = record {
  threads = (1, record first_thread { state = ready }) ∷ (2, second_thread) ∷ [];
  ready_threads = 2 ∷ 1 ∷ [];
  current_thread = none;
}

yielded-Good : Good (record world { scheduler = yielded })
unfolding yield_current running_current Assoc.find Assoc.update
yielded-Good = reachable-Good (next world-Reach yields)

rounds_serve_example : (select_next 7 (rounds (λ n. n) 1 yielded)).1 ≡ some 1
rounds_serve_example = rounds_serve (λ n. n) 7 (2 ∷ []) 1 [] yielded yielded-Good.threads refl refl

-- Thread 1 waits for the exit of thread 2, which runs.
abbrev joined : Scheduler
joined = record {
  threads = (1, blocked_on (thread_exit_key 2) none first_thread) ∷ (2, second_thread) ∷ [];
  ready_threads = 2 ∷ [];
  current_thread = none;
}

abbrev joined_running : Scheduler
joined_running = record {
  threads =
      (1, blocked_on (thread_exit_key 2) none first_thread)
      ∷ (2, record second_thread { state = running })
      ∷ [];
  ready_threads = [];
  current_thread = some 2;
}

joined-Good : Good (record world { scheduler = joined_running })
unfolding join_thread running_current select_next select_loop wake_expired wake_all Assoc.find
    Assoc.update
joined-Good = reachable-Good (next (next world-Reach (joins 2)) (selects 0))

exit_current_lem_example :
    let (s, done) = exit_current 5 joined_running in
    (done ≡ true)
    × (s.current_thread ≡ none)
    × (Assoc.find 2 s.threads ≡ some (as_exited 5 (record second_thread { state = running })))
    × (join_thread 2 s ≡ (s, kernel_ok, 5))
unfolding running_current Assoc.find
exit_current_lem_example =
    exit_current_lem 5 2 2 (record second_thread { state = running }) joined_running refl

join_woken_by_exit_example :
    let waiting = blocked_on (thread_exit_key 2) none first_thread in
    (Assoc.find 1 joined.threads ≡ some waiting)
    × (joined.current_thread ≡ none)
    × (Assoc.find 1 (exit_current 5 joined_running).0.threads ≡ some (woken waiting))
    × (count 1 (exit_current 5 joined_running).0.ready_threads ≡ 1)
unfolding running_current join_thread Assoc.find Assoc.update
join_woken_by_exit_example =
    join_woken_by_exit 5 2 1 first_thread (record second_thread { state = running }) world.scheduler
      joined joined_running refl refl joined-Good.threads refl refl
