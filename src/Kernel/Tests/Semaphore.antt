-- ===== src/Kernel/Tests/Semaphore.antt =====
-- The semaphore service at concrete inputs.
use kaj_ps.Base.{[], ◌∷◌, ◌≡◌, refl, ◌⊎◌, ◌↔◌, none, some, count, arith, true}
use kaj_ps.Base.Int.{pos, ◌+ℤ◌, ◌-ℤ◌, ◌≤ℤ◌}
use kaj_ps.Base.Assoc
use kaj_ps.Kernel.Status.{kernel_ok, invalid_argument, would_block}
use kaj_ps.Kernel.WaitKeys.{semaphore_key}
use kaj_ps.Kernel.Handles
use kaj_ps.Kernel.Scheduler.Threads.{blocked_on, is_ready}
use kaj_ps.Kernel.Scheduler.Methods.{running_current, block_current}
use kaj_ps.Kernel.Scheduler.Inv.{has_state}
use kaj_ps.Kernel.Scheduler.Machine.{Machine, Good, next, blocks}
use kaj_ps.Kernel.Scheduler.History.{reachable-Good}
use kaj_ps.Kernel.Semaphore.{find, signal, wait, signal_count}
use kaj_ps.Kernel.Semaphore.Counts.{Inv, IsInt32, signal_count_lem}
use kaj_ps.Kernel.Semaphore.Service.{signal_wakes_waiters}
use kaj_ps.Kernel.Semaphore.Waiting.{wait_blocks, signal_ends_wait}
use kaj_ps.Kernel.Semaphore.History.{Safe, waits, perform, perform-Safe}
use kaj_ps.Kernel.Tests.World.{world, world-Good, world-Reach, pool, first_thread, second_thread}

pool-Inv : Inv pool
pool-Inv = omega arith

signal_count_lem_example :
    let (s, status) = signal_count (pos 2) pool in
    Inv s
    × IsInt32 (pos 4 -ℤ pos 2)
    × ((status ≡ kernel_ok) ↔ ((pos 1 ≤ℤ pos 2) × (pos 2 +ℤ pos 2 ≤ℤ pos 4)))
    × ((status ≡ kernel_ok) × (s.count ≡ pos 2 +ℤ pos 2) × IsInt32 (pos 2 +ℤ pos 2)
        ⊎ (status ≡ invalid_argument) × (s ≡ pool))
signal_count_lem_example = signal_count_lem (pos 2) pool pool-Inv

-- Thread 1 waits on the semaphore.
abbrev waiting : Machine
waiting = record world {
  scheduler = record {
    threads = (1, blocked_on (semaphore_key 3) none first_thread) ∷ (2, second_thread) ∷ [];
    ready_threads = 2 ∷ [];
    current_thread = none;
  };
}

waiting-Good : Good waiting
unfolding block_current running_current Assoc.find Assoc.update semaphore_key
waiting-Good = reachable-Good (next world-Reach (blocks (semaphore_key 3) none))

signal_wakes_waiters_example :
    let (m, status) = signal 0 3 (pos 1) waiting in
    (status ≡ kernel_ok)
    × (find 3 m ≡ some (record pool { count = pos 2 +ℤ pos 1 }))
    × (has_state (λ u. is_ready u.state) (Assoc.find 1 m.scheduler.threads) ≡ true)
    × (count 1 m.scheduler.ready_threads ≡ 1)
unfolding find Handles.find Assoc.find ◌+ℤ◌
signal_wakes_waiters_example =
    signal_wakes_waiters 0 3 1 (pos 1) waiting pool (blocked_on (semaphore_key 3) none first_thread)
      waiting-Good refl pool-Inv (omega arith) (omega arith) refl refl refl

wait_blocks_example :
    let (m, status, remaining) = wait 3 (pos 3) world in
    (status ≡ would_block)
    × (remaining ≡ pos 2)
    × (find 3 m ≡ find 3 world)
    × (Assoc.find 1 m.scheduler.threads ≡ some (blocked_on (semaphore_key 3) none first_thread))
    × (m.scheduler.current_thread ≡ none)
unfolding find Handles.find Assoc.find running_current ◌+ℤ◌
wait_blocks_example =
    wait_blocks 3 1 3 (pos 3) world pool first_thread refl pool-Inv (omega arith) (omega arith)
      (omega arith) refl

signal_ends_wait_example :
    let (sleeping, result, _) = wait 3 (pos 3) world in
    let (m, status) = signal 0 3 (pos 1) sleeping in
    (result ≡ would_block)
    × (status ≡ kernel_ok)
    × (find 3 m ≡ some (record pool { count = pos 2 +ℤ pos 1 }))
    × (has_state (λ u. is_ready u.state) (Assoc.find 1 m.scheduler.threads) ≡ true)
    × (count 1 m.scheduler.ready_threads ≡ 1)
unfolding find Handles.find Assoc.find running_current ◌+ℤ◌
signal_ends_wait_example =
    signal_ends_wait 0 3 1 (pos 3) (pos 1) world pool first_thread world-Good refl pool-Inv
      (omega arith) (omega arith) (omega arith) refl (omega arith) (omega arith)

world-Safe : Safe world
unfolding find Handles.find Assoc.find
world-Safe = record { good = world-Good; valid = λ h s e. ground arith }

perform-Safe_example : Safe (perform (waits 3 (pos 3)) world)
perform-Safe_example = perform-Safe (waits 3 (pos 3)) world tt world-Safe
