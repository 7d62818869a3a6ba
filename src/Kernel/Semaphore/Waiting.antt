-- ===== src/Kernel/Semaphore/Waiting.antt =====
-- SemaphoreService::Wait, alone and with the Signal that ends it.
use kaj_ps.Base.{
  ℕ, ◌≡◌, ◌∙◌, refl, true, none, some, arith, inl, inr, Option-cases, Bool-cases, count,
}
use kaj_ps.Base.Int.{ℤ, pos, ◌≤ℤ◌, ◌+ℤ◌}
use kaj_ps.Base.Assoc
use kaj_ps.Kernel.Status.{KernelStatus, kernel_ok, busy, would_block}
use kaj_ps.Kernel.WaitKeys.{semaphore_key, semaphore_key_nonempty}
use kaj_ps.Kernel.Objects.{Semaphore}
use kaj_ps.Kernel.Scheduler.Threads.{GuestThread, Scheduler, is_ready, blocked_on}
use kaj_ps.Kernel.Scheduler.Methods.{running_current, block_current, block_thread}
use kaj_ps.Kernel.Scheduler.Inv.{has_state, running_current_lem}
use kaj_ps.Kernel.Scheduler.Machine.{Machine, Good, blocks, Reach, here, next}
use kaj_ps.Kernel.Scheduler.History.{Reach-Good}
use kaj_ps.Kernel.Semaphore.{find, store, signal, poll, wait, block_if_busy, try_acquire}
use kaj_ps.Kernel.Semaphore.Counts.{Inv, try_acquire_lem}
use kaj_ps.Kernel.Semaphore.Service.{find-store, store-Step, store-scheduler, signal_wakes_waiters}

poll_found :
    (h : ℕ) (n : ℤ) (m : Machine) (s : Semaphore) (status : KernelStatus)
    → find h m ≡ some s
    → (try_acquire n s).1 ≡ status
    → poll h n m ≡ (store h (try_acquire n s).0 m, status, (try_acquire n s).2)
unfolding poll
poll_found h n m s status e f = rw (e, poll) (rw f refl)

find-scheduler :
    (h : ℕ) (m : Machine) (s : Scheduler) → find h (record m { scheduler = s }) ≡ find h m
unfolding find
find-scheduler h m s = refl

block_current_done :
    (h c : ℕ) (t : GuestThread) (s : Scheduler)
    → running_current s ≡ some (c, t)
    → block_current (semaphore_key h) none s ≡ (block_thread (semaphore_key h) none c t s, true)
unfolding block_current
block_current_done h c t s r = rw (semaphore_key_nonempty h, r, block_current) refl

-- Wait for an amount that is there takes it at once, reports what is left and blocks nobody.
pub wait_takes :
    (h : ℕ) (n : ℤ) (m : Machine) (s : Semaphore)
    → find h m ≡ some s
    → Inv s
    → pos 1 ≤ℤ n
    → n ≤ℤ s.count
    → let (m', status, remaining) = wait h n m in
      (status ≡ kernel_ok)
      × (find h m' ≡ some (try_acquire n s).0)
      × (remaining +ℤ n ≡ s.count)
      × (m'.scheduler ≡ m.scheduler)
unfolding wait
wait_takes h n m s e v low fits =
    let (_, ok, _, outcome) = try_acquire_lem n s v in
    let status : (try_acquire n s).1 ≡ kernel_ok = ok.1 (low, fits) in
    rw (poll_found h n m s kernel_ok e status) (
      refl,
      ground (arith, find-store h h s (try_acquire n s).0 m e),
      ground (arith, outcome, status),
      store-scheduler h (try_acquire n s).0 m,
    )

-- Wait for an amount that the maximum allows and that is not there reports that it would block: the
-- running thread then waits on the semaphore's key, the current place is free, and no count changed.
pub wait_blocks :
    (h c k : ℕ) (n : ℤ) (m : Machine) (s : Semaphore) (t : GuestThread)
    → find h m ≡ some s
    → Inv s
    → pos 1 ≤ℤ n
    → n ≤ℤ s.maximum_count
    → s.count +ℤ pos 1 ≤ℤ n
    → running_current m.scheduler ≡ some (c, t)
    → let (m', status, remaining) = wait h n m in
      (status ≡ would_block)
      × (remaining ≡ s.count)
      × (find k m' ≡ find k m)
      × (Assoc.find c m'.scheduler.threads ≡ some (blocked_on (semaphore_key h) none t))
      × (m'.scheduler.current_thread ≡ none)
unfolding wait
wait_blocks h c k n m s t e v low fits short r =
    let (_, _, is_busy, outcome) = try_acquire_lem n s v in
    let status : (try_acquire n s).1 ≡ busy = is_busy.1 (low, fits, short) in
    let found = running_current_lem m.scheduler c t r in
    rw
      (
        poll_found h n m s busy e status,
        store-scheduler h (try_acquire n s).0 m,
        block_current_done h c t m.scheduler r,
      )
      (
        refl,
        ground (arith, outcome, status),
        find-scheduler k (store h (try_acquire n s).0 m)
              (block_thread (semaphore_key h) none c t m.scheduler)
            ∙ ground (arith, outcome, status, e, find-store h k s (try_acquire n s).0 m e),
        ground (
          arith,
          found,
          Assoc.find-update c c (blocked_on (semaphore_key h) none t) m.scheduler.threads,
        ),
        refl,
      )

-- Poll and Wait are sequences of steps of the machine.
pub poll-Reach : (h : ℕ) (n : ℤ) (m : Machine) → Reach m (poll h n m).0
unfolding poll
poll-Reach h n m = elim (Option-cases (find h m)) [
  | inl e ↦ rw (e, poll) here
  | inr (s, e) ↦ rw (e, poll) (next here (store-Step h s (try_acquire n s).0 m e))
]

block_if_busy-Reach :
    (h : ℕ) (m : Machine) (r : Machine × KernelStatus × ℤ)
    → Reach m r.0
    → Reach m (block_if_busy h r).0
block_if_busy-Reach h m (m', busy, k) r =
    elim (Bool-cases (block_current (semaphore_key h) none m'.scheduler).1) [
      | inl e ↦ rw e (next r (blocks (semaphore_key h) none))
      | inr e ↦ rw e r
    ]
block_if_busy-Reach h m (m', _, k) r = r

pub wait-Reach : (h : ℕ) (n : ℤ) (m : Machine) → Reach m (wait h n m).0
unfolding wait
wait-Reach h n m = block_if_busy-Reach h m (poll h n m) (poll-Reach h n m)

block_if_busy-find :
    (h k : ℕ) (r : Machine × KernelStatus × ℤ) → find k (block_if_busy h r).0 ≡ find k r.0
unfolding find
block_if_busy-find h k (m, busy, n) = ground arith
block_if_busy-find h k (m, _, n) = refl

-- Blocking changes no semaphore.
pub wait-find : (h k : ℕ) (n : ℤ) (m : Machine) → find k (wait h n m).0 ≡ find k (poll h n m).0
unfolding wait
wait-find h k n m = block_if_busy-find h k (poll h n m)

wait-Good : (h : ℕ) (n : ℤ) (m : Machine) → Good m → Good (wait h n m).0
wait-Good h n m g = Reach-Good g (wait-Reach h n m)

-- No signal is lost. The running thread `c` waits for more than there is and blocks; a Signal that
-- fits then succeeds, `c` is ready again and queued once, and the count has grown by the signal.
pub signal_ends_wait :
    (now h c : ℕ) (n k : ℤ) (m : Machine) (s : Semaphore) (t : GuestThread)
    → Good m
    → find h m ≡ some s
    → Inv s
    → pos 1 ≤ℤ n
    → n ≤ℤ s.maximum_count
    → s.count +ℤ pos 1 ≤ℤ n
    → running_current m.scheduler ≡ some (c, t)
    → pos 1 ≤ℤ k
    → s.count +ℤ k ≤ℤ s.maximum_count
    → let (waiting, result, _) = wait h n m in
      let (m', status) = signal now h k waiting in
      (result ≡ would_block)
      × (status ≡ kernel_ok)
      × (find h m' ≡ some (record s { count = s.count +ℤ k }))
      × (has_state (λ u. is_ready u.state) (Assoc.find c m'.scheduler.threads) ≡ true)
      × (count c m'.scheduler.ready_threads ≡ 1)
signal_ends_wait now h c n k m s t g e v low fits short r low' fits' =
    let (result, _, same, waits, _) = wait_blocks h c h n m s t e v low fits short r in
    let (status, found, ready, queued) =
      signal_wakes_waiters now h c k (wait h n m).0 s (blocked_on (semaphore_key h) none t)
        (wait-Good h n m g) (same ∙ e) v low' fits' waits refl refl in
    (result, status, found, ready, queued)
