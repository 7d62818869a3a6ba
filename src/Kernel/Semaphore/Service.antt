-- ===== src/Kernel/Semaphore/Service.antt =====
-- SemaphoreService: Signal and whom it wakes, and what its calls of the scheduler and the table keep.
use kaj_ps.Base.{ℕ, ◌≡◌, refl, true, some, arith, if◌then◌else◌, ◌==◌, count}
use kaj_ps.Base.Int.{ℤ, pos, ◌≤ℤ◌, ◌+ℤ◌}
use kaj_ps.Base.Text.{Bytes}
use kaj_ps.Base.Assoc
use kaj_ps.Kernel.Status.{kernel_ok}
use kaj_ps.Kernel.WaitKeys.{semaphore_key, semaphore_key_nonempty}
use kaj_ps.Kernel.Objects.{Semaphore, semaphore_object}
use kaj_ps.Kernel.Handles
use kaj_ps.Kernel.Scheduler.Threads.{GuestThread, blocked, is_ready}
use kaj_ps.Kernel.Scheduler.Inv.{has_state}
use kaj_ps.Kernel.Scheduler.Machine.{Machine, Good, wake_waiting, Step, writes, here, next}
use kaj_ps.Kernel.Scheduler.History.{Reach-Good}
use kaj_ps.Kernel.Scheduler.WakeWaiting.{wake_waiting_readies}
use kaj_ps.Kernel.Semaphore.{find, store, signal, signal_count}
use kaj_ps.Kernel.Semaphore.Counts.{Inv, signal_count_lem}

-- What `find` reads.
pub find_entry :
    (h : ℕ) (m : Machine) (s : Semaphore)
    → find h m ≡ some s
    → Assoc.find h m.handles.objects ≡ some (semaphore_object s)
unfolding find Handles.find
find_entry h m s e = ground arith

pub find-store :
    (h k : ℕ) (s s' : Semaphore) (m : Machine)
    → find h m ≡ some s
    → find k (store h s' m) ≡ (if h == k then some s' else find k m)
unfolding find Handles.find store Handles.write
find-store h k s s' m e =
    ground (arith, Assoc.find-update k h (semaphore_object s') m.handles.objects)

-- Where the semaphore is there and the amount fits, signalling adds it and wakes the waiters.
pub signal_adds :
    (now h : ℕ) (n : ℤ) (m : Machine) (s : Semaphore)
    → find h m ≡ some s
    → Inv s
    → pos 1 ≤ℤ n
    → s.count +ℤ n ≤ℤ s.maximum_count
    → (signal now h n m
        ≡ (wake_waiting now (semaphore_key h) (store h (signal_count n s).0 m), kernel_ok))
      × ((signal_count n s).0 ≡ record s { count = s.count +ℤ n })
unfolding signal
signal_adds now h n m s e v low fits =
    let (_, _, ok, outcome) = signal_count_lem n s v in
    let status : (signal_count n s).1 ≡ kernel_ok = ok.1 (low, fits) in
    (rw (e, status, signal) refl, unfold signal_count in ground (arith, status))

pub store-Step :
    (h : ℕ) (s s' : Semaphore) (m : Machine) → find h m ≡ some s → Step m (store h s' m)
unfolding store
store-Step h s s' m e = writes h (semaphore_object s') (λ f. cc (find_entry h m s e))

pub store-Good :
    (h : ℕ) (s s' : Semaphore) (m : Machine) → find h m ≡ some s → Good m → Good (store h s' m)
store-Good h s s' m e g = Reach-Good g (next here (store-Step h s s' m e))

pub store-scheduler : (h : ℕ) (s : Semaphore) (m : Machine) → (store h s m).scheduler ≡ m.scheduler
unfolding store
store-scheduler h s m = refl

pub wake_waiting-find :
    (now : ℕ) (key : Bytes) (h : ℕ) (m : Machine) → find h (wake_waiting now key m) ≡ find h m
unfolding wake_waiting find
wake_waiting-find now key h m = refl

-- Signalling a semaphore by an amount that fits succeeds and adds it to the count, and every thread
-- that was blocked on this semaphore is ready afterwards and stands in the ready queue exactly once.
pub signal_wakes_waiters :
    (now h k : ℕ) (n : ℤ) (m : Machine) (s : Semaphore) (t : GuestThread)
    → Good m
    → find h m ≡ some s
    → Inv s
    → pos 1 ≤ℤ n
    → s.count +ℤ n ≤ℤ s.maximum_count
    → Assoc.find k m.scheduler.threads ≡ some t
    → t.state ≡ blocked
    → t.wait_key ≡ semaphore_key h
    → let (m', status) = signal now h n m in
      (status ≡ kernel_ok)
      × (find h m' ≡ some (record s { count = s.count +ℤ n }))
      × (has_state (λ u. is_ready u.state) (Assoc.find k m'.scheduler.threads) ≡ true)
      × (count k m'.scheduler.ready_threads ≡ 1)
signal_wakes_waiters now h k n m s t g e v low fits f b w =
    let (run, sum) = signal_adds now h n m s e v low fits in
    let woken =
      wake_waiting_readies now (semaphore_key h) (store h (signal_count n s).0 m) k t
        (store-Good h s (signal_count n s).0 m e g) (semaphore_key_nonempty h)
        (rw store-scheduler f) b w in
    rw run (
      refl,
      rw wake_waiting-find (ground (arith, find-store h h s (signal_count n s).0 m e, sum)),
      woken.0,
      woken.1,
    )
