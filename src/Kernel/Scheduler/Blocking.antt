-- ===== src/Kernel/Scheduler/Blocking.antt =====
-- Blocking and waking: deadlines, wake by key, and joining.
use kaj_ps.Base.{
  ℕ, ◌≤◌, ◌<◌, ◌≡◌, refl, ap, Bool, true, false, List, [], ◌∷◌, Option, none, some, arith,
  if◌then◌else◌, length, leb, ◌==◌, count,
}
use kaj_ps.Base.Text.{Bytes, bytes_eq_iff, is_empty}
use kaj_ps.Base.Assoc
use kaj_ps.Kernel.Status.{kernel_ok, would_block}
use kaj_ps.Kernel.WaitKeys.{thread_exit_key}
use kaj_ps.Kernel.Scheduler.Threads.{
  GuestThread, Scheduler, woken, expired, is_expired, waits_on, wake_all, wake_expired, blocked_on,
}
use kaj_ps.Kernel.Scheduler.Methods.{
  running_current, block_current, wake_blocked_threads, join_thread, exit_current, as_exited,
  block_thread,
}
use kaj_ps.Kernel.Scheduler.Inv.{Inv, running_current_lem}
use kaj_ps.Kernel.Scheduler.Preserve.{exit_current-Inv}
use kaj_ps.Kernel.Scheduler.Wakes.{find-wake_all, wake_some-eq-wake_all}

-- The thread as WakeBlockedThreads leaves it: one whose deadline has passed is ready with its wait
-- key noted as timed out; otherwise one that waits on the key is ready with nothing noted; any
-- other thread is as it was.
abbrev pub after_wake : ℕ → Bytes → GuestThread → GuestThread
after_wake now key t = if is_expired now t then expired t else if waits_on key t then woken t else t

abbrev pub map_thread : (GuestThread → GuestThread) → Option GuestThread → Option GuestThread
map_thread f none = none
map_thread f (some t) = some (f t)

length-wake_all :
    (test : GuestThread → Bool) (change : GuestThread → GuestThread) (m : List (ℕ × GuestThread))
    → length (wake_all test change m).0 ≡ length m
unfolding wake_all
length-wake_all test change [] = refl
length-wake_all test change ((h, t) ∷ m) = ground (arith, length-wake_all test change m)

-- With a limit that the number of threads does not exceed, WakeBlockedThreads on a key that is not
-- empty does to every thread exactly what `after_wake` says, and the current thread stays.
pub wake_blocked_threads_lem :
    (now : ℕ) (key : Bytes) (maximum_count : ℕ) (s : Scheduler) (h : ℕ)
    → is_empty key ≡ false
    → 0 < maximum_count
    → length s.threads ≤ maximum_count
    → let s' = (wake_blocked_threads now key maximum_count s).0 in
      (Assoc.find h s'.threads ≡ map_thread (after_wake now key) (Assoc.find h s.threads))
      × (s'.current_thread ≡ s.current_thread)
unfolding wake_blocked_threads wake_expired
wake_blocked_threads_lem now key maximum_count s h filled pos enough =
    let m = (wake_all (is_expired now) expired s.threads).0 in
    let same =
      wake_some-eq-wake_all (waits_on key) woken maximum_count m
        (omega (arith, length-wake_all (is_expired now) expired s.threads)) in
    ground (
      arith,
      filled,
      ap (λ p. Assoc.find h p.0) same,
      find-wake_all (waits_on key) woken h m,
      find-wake_all (is_expired now) expired h s.threads,
    )

-- A running thread that blocks with a deadline leaves the current place free. When the expired
-- threads are next looked for, it is ready with the wait key noted as timed out if the deadline has
-- come, and otherwise it still waits on the key until the deadline.
pub block_current_deadline :
    (key : Bytes) (deadline now c : ℕ) (t : GuestThread) (s : Scheduler)
    → is_empty key ≡ false
    → running_current s ≡ some (c, t)
    → let (s', done) = block_current key (some deadline) s in
      (done ≡ true)
      × (s'.current_thread ≡ none)
      × (Assoc.find c (wake_expired now s').threads
          ≡ some (
              if leb deadline now
              then expired (blocked_on key (some deadline) t)
              else blocked_on key (some deadline) t))
unfolding block_current wake_expired
block_current_deadline key deadline now c t s filled e =
    let found = running_current_lem s c t e in
    rw (filled, e, block_current)
      (
        refl,
        refl,
        ground (
          arith,
          found,
          find-wake_all (is_expired now) expired c
              (Assoc.update c (blocked_on key (some deadline) t) s.threads),
          Assoc.find-update c c (blocked_on key (some deadline) t) s.threads,
        ),
      )

-- ExitCurrent of the running thread `h` notes the exit value, readies exactly the threads that wait
-- for its exit and changes no other thread; a JoinThread on `h` then returns the exit value at once.
pub exit_current_lem :
    (value h k : ℕ) (t : GuestThread) (s : Scheduler)
    → running_current s ≡ some (h, t)
    → let (s', done) = exit_current value s in
      (done ≡ true)
      × (s'.current_thread ≡ none)
      × (Assoc.find k s'.threads ≡ (
          if h == k
          then some (as_exited value t)
          else map_thread
              (λ u. if waits_on (thread_exit_key h) u then woken u else u)
              (Assoc.find k s.threads)))
      × (join_thread h s' ≡ (s', kernel_ok, value))
unfolding exit_current join_thread
exit_current_lem value h k t s e =
    let found = running_current_lem s h t e in
    let gone = Assoc.update h (as_exited value t) s.threads in
    rw (e, exit_current)
      (
        refl,
        refl,
        ground (
          arith,
          found,
          find-wake_all (waits_on (thread_exit_key h)) woken k gone,
          Assoc.find-update k h (as_exited value t) s.threads,
        ),
        ground (
          arith,
          found,
          find-wake_all (waits_on (thread_exit_key h)) woken h gone,
          Assoc.find-update h h (as_exited value t) s.threads,
        ),
      )

join_thread-blocked :
    (h c : ℕ) (t : GuestThread) (s s' : Scheduler)
    → running_current s ≡ some (c, t)
    → join_thread h s ≡ (s', would_block, 0)
    → s' ≡ block_thread (thread_exit_key h) none c t s
unfolding join_thread
join_thread-blocked h c t s s' e j = ground (arith, running_current_lem s c t e)

-- A join that would block is not lost. The caller `c` then waits for the exit of `h` with no
-- deadline, and the current place is free; and in whatever later state `h` runs and exits while `c`
-- still waits, the exit makes `c` ready, in the queue exactly once.
pub join_woken_by_exit :
    (value h c : ℕ) (t u : GuestThread) (s joined later : Scheduler)
    → running_current s ≡ some (c, t)
    → join_thread h s ≡ (joined, would_block, 0)
    → Inv later
    → running_current later ≡ some (h, u)
    → Assoc.find c later.threads ≡ Assoc.find c joined.threads
    → (Assoc.find c joined.threads ≡ some (blocked_on (thread_exit_key h) none t))
      × (joined.current_thread ≡ none)
      × (Assoc.find c (exit_current value later).0.threads
          ≡ some (woken (blocked_on (thread_exit_key h) none t)))
      × (count c (exit_current value later).0.ready_threads ≡ 1)
join_woken_by_exit value h c t u s joined later e j v r same =
    let waits = join_thread-blocked h c t s joined e j in
    let found = running_current_lem s c t e in
    let runs = running_current_lem later h u r in
    let entry : Assoc.find c joined.threads ≡ some (blocked_on (thread_exit_key h) none t) =
      rw waits (
        ground (
          arith,
          found,
          Assoc.find-update c c (blocked_on (thread_exit_key h) none t) s.threads,
        )) in
    let left = (exit_current_lem value h c u later r).2 in
    let after : Assoc.find c (exit_current value later).0.threads
        ≡ some (woken (blocked_on (thread_exit_key h) none t)) =
      ground (
        arith,
        left,
        same,
        entry,
        runs,
        (bytes_eq_iff (thread_exit_key h) (thread_exit_key h)).1 refl,
      ) in
    (
      entry,
      ap (λ (x : Scheduler). x.current_thread) waits,
      after,
      ground (arith, (exit_current-Inv value later v).queued c, after),
    )
