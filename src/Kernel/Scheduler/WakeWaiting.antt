-- ===== src/Kernel/Scheduler/WakeWaiting.antt =====
-- What the services rely on when they wake the threads that wait on a key.
use kaj_ps.Base.{
  ℕ, ◌+◌, ◌-◌, ◌≤◌, ◌≡◌, refl, true, false, some, arith, inl, inr, Option-cases, length, count,
  if◌then◌else◌,
}
use kaj_ps.Base.Text.{Bytes, is_empty, bytes_eq_iff}
use kaj_ps.Base.Assoc
use kaj_ps.Kernel.Scheduler.Threads.{GuestThread, blocked, is_ready}
use kaj_ps.Kernel.Scheduler.Inv.{has_state}
use kaj_ps.Kernel.Scheduler.Blocking.{after_wake, map_thread, wake_blocked_threads_lem}
use kaj_ps.Kernel.Scheduler.Machine.{
  Machine, Good, wake_waiting, no_limit, wakes, Reach, here, next,
}
use kaj_ps.Kernel.Scheduler.History.{Step-Good}

-- There are never more threads than the default limit of WakeBlockedThreads.
pub threads_fit : (m : Machine) → Good m → length m.scheduler.threads ≤ no_limit
threads_fit m g =
    let top : ℕ = m.handles.next_handle + (if m.handles.exhausted then 1 else 0) in
    let fits : length m.scheduler.threads ≤ top - 1 =
      Assoc.length-Above 1 top m.scheduler.threads g.threads.sorted (λ k h.
        elim (Option-cases (Assoc.find k m.scheduler.threads)) [
          | inl e ↦ e
          | inr (t, e) ↦ absurd (ground (arith, g.linked k, g.table.fresh k h, e))
        ]) in
    ground (arith, fits, g.table.in_range)

pub wake_waiting-Reach : (now : ℕ) (key : Bytes) (m : Machine) → Reach m (wake_waiting now key m)
unfolding wake_waiting
wake_waiting-Reach now key m = next here (wakes now key no_limit)

pub wake_waiting-Good :
    (now : ℕ) (key : Bytes) (m : Machine) → Good m → Good (wake_waiting now key m)
unfolding wake_waiting
wake_waiting-Good now key m g = Step-Good (wakes now key no_limit) g

-- Every thread is as `after_wake` says.
pub wake_waiting_lem :
    (now : ℕ) (key : Bytes) (m : Machine) (k : ℕ)
    → Good m
    → is_empty key ≡ false
    → (Assoc.find k (wake_waiting now key m).scheduler.threads
        ≡ map_thread (after_wake now key) (Assoc.find k m.scheduler.threads))
      × ((wake_waiting now key m).scheduler.current_thread ≡ m.scheduler.current_thread)
      × ((wake_waiting now key m).handles ≡ m.handles)
unfolding wake_waiting
wake_waiting_lem now key m k g filled =
    let (a, b) =
      wake_blocked_threads_lem now key no_limit m.scheduler k filled (omega arith)
        (threads_fit m g) in
    (a, b, refl)

-- A thread that waits on the key is ready afterwards, and in the queue once.
pub wake_waiting_readies :
    (now : ℕ) (key : Bytes) (m : Machine) (k : ℕ) (t : GuestThread)
    → Good m
    → is_empty key ≡ false
    → Assoc.find k m.scheduler.threads ≡ some t
    → t.state ≡ blocked
    → t.wait_key ≡ key
    → (has_state (λ u. is_ready u.state) (Assoc.find k (wake_waiting now key m).scheduler.threads)
        ≡ true)
      × (count k (wake_waiting now key m).scheduler.ready_threads ≡ 1)
wake_waiting_readies now key m k t g filled f b w =
    let entry = (wake_waiting_lem now key m k g filled).0 in
    let ready_now : has_state (λ u. is_ready u.state)
          (Assoc.find k (wake_waiting now key m).scheduler.threads)
        ≡ true =
      ground (arith, entry, f, b, (bytes_eq_iff t.wait_key key).1 w) in
    (ready_now, ground (arith, (wake_waiting-Good now key m g).threads.queued k, ready_now))
