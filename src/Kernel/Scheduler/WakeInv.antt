-- ===== src/Kernel/Scheduler/WakeInv.antt =====
-- The wake loops and the invariant of GuestScheduler.
use kaj_ps.Base.{
  ℕ, ◌≡◌, refl, Bool, true, false, [], Option, none, some, arith, count-append, if◌then◌else◌,
}
use kaj_ps.Base.Assoc
use kaj_ps.Kernel.Scheduler.Threads.{
  GuestThread, Scheduler, ready, blocked, is_ready, is_running, expired, is_expired, wake_all,
  wake_some, wake_expired, requeue,
}
use kaj_ps.Kernel.Scheduler.Wakes.{
  changed, passes, find-wake_all, count-wake_all, wake_all-Above, wake_some-Above, wake_some-entry,
}
use kaj_ps.Kernel.Scheduler.Inv.{Inv, has_state, key_fits}

module _ (test : GuestThread → Bool) (change : GuestThread → GuestThread)
    (blocks : (t : GuestThread) → test t ≡ true → t.state ≡ blocked)
    (readies : (t : GuestThread) → (change t).state ≡ ready)
    (clears : (t : GuestThread) → (change t).wait_key ≡ []) where
  wake_all-ready :
      (o : Option GuestThread)
      → (has_state (λ t. is_ready t.state) (changed test change o)
          ≡ (if passes test change o then true else has_state (λ t. is_ready t.state) o))
        × (has_state (λ t. is_running t.state) (changed test change o)
            ≡ has_state (λ t. is_running t.state) o)
        × (key_fits o ≡ true → key_fits (changed test change o) ≡ true)
        × (passes test change o ≡ true → has_state (λ t. is_ready t.state) o ≡ false)
  wake_all-ready none = (refl, refl, λ e. refl, λ e. cc)
  wake_all-ready (some t) = (
    ground (arith, blocks t, readies t),
    ground (arith, blocks t, readies t),
    λ e. ground (arith, blocks t, readies t, clears t),
    λ e. ground (arith, blocks t e),
  )

  pub requeue-wake_all-Inv :
      (s : Scheduler) → Inv s → Inv (requeue s (wake_all test change s.threads))
  requeue-wake_all-Inv s v = record {
    sorted = wake_all-Above test change 1 s.threads v.sorted;
    queued = λ h. ground (
      arith,
      v.queued h,
      count-append h s.ready_threads (wake_all test change s.threads).1,
      count-wake_all test change 1 h s.threads v.sorted,
      find-wake_all test change h s.threads,
      wake_all-ready (Assoc.find h s.threads),
    );
    current = λ h. ground (
      arith,
      v.current h,
      find-wake_all test change h s.threads,
      wake_all-ready (Assoc.find h s.threads),
    );
    keyed = λ h. ground (
      arith,
      v.keyed h,
      find-wake_all test change h s.threads,
      wake_all-ready (Assoc.find h s.threads),
    );
  }

  pub requeue-wake_some-Inv :
      (left : ℕ) (s : Scheduler) → Inv s → Inv (requeue s (wake_some left test change s.threads))
  requeue-wake_some-Inv left s v = record {
    sorted = wake_some-Above test change left 1 s.threads v.sorted;
    queued = λ h. ground (
      arith,
      v.queued h,
      count-append h s.ready_threads (wake_some left test change s.threads).1,
      wake_some-entry test change left 1 h s.threads v.sorted,
      wake_all-ready (Assoc.find h s.threads),
    );
    current = λ h. ground (
      arith,
      v.current h,
      wake_some-entry test change left 1 h s.threads v.sorted,
      wake_all-ready (Assoc.find h s.threads),
    );
    keyed = λ h. ground (
      arith,
      v.keyed h,
      wake_some-entry test change left 1 h s.threads v.sorted,
      wake_all-ready (Assoc.find h s.threads),
    );
  }

pub wake_expired-Inv : (now : ℕ) (s : Scheduler) → Inv s → Inv (wake_expired now s)
unfolding wake_expired
wake_expired-Inv now s v =
    requeue-wake_all-Inv (is_expired now) expired (λ t e. ground arith) (λ t. refl) (λ t. refl) s v
