-- ===== src/Kernel/Scheduler/Inv.antt =====
-- The invariant of GuestScheduler.
use kaj_ps.Base.{
  ℕ, ◌≡◌, refl, Bool, true, false, not, Option, none, some, arith, if◌then◌else◌, count, bit, ◌==◌,
  inl, inr, Option-cases,
}
use kaj_ps.Base.Text.{is_empty}
use kaj_ps.Base.Assoc
use kaj_ps.Kernel.Handles.{HandleTable}
use kaj_ps.Kernel.Objects.{thread_object}
use kaj_ps.Kernel.Scheduler.Threads.{
  GuestThread, Scheduler, empty, is_ready, is_running, is_blocked,
}
use kaj_ps.Kernel.Scheduler.Methods.{running_current}

abbrev pub has_state : (GuestThread → Bool) → Option GuestThread → Bool
has_state p none = false
has_state p (some t) = p t

abbrev pub is_current : ℕ → Option ℕ → Bool
is_current h none = false
is_current h (some c) = c == h

-- A thread has a wait key exactly while it is blocked.
abbrev pub key_fits : Option GuestThread → Bool
key_fits none = true
key_fits (some t) = if is_blocked t.state then not (is_empty t.wait_key) else is_empty t.wait_key

pub record Inv (s : Scheduler) : Type 0 where
  pub sorted : Assoc.Above 1 s.threads
  -- The queue holds each ready thread once and no other.
  pub queued :
      (h : ℕ)
      → count h s.ready_threads ≡ bit (has_state (λ t. is_ready t.state) (Assoc.find h s.threads))
  -- The running thread is the current one.
  pub current :
      (h : ℕ)
      → has_state (λ t. is_running t.state) (Assoc.find h s.threads) ≡ is_current h s.current_thread
  pub keyed : (h : ℕ) → key_fits (Assoc.find h s.threads) ≡ true

-- Every thread of the scheduler has its entry in the handle table.
abbrev pub Linked : HandleTable → Scheduler → Type 0
Linked handles s =
    (h : ℕ)
    → Assoc.is_some (Assoc.find h s.threads) ≡ true
    → Assoc.find h handles.objects ≡ some thread_object

pub empty-Inv : Inv empty
unfolding empty Assoc.find
empty-Inv = record { sorted = tt; queued = λ h. refl; current = λ h. refl; keyed = λ h. refl }

-- What the checks of the current thread find.
pub running_current_lem :
    (s : Scheduler) (c : ℕ) (t : GuestThread)
    → running_current s ≡ some (c, t)
    → (s.current_thread ≡ some c) × (Assoc.find c s.threads ≡ some t) × (is_running t.state ≡ true)
unfolding running_current
running_current_lem s c t e = ground arith

-- Under the invariant the checks fail only where there is no current thread.
pub running_current-none :
    (s : Scheduler) → Inv s → running_current s ≡ none → s.current_thread ≡ none
unfolding running_current
running_current-none s v e = elim (Option-cases s.current_thread) [
  | inl n ↦ n
  | inr (c, f) ↦ ground (arith, v.current c)
]
