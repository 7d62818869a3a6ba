-- ===== src/Kernel/CxaGuard.antt =====
-- src/kernel/cxa_guard.h and src/kernel/cxa_guard.cpp: CxaGuardService, the guards of static
-- initialisers. Release and Abort are both Complete. Each method is one step, although the source gives
-- the service's mutex back before its last call, which is of the scheduler.
pub mod History
use kaj_ps.Base.{
  ℕ, ◌≡◌, ◌≢◌, ◌∙◌, ap, ==_self, refl, Bool, true, false, Option, none, some, List, arith, ◌==◌,
  if◌then◌else◌, count,
}
use kaj_ps.Base.Assoc
use kaj_ps.Kernel.Status.{
  KernelStatus, kernel_ok, invalid_argument, busy, would_block, permission_denied,
}
use kaj_ps.Kernel.WaitKeys.{cxa_guard_key, cxa_guard_key_nonempty}
use kaj_ps.Kernel.Scheduler.Threads.{GuestThread, is_ready, blocked, blocked_on}
use kaj_ps.Kernel.Scheduler.Methods.{running_current, block_current, block_thread}
use kaj_ps.Kernel.Scheduler.Inv.{has_state, running_current_lem}
use kaj_ps.Kernel.Scheduler.Machine.{Machine, Good, wake_waiting}
use kaj_ps.Kernel.Scheduler.WakeWaiting.{wake_waiting_readies}

-- The owner of each guard whose initialiser runs, and the machine with the scheduler.
pub record Guards : Type 0 where
  pub owners : List (ℕ × ℕ)
  pub machine : Machine

-- The end of Acquire where another thread owns the guard.
abbrev pub wait_for_owner : ℕ → Guards → Guards × KernelStatus × Bool
wait_for_owner address g =
    let (scheduler, done) = block_current (cxa_guard_key address) none g.machine.scheduler in
    if done
    then (record g { machine = record g.machine { scheduler = scheduler } }, would_block, false)
    else (g, busy, false)

-- Acquire behind its checks, by the owner found.
abbrev pub acquire_from : ℕ → ℕ → Option ℕ → Guards → Guards × KernelStatus × Bool
acquire_from address c none g =
    (record g { owners = Assoc.emplace address c g.owners }, kernel_ok, true)
acquire_from address c (some o) g =
    if o == c then (g, kernel_ok, false) else wait_for_owner address g

-- Acquire for the current thread.
abbrev pub acquire_for : ℕ → Bool → Option ℕ → Guards → Guards × KernelStatus × Bool
acquire_for address initialized none g = (g, busy, false)
acquire_for address initialized (some c) g =
    if initialized
    then (g, kernel_ok, false)
    else acquire_from address c (Assoc.find address g.owners) g

-- Acquire: the status, and whether the caller should initialise.
unfoldable pub acquire : ℕ → Bool → Guards → Guards × KernelStatus × Bool
acquire address initialized g =
    if address == 0
    then (g, invalid_argument, false)
    else acquire_for address initialized g.machine.scheduler.current_thread g

-- The wake at the end of Complete.
abbrev pub wake_guard : ℕ → ℕ → Guards → Guards × KernelStatus
wake_guard now address g =
    (record g { machine = wake_waiting now (cxa_guard_key address) g.machine }, kernel_ok)

-- Complete behind its checks, by the owner found.
abbrev pub complete_from : ℕ → ℕ → ℕ → Option ℕ → Guards → Guards × KernelStatus
complete_from now address c none g = wake_guard now address g
complete_from now address c (some o) g =
    if o == c
    then wake_guard now address (record g { owners = Assoc.erase address g.owners })
    else (g, permission_denied)

-- Complete for the current thread.
abbrev pub complete_for : ℕ → ℕ → Option ℕ → Guards → Guards × KernelStatus
complete_for now address none g = (g, busy)
complete_for now address (some c) g = complete_from now address c (Assoc.find address g.owners) g

-- Complete
unfoldable pub complete : ℕ → ℕ → Guards → Guards × KernelStatus
complete now address g =
    if address == 0
    then (g, invalid_argument)
    else complete_for now address g.machine.scheduler.current_thread g

acquire_found :
    (address c : ℕ) (owner : Option ℕ) (g : Guards)
    → address ≢ 0
    → g.machine.scheduler.current_thread ≡ some c
    → Assoc.find address g.owners ≡ owner
    → acquire address false g ≡ acquire_from address c owner g
unfolding acquire
acquire_found address c owner g filled cur owned =
    let named : (address == 0) ≡ false = ground (arith, filled) in
    rw named
      (ap (λ o. acquire_for address false o g) cur ∙ ap (λ o. acquire_from address c o g) owned)

complete_found :
    (now address o : ℕ) (g : Guards)
    → address ≢ 0
    → g.machine.scheduler.current_thread ≡ some o
    → Assoc.find address g.owners ≡ some o
    → complete now address g
      ≡ wake_guard now address (record g { owners = Assoc.erase address g.owners })
unfolding complete
complete_found now address o g filled cur owned =
    let named : (address == 0) ≡ false = ground (arith, filled) in
    rw named (
      ap (λ c. complete_for now address c g) cur
      ∙ ap (λ c. complete_from now address o c g) owned
      ∙ rw (==_self o) refl)

-- When its owner completes a guard, every thread that waits for it is ready and queued once, and the
-- guard is free: whichever thread asks for it next is told to initialise.
pub complete_hands_over :
    (now address o c k : ℕ) (t : GuestThread) (g : Guards) (later : Machine)
    → Good g.machine
    → address ≢ 0
    → g.machine.scheduler.current_thread ≡ some o
    → Assoc.find address g.owners ≡ some o
    → Assoc.find k g.machine.scheduler.threads ≡ some t
    → t.state ≡ blocked
    → t.wait_key ≡ cxa_guard_key address
    → later.scheduler.current_thread ≡ some c
    → let (g', status) = complete now address g in
      let (g'', result, should_initialize) =
        acquire address false (record g' { machine = later }) in
      (status ≡ kernel_ok)
      × (has_state (λ u. is_ready u.state) (Assoc.find k g'.machine.scheduler.threads) ≡ true)
      × (count k g'.machine.scheduler.ready_threads ≡ 1)
      × (result ≡ kernel_ok)
      × (should_initialize ≡ true)
      × (Assoc.find address g''.owners ≡ some c)
complete_hands_over now address o c k t g later good filled cur owned f b w next =
    let woken =
      wake_waiting_readies now (cxa_guard_key address) g.machine k t good
        (cxa_guard_key_nonempty address) f b w in
    let free : Assoc.find address (Assoc.erase address g.owners) ≡ none =
      ground (arith, Assoc.find-erase address address g.owners) in
    let left : Guards = record { owners = Assoc.erase address g.owners; machine = later } in
    rw
      (
        complete_found now address o g filled cur owned,
        acquire_found address c none left filled next free,
      )
      (
        refl,
        woken.0,
        woken.1,
        refl,
        refl,
        ground (arith, Assoc.find-emplace address address c (Assoc.erase address g.owners) free),
      )
