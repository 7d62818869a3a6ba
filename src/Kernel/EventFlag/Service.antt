-- ===== src/Kernel/EventFlag/Service.antt =====
-- EventFlagService: a wait that blocks, and the Set that ends it.
use Prim.Native.Nat.{bit_or}
use kaj_ps.Base.{
  ℕ, ◌≡◌, ◌≢◌, ◌∙◌, refl, true, false, none, some, arith, if◌then◌else◌, ◌==◌, count, Bool-cases,
  inl, inr,
}
use kaj_ps.Base.Assoc
use kaj_ps.Kernel.Status.{KernelStatus, kernel_ok, busy, would_block}
use kaj_ps.Kernel.WaitKeys.{event_flag_key, event_flag_key_nonempty}
use kaj_ps.Kernel.Objects.{EventFlag, event_flag_object}
use kaj_ps.Kernel.Handles
use kaj_ps.Kernel.Scheduler.Threads.{GuestThread, Scheduler, is_ready, blocked, blocked_on}
use kaj_ps.Kernel.Scheduler.Methods.{running_current, block_current, block_thread}
use kaj_ps.Kernel.Scheduler.Inv.{has_state, running_current_lem}
use kaj_ps.Kernel.Scheduler.Machine.{Machine, Good, Reach, wake_waiting, writes, blocks, here, next}
use kaj_ps.Kernel.Scheduler.History.{Reach-Good}
use kaj_ps.Kernel.Scheduler.WakeWaiting.{wake_waiting_readies}
use kaj_ps.Kernel.EventFlag.{
  find, store, set, set_bits, poll, poll_bits, wait, block_if_busy, is_satisfied, decode_wait_mode,
  EventFlagWaitCondition, EventFlagClearMode,
}

find_entry :
    (h : ℕ) (m : Machine) (f : EventFlag)
    → find h m ≡ some f
    → Assoc.find h m.handles.objects ≡ some (event_flag_object f)
unfolding find Handles.find
find_entry h m f e = ground arith

find-store :
    (h k : ℕ) (f f' : EventFlag) (m : Machine)
    → find h m ≡ some f
    → find k (store h f' m) ≡ (if h == k then some f' else find k m)
unfolding find Handles.find store Handles.write
find-store h k f f' m e =
    ground (arith, Assoc.find-update k h (event_flag_object f') m.handles.objects)

store-Good :
    (h : ℕ) (f f' : EventFlag) (m : Machine) → find h m ≡ some f → Good m → Good (store h f' m)
unfolding store
store-Good h f f' m e g =
    Reach-Good g (next here (writes h (event_flag_object f') (λ p. cc (find_entry h m f e))))

wake_waiting-find :
    (now h k : ℕ) (m : Machine) → find k (wake_waiting now (event_flag_key h) m) ≡ find k m
unfolding wake_waiting find
wake_waiting-find now h k m = refl

store-scheduler : (h : ℕ) (f : EventFlag) (m : Machine) → (store h f m).scheduler ≡ m.scheduler
unfolding store
store-scheduler h f m = refl

-- Setting bits succeeds, adds them to the flag's bits, and every thread that was blocked on this flag
-- is ready afterwards and stands in the ready queue exactly once.
pub set_wakes_waiters :
    (now h k pattern : ℕ) (m : Machine) (f : EventFlag) (t : GuestThread)
    → Good m
    → find h m ≡ some f
    → Assoc.find k m.scheduler.threads ≡ some t
    → t.state ≡ blocked
    → t.wait_key ≡ event_flag_key h
    → let (m', status) = set now h pattern m in
      (status ≡ kernel_ok)
      × (find h m' ≡ some (record f { bits = bit_or f.bits pattern }))
      × (has_state (λ u. is_ready u.state) (Assoc.find k m'.scheduler.threads) ≡ true)
      × (count k m'.scheduler.ready_threads ≡ 1)
unfolding set set_bits
set_wakes_waiters now h k pattern m f t g e i b w =
    let f' : EventFlag = record f { bits = bit_or f.bits pattern } in
    let woken =
      wake_waiting_readies now (event_flag_key h) (store h f' m) k t (store-Good h f f' m e g)
        (event_flag_key_nonempty h) (rw store-scheduler i) b w in
    rw (e, set)
      (refl, rw wake_waiting-find (ground (arith, find-store h h f f' m e)), woken.0, woken.1)

find-scheduler :
    (h : ℕ) (m : Machine) (s : Scheduler) → find h (record m { scheduler = s }) ≡ find h m
unfolding find
find-scheduler h m s = refl

block_current_done :
    (h c : ℕ) (t : GuestThread) (s : Scheduler)
    → running_current s ≡ some (c, t)
    → block_current (event_flag_key h) none s ≡ (block_thread (event_flag_key h) none c t s, true)
unfolding block_current
block_current_done h c t s r = rw (event_flag_key_nonempty h, r, block_current) refl

poll_busy :
    (h pattern wait_mode : ℕ) (m : Machine) (f : EventFlag) (condition : EventFlagWaitCondition)
    (mode : EventFlagClearMode)
    → find h m ≡ some f
    → decode_wait_mode wait_mode ≡ some (condition, mode)
    → pattern ≢ 0
    → is_satisfied pattern condition f.bits ≡ false
    → poll h pattern wait_mode m ≡ (store h f m, busy, f.bits)
unfolding poll poll_bits
poll_busy h pattern wait_mode m f condition mode e d p u =
    let filled : (pattern == 0) ≡ false = ground (arith, p) in
    rw (e, poll) (rw (d, poll_bits) (rw (filled, u, poll_bits) refl))

-- Wait for a pattern that is not satisfied reports that it would block and what it observed: the
-- running thread then waits on the flag's key, the current place is free, and the bits are as before.
pub wait_blocks_on_flag :
    (h c pattern wait_mode : ℕ) (m : Machine) (f : EventFlag) (t : GuestThread)
    (condition : EventFlagWaitCondition) (mode : EventFlagClearMode)
    → find h m ≡ some f
    → decode_wait_mode wait_mode ≡ some (condition, mode)
    → pattern ≢ 0
    → is_satisfied pattern condition f.bits ≡ false
    → running_current m.scheduler ≡ some (c, t)
    → let (m', status, observed) = wait h pattern wait_mode m in
      (status ≡ would_block)
      × (observed ≡ f.bits)
      × (find h m' ≡ some f)
      × (Assoc.find c m'.scheduler.threads ≡ some (blocked_on (event_flag_key h) none t))
      × (m'.scheduler.current_thread ≡ none)
unfolding wait
wait_blocks_on_flag h c pattern wait_mode m f t condition mode e d p u r =
    let found = running_current_lem m.scheduler c t r in
    rw
      (
        poll_busy h pattern wait_mode m f condition mode e d p u,
        store-scheduler h f m,
        block_current_done h c t m.scheduler r,
      )
      (
        refl,
        refl,
        find-scheduler h (store h f m) (block_thread (event_flag_key h) none c t m.scheduler)
            ∙ ground (arith, find-store h h f f m e),
        ground (
          arith,
          found,
          Assoc.find-update c c (blocked_on (event_flag_key h) none t) m.scheduler.threads,
        ),
        refl,
      )

block_if_busy-Reach :
    (h : ℕ) (m : Machine) (r : Machine × KernelStatus × ℕ)
    → Reach m r.0
    → Reach m (block_if_busy h r).0
block_if_busy-Reach h m (m', busy, k) r =
    elim (Bool-cases (block_current (event_flag_key h) none m'.scheduler).1) [
      | inl e ↦ rw e (next r (blocks (event_flag_key h) none))
      | inr e ↦ rw e r
    ]
block_if_busy-Reach h m (m', _, k) r = r

-- No Set is lost. The running thread `c` waits for a pattern that is not satisfied and blocks; a Set
-- then succeeds, the flag has the new bits as well, and `c` is ready again and queued once.
pub set_ends_wait :
    (now h c pattern wait_mode added : ℕ) (m : Machine) (f : EventFlag) (t : GuestThread)
    (condition : EventFlagWaitCondition) (mode : EventFlagClearMode)
    → Good m
    → find h m ≡ some f
    → decode_wait_mode wait_mode ≡ some (condition, mode)
    → pattern ≢ 0
    → is_satisfied pattern condition f.bits ≡ false
    → running_current m.scheduler ≡ some (c, t)
    → let (waiting, result, _) = wait h pattern wait_mode m in
      let (m', status) = set now h added waiting in
      (result ≡ would_block)
      × (status ≡ kernel_ok)
      × (find h m' ≡ some (record f { bits = bit_or f.bits added }))
      × (has_state (λ u. is_ready u.state) (Assoc.find c m'.scheduler.threads) ≡ true)
      × (count c m'.scheduler.ready_threads ≡ 1)
set_ends_wait now h c pattern wait_mode added m f t condition mode g e d p u r =
    let (result, _, same, waits, _) =
      wait_blocks_on_flag h c pattern wait_mode m f t condition mode e d p u r in
    let reach : Reach m (wait h pattern wait_mode m).0 =
      unfold wait in
      rw (poll_busy h pattern wait_mode m f condition mode e d p u) (
        block_if_busy-Reach h m (store h f m, busy, f.bits)
          (unfold store in
            next here (writes h (event_flag_object f) (λ q. cc (find_entry h m f e))))) in
    let (status, found, ready, queued) =
      set_wakes_waiters now h c added (wait h pattern wait_mode m).0 f
        (blocked_on (event_flag_key h) none t) (Reach-Good g reach) same waits refl refl in
    (result, status, found, ready, queued)
