-- ===== src/Kernel/Scheduler/Preserve.antt =====
-- The methods of GuestScheduler and its invariant.
use kaj_ps.Base.{
  ℕ, ◌≡◌, ◌⊎◌, refl, true, false, List, [], ◌∷◌, Option, none, some, arith, inl, inr, Option-cases,
  Bool-cases, count, count-append, if◌then◌else◌, ◌==◌, bit,
}
use kaj_ps.Base.Text.{Bytes, is_empty}
use kaj_ps.Base.Assoc
use kaj_ps.Kernel.WaitKeys.{thread_exit_key, thread_exit_key_nonempty}
use kaj_ps.Kernel.Scheduler.Threads.{
  GuestThread, Scheduler, ready, running, is_ready, is_running, woken, waits_on, wake_expired,
  requeue, blocked_on,
}
use kaj_ps.Kernel.Scheduler.Methods.{
  select_loop, select_next, running_current, yield_current, block_current, wake_blocked_threads,
  wake_blocked_thread, join_thread, as_exited, exit_current, consume_current_thread_timeout,
  block_thread,
}
use kaj_ps.Kernel.Scheduler.Inv.{Inv, running_current_lem, is_current, key_fits}
use kaj_ps.Kernel.Scheduler.WakeInv.{wake_expired-Inv, requeue-wake_all-Inv, requeue-wake_some-Inv}

-- One thread is replaced, and the queue and the current thread follow its new state.
replace-Inv :
    (s : Scheduler) (c : ℕ) (t t' : GuestThread) (queue : List ℕ) (next : Option ℕ)
    → Inv s
    → Assoc.find c s.threads ≡ some t
    → ((h : ℕ)
        → count h queue ≡ (if c == h then bit (is_ready t'.state) else count h s.ready_threads))
    → ((h : ℕ)
        → is_current h next
          ≡ (if c == h then is_running t'.state else is_current h s.current_thread))
    → key_fits (some t') ≡ true
    → Inv (record {
      threads = Assoc.update c t' s.threads;
      ready_threads = queue;
      current_thread = next;
    })
replace-Inv s c t t' queue next v found q n k = record {
  sorted = Assoc.update-Above 1 c t' s.threads v.sorted;
  queued = λ h. ground (arith, v.queued h, found, q h, Assoc.find-update h c t' s.threads);
  current = λ h. ground (arith, v.current h, found, n h, Assoc.find-update h c t' s.threads);
  keyed = λ h. ground (arith, v.keyed h, found, k, Assoc.find-update h c t' s.threads);
}

pub yield_current-Inv : (s : Scheduler) → Inv s → Inv (yield_current s).0
unfolding yield_current
yield_current-Inv s v = elim (Option-cases (running_current s)) [
  | inl e ↦ rw (e, yield_current) v
  | inr ((c, t), e) ↦
      let found = running_current_lem s c t e in
      rw (e, yield_current)
        (replace-Inv s c t (record t { state = ready }) _ _ v found.1
          (λ h. ground (arith, v.queued h, found, count-append h s.ready_threads (c ∷ [])))
          (λ h. ground (arith, found)) (ground (arith, v.keyed c, found)))
]

pub block_thread-Inv :
    (key : Bytes) (deadline : Option ℕ) (c : ℕ) (t : GuestThread) (s : Scheduler)
    → is_empty key ≡ false
    → running_current s ≡ some (c, t)
    → Inv s
    → Inv (block_thread key deadline c t s)
block_thread-Inv key deadline c t s filled e v =
    let found = running_current_lem s c t e in
    replace-Inv s c t (blocked_on key deadline t) _ _ v found.1
      (λ h. ground (arith, v.queued h, found)) (λ h. ground (arith, found)) (ground (arith, filled))

pub block_current-Inv :
    (key : Bytes) (deadline : Option ℕ) (s : Scheduler)
    → Inv s
    → Inv (block_current key deadline s).0
unfolding block_current
block_current-Inv key deadline s v = elim (Bool-cases (is_empty key)) [
  | inl e ↦ rw e v
  | inr filled ↦ rw filled (elim (Option-cases (running_current s)) [
    | inl e ↦ rw (e, block_current) v
    | inr ((c, t), e) ↦ rw (e, block_current) (block_thread-Inv key deadline c t s filled e v)
  ])
]

pub wake_blocked_threads-Inv :
    (now : ℕ) (key : Bytes) (maximum_count : ℕ) (s : Scheduler)
    → Inv s
    → Inv (wake_blocked_threads now key maximum_count s).0
unfolding wake_blocked_threads
wake_blocked_threads-Inv now key maximum_count s v = ground (
  arith,
  v,
  requeue-wake_some-Inv (waits_on key) woken (λ t e. ground arith) (λ t. refl) (λ t. refl)
      maximum_count (wake_expired now s) (wake_expired-Inv now s v),
)

wake_one-Inv :
    (h : ℕ) (key : Bytes) (s : Scheduler) (t : GuestThread)
    → Inv s
    → Assoc.find h s.threads ≡ some t
    → waits_on key t ≡ true
    → Inv (requeue s (Assoc.update h (woken t) s.threads, h ∷ []))
wake_one-Inv h key s t v f w =
    replace-Inv s h t (woken t) _ s.current_thread v f
      (λ k. ground (arith, v.queued h, f, w, count-append k s.ready_threads (h ∷ [])))
      (λ k. ground (arith, v.current h, f, w)) refl

pub wake_blocked_thread-Inv :
    (now h : ℕ) (key : Bytes) (s : Scheduler) → Inv s → Inv (wake_blocked_thread now h key s).0
unfolding wake_blocked_thread
wake_blocked_thread-Inv now h key s v =
    elim (Option-cases (Assoc.find h (wake_expired now s).threads)) [
      | inl e ↦ ground (arith, v, wake_expired-Inv now s v, e)
      | inr (t, f) ↦ ground (
        arith,
        v,
        wake_expired-Inv now s v,
        f,
        wake_one-Inv h key (wake_expired now s) t (wake_expired-Inv now s v) f,
      )
    ]

-- The head of the queue is ready, so the loop of SelectNext takes it at once.
pub select_loop_head :
    (s : Scheduler) (h : ℕ) (queue : List ℕ)
    → Inv s
    → s.ready_threads ≡ h ∷ queue
    → (t : GuestThread) × (Assoc.find h s.threads ≡ some t)
      × (is_ready t.state ≡ true)
      × (select_loop s.threads s.ready_threads
          ≡ (some h, Assoc.update h (record t { state = running }) s.threads, queue))
unfolding select_loop
select_loop_head s h queue v e = elim (Option-cases (Assoc.find h s.threads)) [
  | inl n ↦ absurd (ground (arith, v.queued h, n, e))
  | inr (t, f) ↦ (t, f, ground (arith, v.queued h, f, e), rw e (ground (arith, v.queued h, f, e)))
]

select_next_none-Inv :
    (s : Scheduler) (queue : List ℕ)
    → s.ready_threads ≡ queue
    → s.current_thread ≡ none
    → Inv s
    → let (selected, threads, left) = select_loop s.threads s.ready_threads in
      Inv (record { threads = threads; ready_threads = left; current_thread = selected })
unfolding select_loop
select_next_none-Inv s [] e n v = rw e (record {
  sorted = v.sorted;
  queued = λ h. ground (arith, v.queued h, e);
  current = λ h. ground (arith, v.current h, n);
  keyed = v.keyed;
})
select_next_none-Inv s (h ∷ queue) e n v =
    let (t, f, r, l) = select_loop_head s h queue v e in
    rw l (
      replace-Inv s h t (record t { state = running }) queue (some h) v f
        (λ k. ground (arith, v.queued k, v.queued h, e)) (λ k. ground (arith, n))
        (ground (arith, v.keyed h, f)))

pub select_next-Inv : (now : ℕ) (s : Scheduler) → Inv s → Inv (select_next now s).0
unfolding select_next
select_next-Inv now s v = elim (Option-cases s.current_thread) [
  | inl e ↦
      rw (e, select_next)
        (select_next_none-Inv (wake_expired now s) (wake_expired now s).ready_threads refl
          (unfold wake_expired in e) (wake_expired-Inv now s v))
  | inr (c, e) ↦ rw (e, select_next) v
]

-- JoinThread either changes nothing or blocks the current thread on the exit of the other.
pub join_thread_cases :
    (h : ℕ) (s : Scheduler) (c : ℕ) (t : GuestThread)
    → running_current s ≡ some (c, t)
    → ((join_thread h s).0 ≡ s)
      ⊎ ((join_thread h s).0 ≡ block_thread (thread_exit_key h) none c t s)
unfolding join_thread
join_thread_cases h s c t e = ground (arith, running_current_lem s c t e)

pub join_thread_refused :
    (h : ℕ) (s : Scheduler) → running_current s ≡ none → (join_thread h s).0 ≡ s
unfolding join_thread
join_thread_refused h s e = ground arith

pub join_thread-Inv : (h : ℕ) (s : Scheduler) → Inv s → Inv (join_thread h s).0
join_thread-Inv h s v = elim (Option-cases (running_current s)) [
  | inl e ↦ rw (join_thread_refused h s e) v
  | inr ((c, t), e) ↦ elim (join_thread_cases h s c t e) [
    | inl f ↦ rw f v
    | inr f ↦
        rw f (block_thread-Inv (thread_exit_key h) none c t s (thread_exit_key_nonempty h) e v)
  ]
]

pub exit_current-Inv : (value : ℕ) (s : Scheduler) → Inv s → Inv (exit_current value s).0
unfolding exit_current
exit_current-Inv value s v = elim (Option-cases (running_current s)) [
  | inl e ↦ rw (e, exit_current) v
  | inr ((c, t), e) ↦
      let found = running_current_lem s c t e in
      rw (e, exit_current)
        (requeue-wake_all-Inv (waits_on (thread_exit_key c)) woken (λ u e. ground arith) (λ u. refl)
          (λ u. refl) _
          (replace-Inv s c t (as_exited value t) _ none v found.1
            (λ h. ground (arith, v.queued h, found)) (λ h. ground (arith, found)) refl))
]

-- Only the note of a timeout may go.
pub consume_cases :
    (key : Bytes) (s : Scheduler) (c : ℕ) (t : GuestThread)
    → running_current s ≡ some (c, t)
    → ((consume_current_thread_timeout key s).0 ≡ s)
      ⊎ ((consume_current_thread_timeout key s).0
          ≡ record s { threads = Assoc.update c (record t { timed_out_wait_key = [] }) s.threads })
unfolding consume_current_thread_timeout
consume_cases key s c t e = ground arith

pub consume_refused :
    (key : Bytes) (s : Scheduler)
    → running_current s ≡ none
    → (consume_current_thread_timeout key s).0 ≡ s
unfolding consume_current_thread_timeout
consume_refused key s e = ground arith

pub consume-Inv :
    (key : Bytes) (s : Scheduler) → Inv s → Inv (consume_current_thread_timeout key s).0
consume-Inv key s v = elim (Option-cases (running_current s)) [
  | inl e ↦ rw (consume_refused key s e) v
  | inr ((c, t), e) ↦ elim (consume_cases key s c t e) [
    | inl f ↦ rw f v
    | inr f ↦
        let found = running_current_lem s c t e in
        rw f (
          replace-Inv s c t (record t { timed_out_wait_key = [] }) s.ready_threads s.current_thread
            v found.1 (λ h. ground (arith, v.queued h, found)) (λ h. ground (arith, found))
            (ground (arith, v.keyed c, found)))
  ]
]
