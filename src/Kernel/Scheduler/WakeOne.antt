-- ===== src/Kernel/Scheduler/WakeOne.antt =====
-- WakeBlockedThread of src/kernel/guest_scheduler.cpp: what it does to the thread that it names, and to
-- the others.
use kaj_ps.Base.{
  ℕ, ◌≡◌, ◌≢◌, ◌∙◌, ap, refl, subst, true, false, some, arith, ◌==◌, ◌⊎◌, inl, inr, Bool-cases,
  Option-cases,
}
use kaj_ps.Base.Text.{Bytes, is_empty, bytes_eq_iff}
use kaj_ps.Base.Assoc
use kaj_ps.Kernel.Handles.{invalid_kernel_handle}
use kaj_ps.Kernel.Scheduler.Threads.{
  GuestThread, Scheduler, blocked, is_ready, woken, expired, is_expired, waits_on, wake_expired,
}
use kaj_ps.Kernel.Scheduler.Methods.{wake_blocked_thread}
use kaj_ps.Kernel.Scheduler.Inv.{has_state}
use kaj_ps.Kernel.Scheduler.Wakes.{find-wake_all}

abbrev pub IsReady : ℕ → Scheduler → Type 0
IsReady t s = has_state (λ u. is_ready u.state) (Assoc.find t s.threads) ≡ true

-- A thread is as it was, or its deadline has passed and it is ready.
expired_or_same :
    (now t : ℕ) (u : GuestThread) (s : Scheduler)
    → Assoc.find t s.threads ≡ some u
    → IsReady t (wake_expired now s) ⊎ (Assoc.find t (wake_expired now s).threads ≡ some u)
unfolding wake_expired
expired_or_same now t u s f =
    let found = find-wake_all (is_expired now) expired t s.threads in
    elim (Bool-cases (is_expired now u)) [
      | inl e ↦ inl (ground (arith, found, f, e))
      | inr e ↦ inr (ground (arith, found, f, e))
    ]

wake_expired-IsReady : (now t : ℕ) (s : Scheduler) → IsReady t s → IsReady t (wake_expired now s)
unfolding wake_expired
wake_expired-IsReady now t s r =
    ground (arith, find-wake_all (is_expired now) expired t s.threads, r)

-- What the call leaves of a thread: the thread as it was or as WakeExpiredThreadsLocked leaves it, or
-- a ready one that it names.
wake_one_cases :
    (now c t : ℕ) (key : Bytes) (s : Scheduler)
    → let after = (wake_blocked_thread now c key s).0 in
      (Assoc.find t after.threads ≡ Assoc.find t s.threads)
      ⊎ ((Assoc.find t after.threads ≡ Assoc.find t (wake_expired now s).threads)
          ⊎ (c ≡ t) × IsReady t after)
unfolding wake_blocked_thread
wake_one_cases now c t key s =
    let s' = wake_expired now s in
    elim (Bool-cases (c == invalid_kernel_handle)) [
      | inl z ↦ rw (z, wake_blocked_thread) (inl refl)
      | inr z ↦ elim (Bool-cases (is_empty key)) [
        | inl e ↦ rw (z, e, wake_blocked_thread) (inl refl)
        | inr e ↦ elim (Option-cases (Assoc.find c s'.threads)) [
          | inl f ↦ rw (z, e, f, wake_blocked_thread) (inr (inl refl))
          | inr (u, f) ↦
              let found = Assoc.find-update t c (woken u) s'.threads in
              elim (Bool-cases (waits_on key u)) [
                | inr w ↦ rw (z, e, f, w, wake_blocked_thread) (inr (inl refl))
                | inl w ↦ elim (Bool-cases (c == t)) [
                  | inl q ↦
                      let same : c ≡ t = ground (arith, q) in
                      let there : Assoc.find t s'.threads ≡ some u =
                        subst (λ k. Assoc.find k s'.threads ≡ some u) same f in
                      rw (z, e, f, w, wake_blocked_thread)
                        (inr (inr (same, ground (arith, found, q, there))))
                  | inr q ↦
                      rw (z, e, f, w, wake_blocked_thread) (inr (inl (ground (arith, found, q))))
                ]
              ]
        ]
      ]
    ]

-- A thread that is ready stays so.
pub wake_one_keeps :
    (now c t : ℕ) (key : Bytes) (s : Scheduler)
    → IsReady t s
    → IsReady t (wake_blocked_thread now c key s).0
wake_one_keeps now c t key s r = elim (wake_one_cases now c t key s) [
  | inl e ↦ ap (has_state (λ u. is_ready u.state)) e ∙ r
  | inr (inl e) ↦ ap (has_state (λ u. is_ready u.state)) e ∙ wake_expired-IsReady now t s r
  | inr (inr (e, ready_now)) ↦ ready_now
]

-- A thread is as it was, or ready.
pub wake_one_other :
    (now c t : ℕ) (key : Bytes) (u : GuestThread) (s : Scheduler)
    → Assoc.find t s.threads ≡ some u
    → IsReady t (wake_blocked_thread now c key s).0
      ⊎ (Assoc.find t (wake_blocked_thread now c key s).0.threads ≡ some u)
wake_one_other now c t key u s f = elim (wake_one_cases now c t key s) [
  | inl e ↦ inr (e ∙ f)
  | inr (inl e) ↦ elim (expired_or_same now t u s f) [
    | inl late ↦ inl (ap (has_state (λ v. is_ready v.state)) e ∙ late)
    | inr same ↦ inr (e ∙ same)
  ]
  | inr (inr (e, ready_now)) ↦ inl ready_now
]

-- A thread that waits on the key is ready afterwards, whether its deadline has passed or not.
pub wake_one_readies :
    (now t : ℕ) (key : Bytes) (u : GuestThread) (s : Scheduler)
    → t ≢ 0
    → is_empty key ≡ false
    → Assoc.find t s.threads ≡ some u
    → u.state ≡ blocked
    → u.wait_key ≡ key
    → IsReady t (wake_blocked_thread now t key s).0
unfolding wake_blocked_thread
wake_one_readies now t key u s valid filled f b w =
    let s' = wake_expired now s in
    let named : t == invalid_kernel_handle ≡ false = ground (arith, valid) in
    let waits : waits_on key u ≡ true = ground (arith, b, (bytes_eq_iff u.wait_key key).1 w) in
    elim (expired_or_same now t u s f) [
      | inr same ↦
          let found = Assoc.find-update t t (woken u) s'.threads in
          rw (named, filled, same, waits, wake_blocked_thread) (ground (arith, found, same))
      | inl late ↦ elim (Option-cases (Assoc.find t s'.threads)) [
        | inl e ↦ absurd (ground (arith, late, e))
        | inr (v, e) ↦
            let awake : waits_on key v ≡ false = ground (arith, late, e) in
            rw (named, filled, e, awake, wake_blocked_thread) late
      ]
    ]
