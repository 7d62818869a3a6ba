-- ===== src/Kernel/EventQueue/History.antt =====
-- EventQueue: sequences of calls, and the registrations of the events that are pending.
use kaj_ps.Base.{
  ℕ, ◌≡◌, sym, subst, refl, true, false, ◌&&◌, Option, none, some, List, [], ◌∷◌, ◌++◌, arith, ◌==◌,
  Bool-cases, Option-cases, inl, inr,
}
use kaj_ps.Base.Int.{ℤ}
use kaj_ps.Base.Text.{Bytes}
use kaj_ps.Kernel.EventQueue.{
  EventQueue, Registration, RegisteredKernelEvent, new_queue, find_if, erase_if, poll, is_current,
  matches_event, is_for, is_of, same_filter, put, delete_event, trigger_user_event,
  trigger_first_by_filter, event_filter_user, user_event, user_entry, filter_entry, register_event,
  register_found,
}
use kaj_ps.Kernel.EventQueue.Pending.{
  Current, Current-append, Current-parts, find_if_found, is_current-append, keep_others,
  poll-Current,
}

-- Erasing the events of one registration keeps the others current where that registration changes.
erased_Current :
    (ident : ℕ) (filter : ℤ) (rs ss : List Registration) (es : List RegisteredKernelEvent)
    → ((e : RegisteredKernelEvent)
        → is_for ident filter e ≡ false
        → is_current e rs ≡ true
        → is_current e ss ≡ true)
    → Current rs es
    → Current ss (erase_if (is_for ident filter) es)
unfolding erase_if
erased_Current ident filter rs ss [] keep c = tt
erased_Current ident filter rs ss (e ∷ es) keep c = elim (Bool-cases (is_for ident filter e)) [
  | inl t ↦ rw t (erased_Current ident filter rs ss es keep c.1)
  | inr t ↦ rw t (keep e t c.0, erased_Current ident filter rs ss es keep c.1)
]

delete_event-Current :
    (ident : ℕ) (filter : ℤ) (q : EventQueue)
    → Current q.registrations q.pending_events
    → let q' = (delete_event ident filter q).0 in Current q'.registrations q'.pending_events
unfolding delete_event
delete_event-Current ident filter q c =
    elim (Option-cases (find_if (matches_event ident filter) q.registrations)) [
      | inl f ↦ rw (f, delete_event) c
      | inr ((before, r, behind), f) ↦
          let (split, matches) =
            find_if_found (matches_event ident filter) q.registrations before behind r f in
          rw (f, delete_event)
            (erased_Current ident filter q.registrations (before ++ behind) q.pending_events
              (λ e g h.
                keep_others ident filter before behind r e matches g
                  (subst (λ rs. is_current e rs ≡ true) split h))
              c)
    ]

-- An event of a registration that is there is current.
own_current :
    (e : RegisteredKernelEvent) (before behind : List Registration) (r : Registration)
    → is_of r e ≡ true
    → is_current e (before ++ (r ∷ behind)) ≡ true
unfolding is_current
own_current e before behind r o = ground (arith, o, is_current-append e before (r ∷ behind))

own_generation :
    (r : Registration)
    → ((r.ident == r.ident) && same_filter r.filter r.filter) && (r.generation == r.generation)
      ≡ true
own_generation r = ground arith

put-Current :
    (overwrite : RegisteredKernelEvent → RegisteredKernelEvent) (event : RegisteredKernelEvent)
    (r : Registration) (rs : List Registration) (es : List RegisteredKernelEvent)
    → is_current event rs ≡ true
    → ((e : RegisteredKernelEvent) → is_of r e ≡ true → is_current (overwrite e) rs ≡ true)
    → Current rs es
    → Current rs (put overwrite event r es)
unfolding put
put-Current overwrite event r rs es own over c = elim (Option-cases (find_if (is_of r) es)) [
  | inl f ↦ rw (f, put) (Current-append rs es (event ∷ []) c (own, tt))
  | inr ((before, e, behind), f) ↦
      let (split, matches) = find_if_found (is_of r) es before behind e f in
      let (a, b) = Current-parts rs before (e ∷ behind) (subst (Current rs) split c) in
      rw (f, put) (Current-append rs before (overwrite e ∷ behind) a (over e matches, b.1))
]

registered_current :
    (e : RegisteredKernelEvent) (rs before behind : List Registration) (r : Registration)
    → rs ≡ before ++ (r ∷ behind)
    → is_of r e ≡ true
    → is_current e rs ≡ true
registered_current e rs before behind r split o =
    subst (λ ss. is_current e ss ≡ true) (sym split) (own_current e before behind r o)

trigger_user_event-Current :
    (ident word : ℕ) (q : EventQueue)
    → Current q.registrations q.pending_events
    → let q' = (trigger_user_event ident word q).0 in Current q'.registrations q'.pending_events
unfolding trigger_user_event
trigger_user_event-Current ident word q c =
    elim (Option-cases (find_if (matches_event ident event_filter_user) q.registrations)) [
      | inl f ↦ rw (f, trigger_user_event) c
      | inr ((before, r, behind), f) ↦
          let (split, _) =
            find_if_found (matches_event ident event_filter_user) q.registrations before behind r
              f in
          rw (f, trigger_user_event)
            (put-Current (λ e. record e { event = user_event r word }) (user_entry r word) r
              q.registrations q.pending_events
              (registered_current (user_entry r word) q.registrations before behind r split
                (own_generation r))
              (λ e o.
                registered_current (record e { event = user_event r word }) q.registrations before
                  behind r split (ground (arith, own_generation r, o)))
              c)
    ]

trigger_first_by_filter-Current :
    (filter : ℤ) (word : ℕ) (q : EventQueue)
    → Current q.registrations q.pending_events
    → let q' = (trigger_first_by_filter filter word q).0 in
      Current q'.registrations q'.pending_events
unfolding trigger_first_by_filter
trigger_first_by_filter-Current filter word q c =
    elim (Option-cases (find_if (λ r. same_filter r.filter filter) q.registrations)) [
      | inl f ↦ rw (f, trigger_first_by_filter) c
      | inr ((before, r, behind), f) ↦
          let (split, _) =
            find_if_found (λ s. same_filter s.filter filter) q.registrations before behind r f in
          let entry = filter_entry r word in
          let own =
            registered_current entry q.registrations before behind r split (own_generation r) in
          rw (f, trigger_first_by_filter)
            (put-Current (λ e. entry) entry r q.registrations q.pending_events own (λ e o. own) c)
    ]

still_current :
    (ident : ℕ) (filter : ℤ) (before behind : List Registration) (r s : Registration)
    (e : RegisteredKernelEvent)
    → matches_event ident filter r ≡ true
    → is_for ident filter e ≡ false
    → is_current e (before ++ (r ∷ behind)) ≡ true
    → is_current e (before ++ (s ∷ behind)) ≡ true
unfolding is_current
still_current ident filter before behind r s e f g h = ground (
  arith,
  f,
  g,
  h,
  is_current-append e before (r ∷ behind),
  is_current-append e before (s ∷ behind),
)

appended_current :
    (e : RegisteredKernelEvent) (rs ss : List Registration)
    → is_current e rs ≡ true
    → is_current e (rs ++ ss) ≡ true
appended_current e rs ss h = ground (arith, h, is_current-append e rs ss)

register_found-Current :
    (ident : ℕ) (filter : ℤ) (flags word : ℕ)
    (found : Option (List Registration × Registration × List Registration)) (q : EventQueue)
    → find_if (matches_event ident filter) q.registrations ≡ found
    → Current q.registrations q.pending_events
    → let q' = (register_found ident filter flags word found q).0 in
      Current q'.registrations q'.pending_events
register_found-Current ident filter flags word none q f c =
    elim (Bool-cases q.generation_exhausted) [
      | inl x ↦ simp x c
      | inr x ↦ simp x (
          erased_Current ident filter q.registrations _ q.pending_events
            (λ e g h. appended_current e q.registrations _ h) c)
    ]
register_found-Current ident filter flags word (some (before, r, behind)) q f c =
    let (split, matches) =
      find_if_found (matches_event ident filter) q.registrations before behind r f in
    elim (Bool-cases ((r.flags == flags) && (r.user_data == word))) [
      | inl s ↦ simp s c
      | inr s ↦ elim (Bool-cases q.generation_exhausted) [
        | inl x ↦ simp (s, x) c
        | inr x ↦
            simp (s, x)
              (erased_Current ident filter q.registrations _ q.pending_events
                (λ e g h.
                  still_current ident filter before behind r _ e matches g
                    (subst (λ rs. is_current e rs ≡ true) split h))
                c)
      ]
    ]

pub data QueueCall : Type 0 where
  registers_event : ℕ → ℤ → (flags word : ℕ) → QueueCall
  deletes_event : ℕ → ℤ → QueueCall
  triggers_user_event : (ident word : ℕ) → QueueCall
  triggers_first : ℤ → ℕ → QueueCall
  polls : ℕ → QueueCall

unfoldable pub run_call : QueueCall → EventQueue → EventQueue
run_call (registers_event ident filter flags word) q = (register_event ident filter flags word q).0
run_call (deletes_event ident filter) q = (delete_event ident filter q).0
run_call (triggers_user_event ident word) q = (trigger_user_event ident word q).0
run_call (triggers_first filter word) q = (trigger_first_by_filter filter word q).0
run_call (polls maximum_count) q = (poll maximum_count q).0

unfoldable pub run_calls : List QueueCall → EventQueue → EventQueue
run_calls [] q = q
run_calls (c ∷ cs) q = run_calls cs (run_call c q)

run_call-Current :
    (c : QueueCall) (q : EventQueue)
    → Current q.registrations q.pending_events
    → Current (run_call c q).registrations (run_call c q).pending_events
unfolding run_call register_event
run_call-Current (registers_event ident filter flags word) q h =
    register_found-Current ident filter flags word
      (find_if (matches_event ident filter) q.registrations) q refl h
run_call-Current (deletes_event ident filter) q h = delete_event-Current ident filter q h
run_call-Current (triggers_user_event ident word) q h = trigger_user_event-Current ident word q h
run_call-Current (triggers_first filter word) q h = trigger_first_by_filter-Current filter word q h
run_call-Current (polls maximum_count) q h = (poll-Current maximum_count q h).1

run_calls-Current :
    (cs : List QueueCall) (q : EventQueue)
    → Current q.registrations q.pending_events
    → Current (run_calls cs q).registrations (run_calls cs q).pending_events
unfolding run_calls
run_calls-Current [] q h = h
run_calls-Current (c ∷ cs) q h = run_calls-Current cs (run_call c q) (run_call-Current c q h)

-- After any sequence of calls on a new queue, Poll returns only events whose registration is there
-- with the generation for which they were triggered: what was deleted or registered anew is never
-- reported.
pub polled_events-Current :
    (name : Bytes) (cs : List QueueCall) (maximum_count : ℕ)
    → let q = run_calls cs (new_queue name) in Current q.registrations (poll maximum_count q).1
polled_events-Current name cs maximum_count =
    (poll-Current maximum_count (run_calls cs (new_queue name))
      (run_calls-Current cs (new_queue name) (unfold new_queue in tt))).0
