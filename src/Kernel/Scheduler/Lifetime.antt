-- ===== src/Kernel/Scheduler/Lifetime.antt =====
-- CreateThread and DiscardReadyThread on the scheduler together with the handle table.
use kaj_ps.Base.{
  ℕ, ◌≤◌, ◌++◌, ◌≡◌, ◌∙◌, true, [], ◌∷◌, none, some, arith, inl, inr, Option-cases, Bool-cases,
  count-append, count-erase_all, ltb, length,
}
use kaj_ps.Base.Int.{ℤ}
use kaj_ps.Base.Text.{Bytes}
use kaj_ps.Base.Assoc
use kaj_ps.Kernel.Handles
use kaj_ps.Kernel.Handles.{HandleTable}
use kaj_ps.Kernel.Handles.Inv as HandlesInv
use kaj_ps.Kernel.Objects.{KernelObject, thread_object, thread}
use kaj_ps.Kernel.Scheduler.Threads.{
  GuestThread, Scheduler, is_ready, new_thread, maximum_guest_thread_name_length,
}
use kaj_ps.Kernel.Scheduler.Methods.{create_thread, drop_thread, discard_ready_thread}
use kaj_ps.Kernel.Scheduler.Inv.{Inv}
use kaj_ps.Kernel.Scheduler.Machine.{Machine, Good, create, discard}

-- A handle that the table has not given out is no thread's.
fresh_thread :
    (m : Machine) (h : ℕ)
    → Good m
    → Assoc.find h m.handles.objects ≡ none
    → Assoc.find h m.scheduler.threads ≡ none
fresh_thread m h g e = elim (Option-cases (Assoc.find h m.scheduler.threads)) [
  | inl f ↦ f
  | inr (t, f) ↦ ground (arith, g.linked h, e, f)
]

add_thread-Inv :
    (h : ℕ) (name : Bytes) (priority : ℤ) (entry argument : ℕ) (s : Scheduler)
    → 1 ≤ h
    → Assoc.find h s.threads ≡ none
    → Inv s
    → Inv (record s {
      threads = Assoc.emplace h (new_thread name priority entry argument) s.threads;
      ready_threads = s.ready_threads ++ (h ∷ []);
    })
add_thread-Inv h name priority entry argument s low f v = record {
  sorted = Assoc.emplace-Above 1 h (new_thread name priority entry argument) s.threads low v.sorted;
  queued = λ k. ground (
    arith,
    v.queued k,
    f,
    count-append k s.ready_threads (h ∷ []),
    Assoc.find-emplace k h (new_thread name priority entry argument) s.threads f,
  );
  current = λ k. ground (
    arith,
    v.current k,
    f,
    Assoc.find-emplace k h (new_thread name priority entry argument) s.threads f,
  );
  keyed = λ k. ground (
    arith,
    v.keyed k,
    f,
    Assoc.find-emplace k h (new_thread name priority entry argument) s.threads f,
  );
}

drop_thread-Inv :
    (h : ℕ) (t : GuestThread) (s : Scheduler)
    → Assoc.find h s.threads ≡ some t
    → is_ready t.state ≡ true
    → Inv s
    → Inv (drop_thread h s)
drop_thread-Inv h t s f r v = record {
  sorted = Assoc.erase-Above 1 h s.threads v.sorted;
  queued = λ k.
      ground
        (arith, v.queued k, count-erase_all k h s.ready_threads, Assoc.find-erase k h s.threads);
  current = λ k. ground (arith, v.current k, f, r, Assoc.find-erase k h s.threads);
  keyed = λ k. ground (arith, v.keyed k, Assoc.find-erase k h s.threads);
}

pub create-Good :
    (name : Bytes) (priority : ℤ) (entry argument : ℕ) (m : Machine)
    → Good m
    → Good (create name priority entry argument m)
unfolding create create_thread
create-Good name priority entry argument m g =
    elim (Bool-cases (ltb maximum_guest_thread_name_length (length name))) [
      | inl long ↦ rw (long, create_thread) g
      | inr fits ↦ elim (Option-cases (Handles.insert (some thread_object) m.handles).1) [
        | inl e ↦
            rw (fits, e, create_thread)
              (rw (HandlesInv.insert_refused-table thread_object m.handles e) g)
        | inr (h, e) ↦
            let (low, new, _) = HandlesInv.insert_entries thread_object m.handles h h g.table e in
            let f = fresh_thread m h g new in
            rw (fits, e, create_thread)
              (record {
                table = HandlesInv.insert-Inv (some thread_object) m.handles g.table;
                threads = add_thread-Inv h name priority entry argument m.scheduler low f g.threads;
                linked = λ k p. ground (
                  arith,
                  g.linked k,
                  f,
                  Assoc.find-emplace k h (new_thread name priority entry argument)
                      m.scheduler.threads f,
                  (HandlesInv.insert_entries thread_object m.handles h k g.table e).2,
                );
              })
      ]
    ]

discard_thread-Good :
    (h : ℕ) (t : GuestThread) (o : KernelObject) (m : Machine)
    → Assoc.find h m.scheduler.threads ≡ some t
    → is_ready t.state ≡ true
    → Handles.find h thread m.handles ≡ some o
    → Good m
    → Good (record {
      handles = (Handles.remove h thread m.handles).0;
      scheduler = drop_thread h m.scheduler;
    })
discard_thread-Good h t o m f r e g = record {
  table = HandlesInv.remove-Inv h thread m.handles g.table;
  threads = drop_thread-Inv h t m.scheduler f r g.threads;
  linked = λ k p. ground (
    arith,
    g.linked k,
    Assoc.find-erase k h m.scheduler.threads,
    HandlesInv.remove_entries h k thread m.handles,
  );
}

pub discard-Good : (h : ℕ) (m : Machine) → Good m → Good (discard h m)
unfolding discard discard_ready_thread
discard-Good h m g = elim (Option-cases (Assoc.find h m.scheduler.threads)) [
  | inl e ↦ rw (e, discard_ready_thread) g
  | inr (t, f) ↦ elim (Bool-cases (is_ready t.state)) [
    | inr no_ready ↦ rw (f, no_ready, discard_ready_thread) g
    | inl r ↦
        let result = HandlesInv.remove_result h thread m.handles in
        elim (Option-cases (Handles.find h thread m.handles)) [
          | inl e ↦
              rw (f, r, result ∙ e, discard_ready_thread)
                (rw (HandlesInv.remove_refused-table h thread m.handles e) g)
          | inr (o, e) ↦
              rw (f, r, result ∙ e, discard_ready_thread) (discard_thread-Good h t o m f r e g)
        ]
  ]
]
