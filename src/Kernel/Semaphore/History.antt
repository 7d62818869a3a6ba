-- ===== src/Kernel/Semaphore/History.antt =====
-- One call of SemaphoreService of src/kernel/semaphore.cpp, and the invariants of the scheduler, the
-- handle table and the counts.
use kaj_ps.Base.{
  ℕ, ◌≡◌, ◌∙◌, subst, sym, refl, false, some, arith, inl, inr, Option-cases, Bool-cases,
  if◌then◌else◌, ◌==◌,
}
use kaj_ps.Base.Int.{ℤ, ◌≤ℤ◌}
use kaj_ps.Base.Text.{Bytes}
use kaj_ps.Kernel.Status.{KernelStatus, kernel_ok}
use kaj_ps.Kernel.WaitKeys.{semaphore_key}
use kaj_ps.Kernel.Objects.{Semaphore, semaphore_object, semaphore}
use kaj_ps.Kernel.Handles
use kaj_ps.Kernel.Handles.Inv as HandlesInv
use kaj_ps.Kernel.Scheduler.Machine.{Machine, Good, wake_waiting, removes, inserts, here, next}
use kaj_ps.Kernel.Scheduler.History.{Reach-Good}
use kaj_ps.Kernel.Scheduler.WakeWaiting.{wake_waiting-Good}
use kaj_ps.Kernel.Semaphore.{
  wake_if_ok, is_refused, new_semaphore, create, find, delete, store, signal, poll, wait,
  signal_count, try_acquire,
}
use kaj_ps.Kernel.Semaphore.Counts.{Inv, signal_count_lem, try_acquire_lem, int32_max}
use kaj_ps.Kernel.Semaphore.Service.{find-store, store-Good, wake_waiting-find}
use kaj_ps.Kernel.Semaphore.Waiting.{wait-Reach, wait-find}

-- Every semaphore of the table has its counts in range.
pub record Safe (m : Machine) : Type 0 where
  pub good : Good m
  pub valid : (h : ℕ) (s : Semaphore) → find h m ≡ some s → Inv s

pub data Call : Type 0 where
  creates : Bytes → ℕ → ℤ → ℤ → Call
  deletes : ℕ → ℕ → Call
  signals : ℕ → ℕ → ℤ → Call
  polls : ℕ → ℤ → Call
  waits : ℕ → ℤ → Call

-- The maximum that Create is given is a std::int32_t.
abbrev pub InRange : Call → Type 0
InRange (creates name attributes initial maximum) = maximum ≤ℤ int32_max
InRange _ = Unit {0}

unfoldable pub perform : Call → Machine → Machine
perform (creates name attributes initial maximum) m = (create name attributes initial maximum m).0
perform (deletes now h) m = (delete now h m).0
perform (signals now h n) m = (signal now h n m).0
perform (polls h n) m = (poll h n m).0
perform (waits h n) m = (wait h n m).0

store-Safe :
    (h : ℕ) (s s' : Semaphore) (m : Machine)
    → find h m ≡ some s
    → Inv s'
    → Safe m
    → Safe (store h s' m)
store-Safe h s s' m e v g = record {
  good = store-Good h s s' m e g.good;
  valid = λ k u f. elim (Bool-cases (h == k)) [
    | inl same ↦ subst Inv (ground (arith, find-store h k s s' m e)) v
    | inr other ↦ g.valid k u (ground (arith, find-store h k s s' m e))
  ];
}

wake_waiting-Safe : (now : ℕ) (key : Bytes) (m : Machine) → Safe m → Safe (wake_waiting now key m)
wake_waiting-Safe now key m g = record {
  good = wake_waiting-Good now key m g.good;
  valid = λ k u f. g.valid k u (sym (wake_waiting-find now key k m) ∙ f);
}

after_signal-Safe :
    (now h : ℕ) (status : KernelStatus) (m : Machine) → Safe m → Safe (wake_if_ok now h status m)
after_signal-Safe now h kernel_ok m g = wake_waiting-Safe now (semaphore_key h) m g
after_signal-Safe now h _ m g = g

signal-Safe : (now h : ℕ) (n : ℤ) (m : Machine) → Safe m → Safe (signal now h n m).0
unfolding signal
signal-Safe now h n m g = elim (Option-cases (find h m)) [
  | inl e ↦ rw (e, signal) g
  | inr (s, e) ↦
      let stored =
        store-Safe h s (signal_count n s).0 m e (signal_count_lem n s (g.valid h s e)).0 g in
      rw (e, signal) (after_signal-Safe now h (signal_count n s).1 _ stored)
]

poll-Safe : (h : ℕ) (n : ℤ) (m : Machine) → Safe m → Safe (poll h n m).0
unfolding poll
poll-Safe h n m g = elim (Option-cases (find h m)) [
  | inl e ↦ rw (e, poll) g
  | inr (s, e) ↦
      rw (e, poll)
        (store-Safe h s (try_acquire n s).0 m e (try_acquire_lem n s (g.valid h s e)).0 g)
]

wait-Safe : (h : ℕ) (n : ℤ) (m : Machine) → Safe m → Safe (wait h n m).0
wait-Safe h n m g =
    let polled = poll-Safe h n m g in
    record {
      good = Reach-Good g.good (wait-Reach h n m);
      valid = λ k s f. polled.valid k s (sym (wait-find h k n m) ∙ f);
    }

find_after_insert :
    (h k : ℕ) (s : Semaphore) (m : Machine)
    → Good m
    → (Handles.insert (some (semaphore_object s)) m.handles).1 ≡ some h
    → find k (record m { handles = (Handles.insert (some (semaphore_object s)) m.handles).0 })
      ≡ (if h == k then some s else find k m)
unfolding find Handles.find
find_after_insert h k s m g e =
    ground (arith, HandlesInv.insert_entries (semaphore_object s) m.handles h k g.table e)

new_semaphore-Inv :
    (name : Bytes) (attributes : ℕ) (initial maximum : ℤ)
    → maximum ≤ℤ int32_max
    → is_refused name attributes initial maximum ≡ false
    → Inv (new_semaphore name attributes initial maximum)
unfolding is_refused
new_semaphore-Inv name attributes initial maximum small e = record {
  positive = ground (arith, e);
  in_range = small;
  nonnegative = ground (arith, e);
  bounded = ground (arith, e);
}

insert-Safe :
    (h : ℕ) (s : Semaphore) (m : Machine)
    → (Handles.insert (some (semaphore_object s)) m.handles).1 ≡ some h
    → Inv s
    → Safe m
    → Safe (record m { handles = (Handles.insert (some (semaphore_object s)) m.handles).0 })
insert-Safe h s m e v g = record {
  good = Reach-Good g.good (next here (inserts (semaphore_object s)));
  valid = λ k u f. elim (Bool-cases (h == k)) [
    | inl same ↦ subst Inv (ground (arith, find_after_insert h k s m g.good e)) v
    | inr other ↦ g.valid k u (ground (arith, find_after_insert h k s m g.good e))
  ];
}

create-Safe :
    (name : Bytes) (attributes : ℕ) (initial maximum : ℤ) (m : Machine)
    → maximum ≤ℤ int32_max
    → Safe m
    → Safe (create name attributes initial maximum m).0
unfolding create
create-Safe name attributes initial maximum m small g =
    let object = new_semaphore name attributes initial maximum in
    elim (Bool-cases (is_refused name attributes initial maximum)) [
      | inl e ↦ rw (e, create) g
      | inr fine ↦
          elim (Option-cases (Handles.insert (some (semaphore_object object)) m.handles).1) [
            | inl e ↦
                rw (fine, e, create)
                  (rw (HandlesInv.insert_refused-table (semaphore_object object) m.handles e) g)
            | inr (h, e) ↦
                rw (fine, e, create)
                  (insert-Safe h object m e
                    (new_semaphore-Inv name attributes initial maximum small fine) g)
          ]
    ]

find_after_remove :
    (h k : ℕ) (m : Machine) (s : Semaphore)
    → find k (record m { handles = (Handles.remove h semaphore m.handles).0 }) ≡ some s
    → find k m ≡ some s
unfolding find Handles.find
find_after_remove h k m s e = ground (arith, HandlesInv.remove_entries h k semaphore m.handles)

delete-Safe : (now h : ℕ) (m : Machine) → Safe m → Safe (delete now h m).0
unfolding delete
delete-Safe now h m g = elim (Option-cases (Handles.remove h semaphore m.handles).1) [
  | inl e ↦ rw (e, delete) g
  | inr (o, e) ↦
      let left : Machine = record m { handles = (Handles.remove h semaphore m.handles).0 } in
      let removed : Safe left = record {
        good = Reach-Good g.good (next here (removes h semaphore refl));
        valid = λ k u f. g.valid k u (find_after_remove h k m u f);
      } in
      rw (e, delete) (wake_waiting-Safe now (semaphore_key h) left removed)
]

-- Whatever call is made of the service, the scheduler and the handle table keep their invariants and
-- every semaphore keeps its count between 0 and its maximum.
pub perform-Safe : (c : Call) (m : Machine) → InRange c → Safe m → Safe (perform c m)
unfolding perform
perform-Safe (creates name attributes initial maximum) m r g =
    create-Safe name attributes initial maximum m r g
perform-Safe (deletes now h) m r g = delete-Safe now h m g
perform-Safe (signals now h n) m r g = signal-Safe now h n m g
perform-Safe (polls h n) m r g = poll-Safe h n m g
perform-Safe (waits h n) m r g = wait-Safe h n m g
