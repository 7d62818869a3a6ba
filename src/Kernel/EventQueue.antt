-- ===== src/Kernel/EventQueue.antt =====
-- src/kernel/event_queue.h and src/kernel/event_queue.cpp: the class EventQueue. Its mutex makes each
-- method one step. Not modelled: a failed allocation of memory. `Service` is EventQueueService.
pub mod Service
pub mod Waits
pub mod Wakes
pub mod Pending
pub mod History
use kaj_ps.Base.{
  ℕ, suc, ◌+◌, ◌-◌, ◌^◌, Bool, true, false, ◌&&◌, Option, none, some, List, [], ◌∷◌, ◌++◌, ◌==◌,
  if◌then◌else◌, length, min, not,
}
use kaj_ps.Base.Int.{ℤ, pos, negsuc, leb_ℤ}
use kaj_ps.Base.Text.{Bytes}
use kaj_ps.Kernel.Status.{KernelStatus, kernel_ok, no_resources, no_such_entry}
use Prim.Native.Nat.{bit_and}

abbrev pub event_filter_user : ℤ
event_filter_user = negsuc 10

abbrev pub event_filter_graphics : ℤ
event_filter_graphics = negsuc 13

abbrev pub event_filter_video_out : ℤ
event_filter_video_out = negsuc 12

abbrev pub event_add : ℕ
event_add = 0x01

abbrev pub event_clear : ℕ
event_clear = 0x20

pub record KernelEvent : Type 0 where
  pub ident : ℕ
  pub filter : ℤ
  pub flags : ℕ
  pub fflags : ℕ
  pub data_word : ℕ
  pub user_data : ℕ

pub record RegisteredKernelEvent : Type 0 where
  pub event : KernelEvent
  pub registration_generation : ℕ
  pub persistent : Bool

pub record Registration : Type 0 where
  pub ident : ℕ
  pub filter : ℤ
  pub flags : ℕ
  pub user_data : ℕ
  pub generation : ℕ

pub record EventQueue : Type 0 where
  pub name : Bytes
  pub registrations : List Registration
  pub pending_events : List RegisteredKernelEvent
  pub next_generation : ℕ
  pub generation_exhausted : Bool

unfoldable pub new_queue : Bytes → EventQueue
new_queue name = record {
  name = name;
  registrations = [];
  pending_events = [];
  next_generation = 1;
  generation_exhausted = false;
}

abbrev pub same_filter : ℤ → ℤ → Bool
same_filter a b = leb_ℤ a b && leb_ℤ b a

abbrev pub matches_event : ℕ → ℤ → Registration → Bool
matches_event ident filter r = (r.ident == ident) && same_filter r.filter filter

abbrev pub is_for : ℕ → ℤ → RegisteredKernelEvent → Bool
is_for ident filter e = (e.event.ident == ident) && same_filter e.event.filter filter

-- std::find_if: the element and what stands before and behind it.
unfoldable pub find_if {ℓ} : {A : Type ℓ} → (A → Bool) → List A → Option (List A × A × List A)
find_if test [] = none
find_if test (x ∷ xs) =
    let rest = find_if test xs in
    if test x
    then some ([], x, xs)
    else elim rest [ none ↦ none | some (before, found, behind) ↦ some (x ∷ before, found, behind) ]

-- std::erase_if
unfoldable pub erase_if {ℓ} : {A : Type ℓ} → (A → Bool) → List A → List A
erase_if test [] = []
erase_if test (x ∷ xs) = let rest = erase_if test xs in if test x then rest else x ∷ rest

-- RegisterEvent for a new generation, which stops at the largest 64-bit number, by the registration found.
abbrev pub register_new :
    ℕ
    → ℤ
    → ℕ
    → ℕ
    → Option (List Registration × Registration × List Registration)
    → EventQueue
    → EventQueue × KernelStatus × ℕ
register_new ident filter flags user_data found q =
    let entry : Registration = record {
      ident = ident;
      filter = filter;
      flags = flags;
      user_data = user_data;
      generation = q.next_generation;
    } in
    if q.generation_exhausted then (q, no_resources, 0) else (
      record q {
        registrations = elim found [
          | none ↦ q.registrations ++ (entry ∷ [])
          | some (before, r, behind) ↦ before ++ (entry ∷ behind)
        ];
        pending_events = erase_if (is_for ident filter) q.pending_events;
        next_generation =
            if q.next_generation == 2 ^ 64 - 1 then q.next_generation else suc q.next_generation;
        generation_exhausted = q.next_generation == 2 ^ 64 - 1;
      },
      kernel_ok,
      q.next_generation,
    )

-- RegisterEvent by the registration found.
abbrev pub register_found :
    ℕ
    → ℤ
    → ℕ
    → ℕ
    → Option (List Registration × Registration × List Registration)
    → EventQueue
    → EventQueue × KernelStatus × ℕ
register_found ident filter flags user_data none q =
    register_new ident filter flags user_data none q
register_found ident filter flags user_data (some (before, r, behind)) q =
    if (r.flags == flags) && (r.user_data == user_data)
    then (q, kernel_ok, r.generation)
    else register_new ident filter flags user_data (some (before, r, behind)) q

-- RegisterEvent
unfoldable pub register_event : ℕ → ℤ → ℕ → ℕ → EventQueue → EventQueue × KernelStatus × ℕ
register_event ident filter flags user_data q =
    register_found ident filter flags user_data
      (find_if (matches_event ident filter) q.registrations) q

-- DeleteEvent
unfoldable pub delete_event : ℕ → ℤ → EventQueue → EventQueue × KernelStatus
delete_event ident filter q = elim (find_if (matches_event ident filter) q.registrations) [
  | none ↦ (q, no_such_entry)
  | some (before, r, behind) ↦ (
    record q {
      registrations = before ++ behind;
      pending_events = erase_if (is_for ident filter) q.pending_events;
    },
    kernel_ok,
  )
]

-- AddUserEvent
unfoldable pub add_user_event : ℕ → Bool → EventQueue → EventQueue × KernelStatus
add_user_event ident edge q =
    let flags : ℕ = if edge then event_add + event_clear else event_add in
    let (q', status, generation) = register_event ident event_filter_user flags 0 q in (q', status)

-- DeleteUserEvent
unfoldable pub delete_user_event : ℕ → EventQueue → EventQueue × KernelStatus
delete_user_event ident q = delete_event ident event_filter_user q

abbrev pub is_of : Registration → RegisteredKernelEvent → Bool
is_of r e = is_for r.ident r.filter e && (e.registration_generation == r.generation)

-- A pending event of the registration is overwritten; otherwise the new one goes to the end.
unfoldable pub put :
    (RegisteredKernelEvent → RegisteredKernelEvent)
    → RegisteredKernelEvent
    → Registration
    → List RegisteredKernelEvent
    → List RegisteredKernelEvent
put overwrite event r pending = elim (find_if (is_of r) pending) [
  | none ↦ pending ++ (event ∷ [])
  | some (before, e, behind) ↦ before ++ (overwrite e ∷ behind)
]

-- The event that TriggerUserEvent makes, and its entry in the queue.
abbrev pub user_event : Registration → ℕ → KernelEvent
user_event r word = record {
  ident = r.ident;
  filter = r.filter;
  flags = r.flags;
  fflags = 0;
  data_word = 0;
  user_data = word;
}

abbrev pub user_entry : Registration → ℕ → RegisteredKernelEvent
user_entry r word = record {
  event = user_event r word;
  registration_generation = r.generation;
  persistent = bit_and r.flags event_clear == 0;
}

-- TriggerUserEvent; an event that is pending already keeps whether it is persistent.
unfoldable pub trigger_user_event : ℕ → ℕ → EventQueue → EventQueue × KernelStatus
trigger_user_event ident word q =
    elim (find_if (matches_event ident event_filter_user) q.registrations) [
      | none ↦ (q, no_such_entry)
      | some (before, r, behind) ↦ (
        record q {
          pending_events =
              put (λ e. record e { event = user_event r word }) (user_entry r word) r
                q.pending_events;
        },
        kernel_ok,
      )
    ]

-- The entry that TriggerFirstByFilter makes.
abbrev pub filter_entry : Registration → ℕ → RegisteredKernelEvent
filter_entry r word = record {
  event = record {
    ident = r.ident;
    filter = r.filter;
    flags = 0;
    fflags = 1;
    data_word = word;
    user_data = r.user_data;
  };
  registration_generation = r.generation;
  persistent = false;
}

-- TriggerFirstByFilter
unfoldable pub trigger_first_by_filter : ℤ → ℕ → EventQueue → EventQueue × Bool
trigger_first_by_filter filter word q =
    elim (find_if (λ r. same_filter r.filter filter) q.registrations) [
      | none ↦ (q, false)
      | some (before, r, behind) ↦ (
        record q {
          pending_events = put (λ e. filter_entry r word) (filter_entry r word) r q.pending_events;
        },
        true,
      )
    ]

-- The first `n` events and the others.
unfoldable pub split_at :
    ℕ → List RegisteredKernelEvent → List RegisteredKernelEvent × List RegisteredKernelEvent
split_at n [] = ([], [])
split_at n (e ∷ es) =
    let (front, back) = split_at (n - 1) es in if n == 0 then ([], e ∷ es) else (e ∷ front, back)

-- Poll
unfoldable pub poll : ℕ → EventQueue → EventQueue × List RegisteredKernelEvent
poll maximum_count q =
    let (events, others) =
      split_at (min maximum_count (length q.pending_events)) q.pending_events in
    (record q { pending_events = others ++ erase_if (λ e. not e.persistent) events }, events)

-- IsCurrent
unfoldable pub is_current : RegisteredKernelEvent → List Registration → Bool
is_current e [] = false
is_current e (r ∷ rs) =
    let rest = is_current e rs in
    if matches_event e.event.ident e.event.filter r && (r.generation == e.registration_generation)
    then true
    else rest
