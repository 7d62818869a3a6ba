-- ===== src/Kernel/Semaphore.antt =====
-- src/kernel/semaphore.h and src/kernel/semaphore.cpp: Semaphore and SemaphoreService. The service's mutex
-- makes each method one step; `now` is the clock that its calls of the scheduler read. Counts are
-- std::int32_t and are kept as integers.
pub mod Counts
pub mod Service
pub mod Waiting
pub mod History
use kaj_ps.Base.{
  ℕ, Bool, true, false, not, ◌&&◌, ◌||◌, Option, none, some, ◌==◌, ltb, length, if◌then◌else◌,
}
use kaj_ps.Base.Int.{ℤ, pos, ◌+ℤ◌, ◌-ℤ◌, ltb_ℤ, leb_ℤ}
use kaj_ps.Base.Text.{Bytes}
use kaj_ps.Kernel.Status.{
  KernelStatus, kernel_ok, invalid_argument, not_found, busy, would_block, no_resources,
}
use kaj_ps.Kernel.WaitKeys.{semaphore_key}
use kaj_ps.Kernel.Objects.{Semaphore, KernelObject, semaphore_object, semaphore}
use kaj_ps.Kernel.Handles
use kaj_ps.Kernel.Handles.{HandleTable, invalid_kernel_handle}
use kaj_ps.Kernel.Scheduler.Methods.{block_current}
use kaj_ps.Kernel.Scheduler.Machine.{Machine, wake_waiting}

abbrev pub maximum_semaphore_name_length : ℕ
maximum_semaphore_name_length = 128

-- Semaphore::Signal
unfoldable pub signal_count : ℤ → Semaphore → Semaphore × KernelStatus
signal_count n s =
    if leb_ℤ n (pos 0)
    then (s, invalid_argument)
    else if ltb_ℤ (s.maximum_count -ℤ s.count) n
    then (s, invalid_argument)
    else (record s { count = s.count +ℤ n }, kernel_ok)

-- Semaphore::TryAcquire; the last result is what is left in `remaining_count`, 0 before the call.
unfoldable pub try_acquire : ℤ → Semaphore → Semaphore × KernelStatus × ℤ
try_acquire n s =
    if leb_ℤ n (pos 0) || ltb_ℤ s.maximum_count n
    then (s, invalid_argument, pos 0)
    else if ltb_ℤ s.count n
    then (s, busy, s.count)
    else (record s { count = s.count -ℤ n }, kernel_ok, s.count -ℤ n)

-- SemaphoreService::IsValidAttributes
unfoldable pub is_valid_attributes : ℕ → Bool
is_valid_attributes attributes = attributes == 0 || attributes == 1 || attributes == 2

-- The arguments that SemaphoreService::Create refuses.
unfoldable pub is_refused : Bytes → ℕ → ℤ → ℤ → Bool
is_refused name attributes initial maximum =
    ltb maximum_semaphore_name_length (length name)
    || not (is_valid_attributes attributes)
    || ltb_ℤ initial (pos 0)
    || leb_ℤ maximum (pos 0)
    || ltb_ℤ maximum initial

-- Semaphore's constructor
abbrev pub new_semaphore : Bytes → ℕ → ℤ → ℤ → Semaphore
new_semaphore name attributes initial maximum = record {
  name = name;
  attributes = attributes;
  maximum_count = maximum;
  count = initial;
}

-- SemaphoreService::Create
unfoldable pub create : Bytes → ℕ → ℤ → ℤ → Machine → Machine × KernelStatus × ℕ
create name attributes initial maximum m =
    let object = semaphore_object (new_semaphore name attributes initial maximum) in
    let (handles, handle) = Handles.insert (some object) m.handles in
    if is_refused name attributes initial maximum
    then (m, invalid_argument, invalid_kernel_handle)
    else elim handle [
      | none ↦ (record m { handles = handles }, no_resources, invalid_kernel_handle)
      | some h ↦ (record m { handles = handles }, kernel_ok, h)
    ]

abbrev as_semaphore : Option KernelObject → Option Semaphore
as_semaphore (some (semaphore_object s)) = some s
as_semaphore _ = none

-- SemaphoreService::Find
unfoldable pub find : ℕ → Machine → Option Semaphore
find h m = as_semaphore (Handles.find h semaphore m.handles)

-- SemaphoreService::Delete
unfoldable pub delete : ℕ → ℕ → Machine → Machine × KernelStatus
delete now h m =
    let (handles, removed) = Handles.remove h semaphore m.handles in
    elim removed [
      | none ↦ (m, not_found)
      | some o ↦ (wake_waiting now (semaphore_key h) (record m { handles = handles }), kernel_ok)
    ]

-- A write through the pointer to the semaphore.
unfoldable pub store : ℕ → Semaphore → Machine → Machine
store h s m = record m { handles = Handles.write h (semaphore_object s) m.handles }

-- The wake of SemaphoreService::Signal, after a successful Semaphore::Signal only.
abbrev pub wake_if_ok : ℕ → ℕ → KernelStatus → Machine → Machine
wake_if_ok now h kernel_ok m = wake_waiting now (semaphore_key h) m
wake_if_ok now h status m = m

-- SemaphoreService::Signal
unfoldable pub signal : ℕ → ℕ → ℤ → Machine → Machine × KernelStatus
signal now h n m = elim (find h m) [
  | none ↦ (m, not_found)
  | some s ↦ let (s', status) = signal_count n s in (wake_if_ok now h status (store h s' m), status)
]

-- SemaphoreService::Poll
unfoldable pub poll : ℕ → ℤ → Machine → Machine × KernelStatus × ℤ
poll h n m = elim (find h m) [
  | none ↦ (m, not_found, pos 0)
  | some s ↦ let (s', status, remaining) = try_acquire n s in (store h s' m, status, remaining)
]

-- The rest of SemaphoreService::Wait behind its call of Poll.
abbrev pub block_if_busy : ℕ → Machine × KernelStatus × ℤ → Machine × KernelStatus × ℤ
block_if_busy h (m, busy, remaining) =
    let (scheduler, blocked) = block_current (semaphore_key h) none m.scheduler in
    if blocked
    then (record m { scheduler = scheduler }, would_block, remaining)
    else (m, busy, remaining)
block_if_busy h (m, status, remaining) = (m, status, remaining)

-- SemaphoreService::Wait
unfoldable pub wait : ℕ → ℤ → Machine → Machine × KernelStatus × ℤ
wait h n m = block_if_busy h (poll h n m)

-- SemaphoreService::GetCount
unfoldable pub get_count : ℕ → Machine → KernelStatus × ℤ
get_count h m = elim (find h m) [ none ↦ (not_found, pos 0) | some s ↦ (kernel_ok, s.count) ]
