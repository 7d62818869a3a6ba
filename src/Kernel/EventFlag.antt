-- ===== src/Kernel/EventFlag.antt =====
-- src/kernel/event_flag.h and src/kernel/event_flag.cpp: EventFlag and EventFlagService. The service's
-- mutex makes each method one step; `now` is the clock that its calls of the scheduler read.
pub mod Service
use Prim.Native.Nat.{bit_and, bit_or}
use kaj_ps.Base.{
  ℕ, ◌-◌, ◌^◌, Bool, true, false, not, ◌&&◌, ◌||◌, Option, none, some, ◌==◌, ltb, length,
  if◌then◌else◌,
}
use kaj_ps.Base.Text.{Bytes}
use kaj_ps.Kernel.Status.{
  KernelStatus, kernel_ok, invalid_argument, not_found, busy, would_block, no_resources,
}
use kaj_ps.Kernel.WaitKeys.{event_flag_key}
use kaj_ps.Kernel.Objects.{EventFlag, KernelObject, event_flag_object, event_flag}
use kaj_ps.Kernel.Handles
use kaj_ps.Kernel.Handles.{HandleTable, invalid_kernel_handle}
use kaj_ps.Kernel.Scheduler.Methods.{block_current}
use kaj_ps.Kernel.Scheduler.Machine.{Machine, wake_waiting}

abbrev pub maximum_event_flag_name_length : ℕ
maximum_event_flag_name_length = 31

pub data EventFlagWaitCondition : Type 0 where
  wait_all wait_any : EventFlagWaitCondition

pub data EventFlagClearMode : Type 0 where
  clear_none clear_all clear_pattern : EventFlagClearMode

-- ~x on std::uint64_t
abbrev pub complement : ℕ → ℕ
complement x = 2 ^ 64 - 1 - x

-- EventFlag::Set
unfoldable pub set_bits : ℕ → EventFlag → EventFlag
set_bits pattern f = record f { bits = bit_or f.bits pattern }

-- EventFlag::Clear
unfoldable pub clear_bits : ℕ → EventFlag → EventFlag
clear_bits mask f = record f { bits = bit_and f.bits mask }

abbrev pub is_satisfied : ℕ → EventFlagWaitCondition → ℕ → Bool
is_satisfied pattern wait_all bits = bit_and bits pattern == pattern
is_satisfied pattern wait_any bits = not (bit_and bits pattern == 0)

-- The bits that a satisfied poll leaves.
abbrev pub left_bits : ℕ → EventFlagClearMode → ℕ → ℕ
left_bits pattern clear_none bits = bits
left_bits pattern clear_all bits = 0
left_bits pattern clear_pattern bits = bit_and bits (complement pattern)

-- EventFlag::Poll: the flag, whether it was satisfied, and the pattern observed.
unfoldable pub poll_bits :
    ℕ → EventFlagWaitCondition → EventFlagClearMode → EventFlag → EventFlag × Bool × ℕ
poll_bits pattern condition mode f =
    if is_satisfied pattern condition f.bits
    then (record f { bits = left_bits pattern mode f.bits }, true, f.bits)
    else (f, false, f.bits)

-- EventFlagService::IsValidAttributes; ~0x33U is of std::uint32_t.
unfoldable pub is_valid_attributes : ℕ → Bool
is_valid_attributes attributes =
    let queue_mode = bit_and attributes 0x0f in
    let thread_mode = bit_and attributes 0xf0 in
    let queue_valid = queue_mode == 0 || queue_mode == 0x01 || queue_mode == 0x02 in
    let thread_valid = thread_mode == 0 || thread_mode == 0x10 || thread_mode == 0x20 in
    queue_valid && thread_valid && (bit_and attributes (2 ^ 32 - 1 - 0x33) == 0)

abbrev pub decode_condition : ℕ → Option EventFlagWaitCondition
decode_condition mode =
    if mode == 0x01 then some wait_all else if mode == 0x02 then some wait_any else none

abbrev pub decode_clear : ℕ → Option EventFlagClearMode
decode_clear mode =
    if mode == 0
    then some clear_none
    else if mode == 0x10
    then some clear_all
    else if mode == 0x20
    then some clear_pattern
    else none

-- EventFlagService::DecodeWaitMode
unfoldable pub decode_wait_mode : ℕ → Option (EventFlagWaitCondition × EventFlagClearMode)
decode_wait_mode mode = elim (decode_condition (bit_and mode 0x0f)) [
  | none ↦ none
  | some condition ↦ elim (decode_clear (bit_and mode 0xf0)) [
    | none ↦ none
    | some clear ↦ if bit_and mode (2 ^ 32 - 1 - 0x33) == 0 then some (condition, clear) else none
  ]
]

-- EventFlagService::Create
unfoldable pub create : Bytes → ℕ → ℕ → Machine → Machine × KernelStatus × ℕ
create name attributes initial m =
    let object =
      event_flag_object (record { name = name; attributes = attributes; bits = initial }) in
    let (handles, handle) = Handles.insert (some object) m.handles in
    if ltb maximum_event_flag_name_length (length name) || not (is_valid_attributes attributes)
    then (m, invalid_argument, invalid_kernel_handle)
    else elim handle [
      | none ↦ (record m { handles = handles }, no_resources, invalid_kernel_handle)
      | some h ↦ (record m { handles = handles }, kernel_ok, h)
    ]

abbrev as_event_flag : Option KernelObject → Option EventFlag
as_event_flag (some (event_flag_object f)) = some f
as_event_flag _ = none

-- EventFlagService::Find
unfoldable pub find : ℕ → Machine → Option EventFlag
find h m = as_event_flag (Handles.find h event_flag m.handles)

-- EventFlagService::Delete
unfoldable pub delete : ℕ → ℕ → Machine → Machine × KernelStatus
delete now h m =
    let (handles, removed) = Handles.remove h event_flag m.handles in
    elim removed [
      | none ↦ (m, not_found)
      | some o ↦ (wake_waiting now (event_flag_key h) (record m { handles = handles }), kernel_ok)
    ]

-- A write through the pointer to the event flag.
unfoldable pub store : ℕ → EventFlag → Machine → Machine
store h f m = record m { handles = Handles.write h (event_flag_object f) m.handles }

-- EventFlagService::Set
unfoldable pub set : ℕ → ℕ → ℕ → Machine → Machine × KernelStatus
set now h pattern m = elim (find h m) [
  | none ↦ (m, not_found)
  | some f ↦ (wake_waiting now (event_flag_key h) (store h (set_bits pattern f) m), kernel_ok)
]

-- EventFlagService::Clear
unfoldable pub clear : ℕ → ℕ → Machine → Machine × KernelStatus
clear h mask m = elim (find h m) [
  | none ↦ (m, not_found)
  | some f ↦ (store h (clear_bits mask f) m, kernel_ok)
]

-- EventFlagService::Poll behind its search for the flag, by the decoded mode.
abbrev pub poll_found :
    ℕ
    → ℕ
    → Option (EventFlagWaitCondition × EventFlagClearMode)
    → EventFlag
    → Machine
    → Machine × KernelStatus × ℕ
poll_found h pattern none f m = (m, invalid_argument, 0)
poll_found h pattern (some (condition, mode)) f m =
    let (f', satisfied, observed) = poll_bits pattern condition mode f in
    if pattern == 0
    then (m, invalid_argument, 0)
    else (store h f' m, if satisfied then kernel_ok else busy, observed)

-- EventFlagService::Poll
unfoldable pub poll : ℕ → ℕ → ℕ → Machine → Machine × KernelStatus × ℕ
poll h pattern wait_mode m = elim (find h m) [
  | none ↦ (m, not_found, 0)
  | some f ↦ poll_found h pattern (decode_wait_mode wait_mode) f m
]

-- The rest of EventFlagService::Wait behind its call of Poll.
abbrev pub block_if_busy : ℕ → Machine × KernelStatus × ℕ → Machine × KernelStatus × ℕ
block_if_busy h (m, busy, observed) =
    let (scheduler, blocked) = block_current (event_flag_key h) none m.scheduler in
    if blocked
    then (record m { scheduler = scheduler }, would_block, observed)
    else (m, busy, observed)
block_if_busy h (m, status, observed) = (m, status, observed)

-- EventFlagService::Wait
unfoldable pub wait : ℕ → ℕ → ℕ → Machine → Machine × KernelStatus × ℕ
wait h pattern wait_mode m = block_if_busy h (poll h pattern wait_mode m)
