-- ===== src/Kernel/Objects.antt =====
-- src/kernel/object.h, and the objects that a handle can stand for: the state of src/kernel/semaphore.h and
-- src/kernel/event_flag.h. A thread's own state is kept by the scheduler's map, to which the table's
-- entry is a second pointer that only its type is read through.
use kaj_ps.Base.{ℕ, Bool, ◌==◌}
use kaj_ps.Base.Int.{ℤ}
use kaj_ps.Base.Text.{Bytes}

pub data KernelObjectType : Type 0 where
  directory event_queue event_flag file semaphore thread timer : KernelObjectType

-- The `std::uint8_t` that stands behind the enumeration, by which two types are compared.
abbrev pub type_code : KernelObjectType → ℕ
type_code directory = 0
type_code event_queue = 1
type_code event_flag = 2
type_code file = 3
type_code semaphore = 4
type_code thread = 5
type_code timer = 6

abbrev pub same_type : KernelObjectType → KernelObjectType → Bool
same_type a b = type_code a == type_code b

pub record Semaphore : Type 0 where
  pub name : Bytes
  pub attributes : ℕ
  pub maximum_count : ℤ
  pub count : ℤ

pub record EventFlag : Type 0 where
  pub name : Bytes
  pub attributes : ℕ
  pub bits : ℕ

pub data KernelObject : Type 0 where
  semaphore_object : Semaphore → KernelObject
  event_flag_object : EventFlag → KernelObject
  directory_object event_queue_object file_object thread_object timer_object : KernelObject

-- KernelObject::type
abbrev pub type_of : KernelObject → KernelObjectType
type_of (semaphore_object s) = semaphore
type_of (event_flag_object f) = event_flag
type_of directory_object = directory
type_of event_queue_object = event_queue
type_of file_object = file
type_of thread_object = thread
type_of timer_object = timer
