-- ===== src/Kernel/Scheduler.antt =====
-- GuestScheduler of src/kernel/guest_scheduler.h and src/kernel/guest_scheduler.cpp.
pub mod Threads
pub mod Methods
pub mod Wakes
pub mod Inv
pub mod WakeInv
pub mod Preserve
pub mod Domain
pub mod Machine
pub mod Lifetime
pub mod History
pub mod Order
pub mod Blocking
pub mod WakeWaiting
pub mod WakeOne
