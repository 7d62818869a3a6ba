-- ===== src/Kernel.antt =====
-- The kernel services of src/kernel.
pub mod Status
pub mod WaitKeys
pub mod Objects
pub mod Handles
pub mod Scheduler
pub mod Semaphore
pub mod DirectMemory
pub mod CxaGuard
pub mod LibcHeap
pub mod EventQueue
pub mod ProcessLifecycle
pub mod EventFlag
mod Tests
