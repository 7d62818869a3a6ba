-- ===== src/Kernel/Tests.antt =====
-- The theorems on the kernel services at concrete inputs, and runs of the services.
mod World
mod Handles
mod Scheduler
mod Semaphore
mod DirectMemory
mod Services
mod LibcHeap
mod EventQueues
