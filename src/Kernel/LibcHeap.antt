-- ===== src/Kernel/LibcHeap.antt =====
-- src/kernel/libc_heap.h and src/kernel/libc_heap.cpp: LibcHeapService, the C library's heap and its
-- memory spaces. The mutex makes each method one step.
pub mod Memory
pub mod Mspace
pub mod Resize
pub mod Service
pub mod Ranges
pub mod Inv
pub mod Spaces
pub mod Align
pub mod Moves
pub mod History
pub mod Copy
pub mod Room
