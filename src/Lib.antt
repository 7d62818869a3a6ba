-- ===== src/Lib.antt =====
-- Verification of the kernel services and of the loader of KajPS5.
--
-- The emulator gives a guest process the kernel that it expects. Its services (src/kernel) share
-- one table of handles and one cooperative scheduler of guest threads: a service finds an object by
-- its handle, and where a call must wait it blocks the running thread on a wait key, a string that
-- names the object, until another call wakes the threads of that key.
-- Before a program runs, the loader (src/loader) resolves its symbol names, lays out the thread-local
-- storage of its modules and plans the order in which they start.
--
--   Base            the shared helpers: Boolean tests, lists, ordered maps as association lists,
--                   integers and strings of bytes over the native numbers, and in `Bits` the masks
--                   by which the source rounds to powers of two
--   Kernel.Status   src/kernel/status.h
--   Kernel.Objects  src/kernel/object.h and the state of the objects that a handle can stand for
--   Kernel.WaitKeys the wait keys of the scheduler and of the services, with those of
--                   src/kernel/pthread.cpp
--   Kernel.Handles  src/kernel/handle_table.cpp: Insert, Find, Remove and size are `insert`, `find`,
--                   `remove` and `size`
--   Kernel.Scheduler src/kernel/guest_scheduler.cpp: `Threads` has the state and the loops that wake
--                   threads, `Methods` a function for each method (SelectNext is `select_next`),
--                   `Machine` the scheduler together with the handle table, with a step for each call
--   Kernel.Semaphore src/kernel/semaphore.cpp: Signal and TryAcquire of a semaphore are
--                   `signal_count` and `try_acquire`, the service's methods are `create`, `delete`,
--                   `signal`, `wait`, `poll` and `get_count`
--   Kernel.EventFlag src/kernel/event_flag.cpp: EventFlag's Set, Clear and Poll are `set_bits`,
--                   `clear_bits` and `poll_bits`, the service's `set`, `clear`, `poll` and `wait`
--   Kernel.EventQueue src/kernel/event_queue.cpp: of the class EventQueue, RegisterEvent, DeleteEvent,
--                   TriggerUserEvent, TriggerFirstByFilter and Poll are `register_event`,
--                   `delete_event`, `trigger_user_event`, `trigger_first_by_filter` and `poll`;
--                   EventQueueService is `Service`, with Poll and Wait in `Waits`
--   Kernel.CxaGuard src/kernel/cxa_guard.cpp: Acquire is `acquire`, Release and Abort are `complete`
--   Kernel.ProcessLifecycle src/kernel/process_lifecycle.cpp
--   Kernel.DirectMemory src/kernel/direct_memory.cpp, and
--                   src/core/memory/shared_memory_backing.cpp in `Backing` and `Bytes`; Allocate, Release,
--                   RegisterMapping and UnregisterMappings are `allocate`, `release`,
--                   `register_mapping` and `unregister_mappings`, and `Ranges` reads the maps from
--                   starts to sizes as sets of addresses
--   Kernel.LibcHeap src/kernel/libc_heap.cpp: `Mspace` has AlignUp, AddFreeRange and the methods on one
--                   memory space, `Resize` ReallocateMspace, `Service` the table of spaces and the
--                   heap's own allocations; the methods of GuestMemory that it calls are the record
--                   `GuestMemoryCalls` of `Memory`, a parameter
--   Loader.StaticTls src/loader/static_tls_layout.cpp: RegisterModule and FindModule are
--                   `register_module` and `find_module`
--   Loader.SceSymbol src/loader/sce_symbol.cpp: DecodeSceId, ParseSceSymbolReference and
--                   ResolveElfImportReference under the same names in lower case
--   Loader.ModulePlan src/loader/module_plan.cpp: BuildModuleStartPlan is `build_module_start_plan`,
--                   its loops are in `Order`
--   Kernel.Tests, Loader.Tests    the results at concrete inputs
--
-- Each method of a service is one step from state to state. Where the source gives a mutex back
-- between two calls of one method, as Acquire and Complete of the guards do before they call the
-- scheduler, or CreateThread between the handle table and the scheduler, what other host threads do in
-- between is not modelled. The clock is an argument of each call that reads it, one value for all its
-- readings. std::map is an association list in the order of its keys. Handles are 64-bit numbers;
-- 32-bit counts are integers, without a wrap-around. Loops run through finite lists, but for these:
-- those that copy a heap allocation or bytes of the memory backing in chunks have the count of bytes as
-- fuel, which is enough since each chunk has a byte at least, and the one that orders the modules the
-- count of modules to start, since each turn but the last starts one.
--
-- Not modelled: snapshots and queries that only copy state out, host memory exhaustion, and the parts
-- of the emulator outside these services and the named files of the loader.
pub mod Base
pub mod Kernel
pub mod Loader
