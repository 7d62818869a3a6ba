-- ===== src/Kernel/Status.antt =====
-- src/kernel/status.h
pub data KernelStatus : Type 0 where
  kernel_ok invalid_argument not_found no_such_entry busy would_block : KernelStatus
  permission_denied no_resources timed_out : KernelStatus
