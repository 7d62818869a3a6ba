-- ===== src/Kernel/LibcHeap/Memory.antt =====
-- What src/kernel/libc_heap.cpp asks of the guest's memory: the methods of GuestMemory that it calls,
-- over a state of any type. A call that fails leaves a state too, since bytes may have been written.
use kaj_ps.Base.{ℕ, Bool, Option}
use kaj_ps.Base.Text.{Bytes}

pub record GuestMemoryCalls {ℓ} (M : Type ℓ) : Type ℓ where
  pub base_address : M → ℕ
  -- Whether a range can be read and written.
  pub can_access : ℕ → ℕ → M → Bool
  pub find_unmapped_range : ℕ → ℕ → ℕ → M → Option ℕ
  pub map_range : ℕ → ℕ → M → M × Bool
  pub unmap : ℕ → ℕ → M → M × Bool
  pub fill_zero : ℕ → ℕ → M → M × Bool
  pub read : ℕ → ℕ → M → Option Bytes
  pub write : ℕ → Bytes → M → M × Bool
