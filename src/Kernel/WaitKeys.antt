-- ===== src/Kernel/WaitKeys.antt =====
-- The strings by which blocked threads are found: ThreadExitWaitKey of src/kernel/guest_scheduler.cpp,
-- MakeWaitKey of src/kernel/semaphore.cpp, src/kernel/event_flag.cpp and src/kernel/event_queue.cpp,
-- WaitKey of src/kernel/cxa_guard.cpp, and the keys of src/kernel/pthread.cpp.
use mathlib.Core.List.{append_cancel_left}
use kaj_ps.Base.{ℕ, ◌≤◌, ◌≡◌, ◌≢◌, refl, ap, ◌∷◌, ◌++◌, false, arith, inl, inr, Bool-cases}
use kaj_ps.Base.Text.{
  Bytes, codes, digits, digits-injective, digits-has_no_colon, split_unique, bytes_eq, bytes_eq_iff,
  is_empty,
}

-- ThreadExitWaitKey
unfoldable pub thread_exit_key : ℕ → Bytes
thread_exit_key handle = codes "thread-exit:" ++ digits 10 handle

-- SemaphoreService::MakeWaitKey
unfoldable pub semaphore_key : ℕ → Bytes
semaphore_key handle = codes "semaphore:" ++ digits 16 handle

-- EventFlagService::MakeWaitKey
unfoldable pub event_flag_key : ℕ → Bytes
event_flag_key handle = codes "event_flag:" ++ digits 16 handle

-- EventQueueService::MakeWaitKey
unfoldable pub event_queue_key : ℕ → Bytes
event_queue_key handle = codes "event_queue:" ++ digits 16 handle

-- CxaGuardService::WaitKey
unfoldable pub cxa_guard_key : ℕ → Bytes
cxa_guard_key address = codes "cxa-guard:" ++ digits 10 address

-- ":" and the decimal number
abbrev colon_digits : ℕ → Bytes
colon_digits thread = 0x3A ∷ digits 10 thread

-- PthreadService::MutexWaitKey
unfoldable pub mutex_key : ℕ → ℕ → Bytes
mutex_key handle thread = codes "pthread-mutex:" ++ (digits 10 handle ++ colon_digits thread)

-- PthreadService::ConditionWaitKey
unfoldable pub condition_key : ℕ → ℕ → Bytes
condition_key handle thread =
    codes "pthread-condition:" ++ (digits 10 handle ++ colon_digits thread)

-- PthreadService::RwlockWaitKey
unfoldable pub rwlock_key : ℕ → ℕ → Bytes
rwlock_key handle thread = codes "pthread-rwlock:" ++ (digits 10 handle ++ colon_digits thread)

-- What a thread can wait for: the exit of a thread, an object of a service, or, for a thread of its
-- own, a mutex, a condition variable or a read-write lock.
pub data WaitObject : Type 0 where
  thread_exits semaphores event_flags event_queues cxa_guards : ℕ → WaitObject
  mutexes conditions rwlocks : (handle thread : ℕ) → WaitObject

unfoldable pub key_of : WaitObject → Bytes
key_of (thread_exits n) = thread_exit_key n
key_of (semaphores n) = semaphore_key n
key_of (event_flags n) = event_flag_key n
key_of (event_queues n) = event_queue_key n
key_of (cxa_guards n) = cxa_guard_key n
key_of (mutexes n t) = mutex_key n t
key_of (conditions n t) = condition_key n t
key_of (rwlocks n t) = rwlock_key n t

same_digits :
    (base : ℕ) (prefix : Bytes) (m n : ℕ)
    → 2 ≤ base
    → prefix ++ digits base m ≡ prefix ++ digits base n
    → m ≡ n
same_digits base prefix m n b e = digits-injective base m n b (append_cancel_left prefix _ _ e)

same_pair :
    (prefix : Bytes) (m n t u : ℕ)
    → prefix ++ (digits 10 m ++ colon_digits t) ≡ prefix ++ (digits 10 n ++ colon_digits u)
    → (m ≡ n) × (t ≡ u)
same_pair prefix m n t u e =
    let (front, back) =
      split_unique 58 (digits 10 m) (digits 10 n) (digits 10 t) (digits 10 u)
        (digits-has_no_colon m) (digits-has_no_colon n) (append_cancel_left prefix _ _ e) in
    (digits-injective 10 m n (omega arith) front, digits-injective 10 t u (omega arith) back)

pub key_of-injective : (a b : WaitObject) → key_of a ≡ key_of b → a ≡ b
unfolding key_of thread_exit_key semaphore_key event_flag_key event_queue_key cxa_guard_key
    mutex_key condition_key rwlock_key
key_of-injective (thread_exits m) (thread_exits n) e =
    ap thread_exits (same_digits 10 (codes "thread-exit:") m n (omega arith) e)
key_of-injective (semaphores m) (semaphores n) e =
    ap semaphores (same_digits 16 (codes "semaphore:") m n (omega arith) e)
key_of-injective (event_flags m) (event_flags n) e =
    ap event_flags (same_digits 16 (codes "event_flag:") m n (omega arith) e)
key_of-injective (event_queues m) (event_queues n) e =
    ap event_queues (same_digits 16 (codes "event_queue:") m n (omega arith) e)
key_of-injective (cxa_guards m) (cxa_guards n) e =
    ap cxa_guards (same_digits 10 (codes "cxa-guard:") m n (omega arith) e)
key_of-injective (mutexes m t) (mutexes n u) e =
    let (h, k) = same_pair (codes "pthread-mutex:") m n t u e in cc
key_of-injective (conditions m t) (conditions n u) e =
    let (h, k) = same_pair (codes "pthread-condition:") m n t u e in cc
key_of-injective (rwlocks m t) (rwlocks n u) e =
    let (h, k) = same_pair (codes "pthread-rwlock:") m n t u e in cc
key_of-injective _ _ e = absurd (ground (arith, e))

-- Two different things to wait for have different keys: those of thread exits, semaphores, event flags,
-- event queues, static initialisation guards, and mutexes, condition variables and read-write locks
-- with the thread that waits. The comparison of strings by which WakeBlockedThreads finds the threads
-- of a key tells them apart.
pub keys_apart : (a b : WaitObject) → a ≢ b → bytes_eq (key_of a) (key_of b) ≡ false
keys_apart a b other = elim (Bool-cases (bytes_eq (key_of a) (key_of b))) [
  | inl e ↦ absurd (other (key_of-injective a b ((bytes_eq_iff (key_of a) (key_of b)).0 e)))
  | inr e ↦ e
]

-- No wait key is the empty string, with which a thread cannot block.
pub thread_exit_key_nonempty : (n : ℕ) → is_empty (thread_exit_key n) ≡ false
unfolding thread_exit_key
thread_exit_key_nonempty n = refl

pub semaphore_key_nonempty : (n : ℕ) → is_empty (semaphore_key n) ≡ false
unfolding semaphore_key
semaphore_key_nonempty n = refl

pub event_flag_key_nonempty : (n : ℕ) → is_empty (event_flag_key n) ≡ false
unfolding event_flag_key
event_flag_key_nonempty n = refl

pub event_queue_key_nonempty : (n : ℕ) → is_empty (event_queue_key n) ≡ false
unfolding event_queue_key
event_queue_key_nonempty n = refl

pub cxa_guard_key_nonempty : (n : ℕ) → is_empty (cxa_guard_key n) ≡ false
unfolding cxa_guard_key
cxa_guard_key_nonempty n = refl
