-- ===== src/Kernel/Tests/Handles.antt =====
-- The handle table and the wait keys at concrete inputs.
use kaj_ps.Base.{◌≤◌, ◌≡◌, refl, arith, false, List, [], ◌∷◌, none, some, count}
use kaj_ps.Base.Assoc
use kaj_ps.Base.Text.{codes, digits, bytes_eq}
use kaj_ps.Kernel.Objects.{file_object, file}
use kaj_ps.Kernel.Handles
use kaj_ps.Kernel.Handles.History.{Call, inserts, removes, issued, issued_once}
use kaj_ps.Kernel.WaitKeys.{mutexes, key_of, keys_apart, semaphore_key, thread_exit_key}

abbrev history : List Call
history =
    inserts (some file_object) ∷ removes 1 file ∷ inserts (some file_object) ∷ inserts none ∷ []

three_calls : issued Handles.empty history ≡ 1 ∷ 2 ∷ []
unfolding issued Handles.empty Handles.insert Handles.remove Handles.find Assoc.emplace Assoc.find
    Assoc.erase
three_calls = refl

issued_once_example :
    (count 2 (issued Handles.empty history) ≤ 1) × (count 0 (issued Handles.empty history) ≡ 0)
issued_once_example = issued_once history 2

-- The strings end in "1:23" and "12:3".
keys_apart_example : bytes_eq (key_of (mutexes 1 23)) (key_of (mutexes 12 3)) ≡ false
keys_apart_example = keys_apart (mutexes 1 23) (mutexes 12 3) (λ e. absurd (ground (arith, e)))

semaphore_key_hex : semaphore_key 0xab1 ≡ codes "semaphore:ab1"
unfolding semaphore_key digits
semaphore_key_hex = refl

thread_exit_key_decimal : thread_exit_key 120 ≡ codes "thread-exit:120"
unfolding thread_exit_key digits
thread_exit_key_decimal = refl
