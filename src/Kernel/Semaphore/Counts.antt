-- ===== src/Kernel/Semaphore/Counts.antt =====
-- The counts of one semaphore.
use kaj_ps.Base.{◌+◌, ◌-◌, ◌^◌, ◌≡◌, ◌⊎◌, ◌↔◌, arith}
use kaj_ps.Base.Int.{
  ℤ, pos, negsuc, ◌+ℤ◌, ◌-ℤ◌, ◌≤ℤ◌, pos_part, neg_part, +ℤ_parts, -ℤ_parts, eq_of_parts,
}
use kaj_ps.Kernel.Status.{kernel_ok, invalid_argument, busy}
use kaj_ps.Kernel.Objects.{Semaphore}
use kaj_ps.Kernel.Semaphore.{signal_count, try_acquire}

-- std::numeric_limits<std::int32_t>::max()
abbrev pub int32_max : ℤ
int32_max = pos (2 ^ 31 - 1)

abbrev pub int32_min : ℤ
int32_min = negsuc (2 ^ 31 - 1)

abbrev pub IsInt32 : ℤ → Type 0
IsInt32 n = (int32_min ≤ℤ n) × (n ≤ℤ int32_max)

pub record Inv (s : Semaphore) : Type 0 where
  pub positive : pos 1 ≤ℤ s.maximum_count
  pub in_range : s.maximum_count ≤ℤ int32_max
  pub nonnegative : pos 0 ≤ℤ s.count
  pub bounded : s.count ≤ℤ s.maximum_count

-- Signal by `n` keeps the count between 0 and the maximum, and its difference and its new count are
-- 32-bit integers. It succeeds exactly when `n` is positive and the maximum leaves room, and then
-- adds `n`; otherwise the semaphore is as it was.
pub signal_count_lem :
    (n : ℤ) (s : Semaphore)
    → Inv s
    → let (s', status) = signal_count n s in
      Inv s'
      × IsInt32 (s.maximum_count -ℤ s.count)
      × ((status ≡ kernel_ok) ↔ ((pos 1 ≤ℤ n) × (s.count +ℤ n ≤ℤ s.maximum_count)))
      × ((status ≡ kernel_ok) × (s'.count ≡ s.count +ℤ n) × IsInt32 (s.count +ℤ n)
          ⊎ (status ≡ invalid_argument) × (s' ≡ s))
unfolding signal_count
signal_count_lem n s v = (
  ground (arith, v, sum, room),
  omega (arith, room),
  ground (arith, v, sum, room),
  ground (arith, v, sum, room),
)
  where
    sum :
        pos_part (s.count +ℤ n) + neg_part s.count + neg_part n
        ≡ neg_part (s.count +ℤ n) + pos_part s.count + pos_part n
    sum = +ℤ_parts s.count n

    room :
        pos_part (s.maximum_count -ℤ s.count) + neg_part s.maximum_count + pos_part s.count
        ≡ neg_part (s.maximum_count -ℤ s.count) + pos_part s.maximum_count + neg_part s.count
    room = -ℤ_parts s.maximum_count s.count

-- TryAcquire of `n` keeps the count between 0 and the maximum. It succeeds exactly when `n` is
-- positive and no more than the count, and then takes `n` away and reports what is left; it is busy
-- exactly when `n` is positive, within the maximum and more than the count, and reports the count.
-- Where it does not succeed the semaphore is as it was.
pub try_acquire_lem :
    (n : ℤ) (s : Semaphore)
    → Inv s
    → let (s', status, remaining) = try_acquire n s in
      Inv s'
      × ((status ≡ kernel_ok) ↔ ((pos 1 ≤ℤ n) × (n ≤ℤ s.count)))
      × ((status ≡ busy) ↔ ((pos 1 ≤ℤ n) × (n ≤ℤ s.maximum_count) × (s.count +ℤ pos 1 ≤ℤ n)))
      × ((status ≡ kernel_ok) × (s'.count +ℤ n ≡ s.count) × (remaining ≡ s'.count)
          ⊎ (status ≡ busy) × (s' ≡ s) × (remaining ≡ s.count)
          ⊎ (status ≡ invalid_argument) × (s' ≡ s) × (remaining ≡ pos 0))
unfolding try_acquire
try_acquire_lem n s v = (
  ground (arith, v, -ℤ_parts s.count n),
  ground (arith, v, -ℤ_parts s.count n),
  ground (arith, v, +ℤ_parts s.count (pos 1)),
  ground (
    arith,
    v,
    -ℤ_parts s.count n,
    +ℤ_parts (s.count -ℤ n) n,
    eq_of_parts (s.count -ℤ n +ℤ n) s.count,
  ),
)
