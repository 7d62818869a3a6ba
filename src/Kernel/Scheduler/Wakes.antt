-- ===== src/Kernel/Scheduler/Wakes.antt =====
-- What the wake loops of src/kernel/guest_scheduler.cpp do to each thread, and what they queue.
use kaj_ps.Base.{
  ℕ, zero, suc, ◌≤◌, ◌≡◌, refl, Bool, true, false, List, [], ◌∷◌, Option, none, some, arith,
  if◌then◌else◌, count, length, bit, ◌⊎◌, inl,
}
use kaj_ps.Base.Assoc
use kaj_ps.Kernel.Scheduler.Threads.{GuestThread, wake_all, wake_some}

module _ (test : GuestThread → Bool) (change : GuestThread → GuestThread) where
  abbrev pub changed : Option GuestThread → Option GuestThread
  changed none = none
  changed (some t) = some (if test t then change t else t)

  abbrev pub passes : Option GuestThread → Bool
  passes none = false
  passes (some t) = test t

  pub find-wake_all :
      (h : ℕ) (m : List (ℕ × GuestThread))
      → Assoc.find h (wake_all test change m).0 ≡ changed (Assoc.find h m)
  unfolding wake_all Assoc.find
  find-wake_all h [] = refl
  find-wake_all h ((j, t) ∷ m) = ground (arith, find-wake_all h m)

  pub count-wake_all :
      (b h : ℕ) (m : List (ℕ × GuestThread))
      → Assoc.Above b m
      → count h (wake_all test change m).1 ≡ bit (passes (Assoc.find h m))
  unfolding wake_all Assoc.find
  count-wake_all b h [] s = refl
  count-wake_all b h ((j, t) ∷ m) s =
      ground (arith, count-wake_all (suc j) h m s.1, Assoc.find_below (suc j) h m s.1)

  pub wake_all-Above :
      (b : ℕ) (m : List (ℕ × GuestThread))
      → Assoc.Above b m
      → Assoc.Above b (wake_all test change m).0
  unfolding wake_all
  wake_all-Above b [] s = tt
  wake_all-Above b ((j, t) ∷ m) s = ground (arith, wake_all-Above (suc j) m s.1)

  -- With enough left the break is never reached.
  pub wake_some-eq-wake_all :
      (left : ℕ) (m : List (ℕ × GuestThread))
      → length m ≤ left
      → wake_some left test change m ≡ wake_all test change m
  unfolding wake_some wake_all
  wake_some-eq-wake_all left [] l = refl
  wake_some-eq-wake_all zero ((j, t) ∷ m) l = absurd (omega arith)
  wake_some-eq-wake_all (suc left) ((j, t) ∷ m) l =
      ground (arith, wake_some-eq-wake_all (if test t then left else suc left) m)

  pub wake_some-Above :
      (left b : ℕ) (m : List (ℕ × GuestThread))
      → Assoc.Above b m
      → Assoc.Above b (wake_some left test change m).0
  unfolding wake_some
  wake_some-Above left b [] s = tt
  wake_some-Above zero b ((j, t) ∷ m) s = s
  wake_some-Above (suc left) b ((j, t) ∷ m) s =
      ground (arith, wake_some-Above (if test t then left else suc left) (suc j) m s.1)

  -- A thread is either left alone, or it passes the test, is changed and is queued once.
  pub wake_some-entry :
      (left b h : ℕ) (m : List (ℕ × GuestThread))
      → Assoc.Above b m
      → ((Assoc.find h (wake_some left test change m).0 ≡ Assoc.find h m)
          × (count h (wake_some left test change m).1 ≡ 0))
        ⊎ ((Assoc.find h (wake_some left test change m).0 ≡ changed (Assoc.find h m))
            × (passes (Assoc.find h m) ≡ true)
            × (count h (wake_some left test change m).1 ≡ 1))
  unfolding wake_some Assoc.find
  wake_some-entry left b h [] s = inl (refl, refl)
  wake_some-entry zero b h ((j, t) ∷ m) s = inl (refl, refl)
  wake_some-entry (suc left) b h ((j, t) ∷ m) s = ground (
    arith,
    wake_some-entry (if test t then left else suc left) (suc j) h m s.1,
    Assoc.find_below (suc j) h m s.1,
  )

  -- No more threads are queued than were allowed.
  pub length-wake_some :
      (left : ℕ) (m : List (ℕ × GuestThread)) → length (wake_some left test change m).1 ≤ left
  unfolding wake_some
  length-wake_some left [] = omega arith
  length-wake_some zero ((j, t) ∷ m) = omega arith
  length-wake_some (suc left) ((j, t) ∷ m) =
      ground (arith, length-wake_some (if test t then left else suc left) m)
