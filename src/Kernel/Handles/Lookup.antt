-- ===== src/Kernel/Handles/Lookup.antt =====
-- What each method of the handle table returns and leaves behind.
use kaj_ps.Base.{ℕ, ◌≤◌, ◌≡◌, ◌≢◌, refl, Option, none, some, arith, if◌then◌else◌, ◌==◌, true}
use kaj_ps.Base.Assoc
use kaj_ps.Kernel.Objects.{KernelObject, KernelObjectType, type_of, same_type}
use kaj_ps.Kernel.Handles.{HandleTable, insert, find, remove, max_handle}
use kaj_ps.Kernel.Handles.Inv.{Inv}

-- A handle that Insert returns is a valid 64-bit handle under which nothing stood; afterwards it
-- finds the new object under its own type and under no other, and every other handle finds what it
-- found before.
pub insert_finds :
    (o : KernelObject) (t : HandleTable) (h k : ℕ) (type : KernelObjectType)
    → Inv t
    → (insert (some o) t).1 ≡ some h
    → (1 ≤ h)
      × (h ≤ max_handle)
      × (find h type t ≡ none)
      × (find k type (insert (some o) t).0 ≡ (
          if h == k then (if same_type (type_of o) type then some o else none) else find k type t))
unfolding insert find
insert_finds o t h k type v e = (
  ground (arith, v.positive),
  ground (arith, v.in_range),
  ground (arith, v.fresh h),
  ground (arith, v.positive, v.fresh t.next_handle, Assoc.find-emplace k t.next_handle o t.objects),
)

-- Where Insert returns no handle it leaves the table as it was, and the pointer was null or the
-- 64-bit handles are used up.
pub insert_refuses :
    (o : Option KernelObject) (t : HandleTable)
    → (insert o t).1 ≡ none
    → ((insert o t).0 ≡ t) × (o ≢ none → t.exhausted ≡ true)
unfolding insert
insert_refuses none t e = (refl, λ h. absurd (h refl))
insert_refuses (some o) t e = ground arith

-- Remove returns what Find would have; afterwards a handle it removed finds nothing under any type,
-- and all other handles, or all handles after a refused Remove, find what they found before.
pub remove_finds :
    (h k : ℕ) (type other : KernelObjectType) (t : HandleTable)
    → ((remove h type t).1 ≡ find h type t)
      × (find k other (remove h type t).0 ≡ (
          if h == k
          then (if Assoc.is_some (find h type t) then none else find k other t)
          else find k other t))
unfolding find remove
remove_finds h k type other t = (ground arith, ground (arith, Assoc.find-erase k h t.objects))
