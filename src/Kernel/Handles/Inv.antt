-- ===== src/Kernel/Handles/Inv.antt =====
-- What holds of a handle table between two calls.
use kaj_ps.Base.{
  ℕ, ◌+◌, ◌≤◌, ◌≡◌, refl, Option, none, some, arith, if◌then◌else◌, inl, inr, Option-cases, ◌==◌,
}
use kaj_ps.Base.Assoc
use kaj_ps.Kernel.Objects.{KernelObject, KernelObjectType}
use kaj_ps.Kernel.Handles.{HandleTable, empty, insert, find, remove, write, max_handle}

pub record Inv (t : HandleTable) : Type 0 where
  pub sorted : Assoc.Above 1 t.objects
  pub positive : 1 ≤ t.next_handle
  pub in_range : t.next_handle ≤ max_handle
  pub fresh :
      (k : ℕ) → t.next_handle + (if t.exhausted then 1 else 0) ≤ k → Assoc.find k t.objects ≡ none

pub empty-Inv : Inv empty
unfolding empty Assoc.find
empty-Inv = record {
  sorted = tt;
  positive = omega arith;
  in_range = omega arith;
  fresh = λ k h. refl;
}

pub insert-Inv : (o : Option KernelObject) (t : HandleTable) → Inv t → Inv (insert o t).0
unfolding insert
insert-Inv none t v = v
insert-Inv (some o) t v = record {
  sorted = ground (arith, v.sorted, v.positive, Assoc.emplace-Above 1 t.next_handle o t.objects);
  positive = ground (arith, v.positive);
  in_range = ground (arith, v.in_range);
  fresh = λ k h.
      ground
        (arith, v.fresh k, v.fresh t.next_handle, Assoc.find-emplace k t.next_handle o t.objects);
}

pub remove-Inv :
    (h : ℕ) (type : KernelObjectType) (t : HandleTable) → Inv t → Inv (remove h type t).0
unfolding remove
remove-Inv h type t v = elim (Option-cases (find h type t)) [
  | inl e ↦ rw (e, remove) v
  | inr (o, e) ↦
      rw (e, remove)
        (record {
          sorted = Assoc.erase-Above 1 h t.objects v.sorted;
          positive = v.positive;
          in_range = v.in_range;
          fresh = λ k b. ground (arith, v.fresh k b, Assoc.find-erase k h t.objects);
        })
]

pub write-Inv : (h : ℕ) (o : KernelObject) (t : HandleTable) → Inv t → Inv (write h o t)
unfolding write
write-Inv h o t v = record {
  sorted = Assoc.update-Above 1 h o t.objects v.sorted;
  positive = v.positive;
  in_range = v.in_range;
  fresh = λ k b. ground (arith, v.fresh k b, Assoc.find-update k h o t.objects);
}

-- The entries after a successful Insert.
pub insert_entries :
    (o : KernelObject) (t : HandleTable) (h k : ℕ)
    → Inv t
    → (insert (some o) t).1 ≡ some h
    → (1 ≤ h)
      × (Assoc.find h t.objects ≡ none)
      × (Assoc.find k (insert (some o) t).0.objects
          ≡ (if h == k then some o else Assoc.find k t.objects))
unfolding insert
insert_entries o t h k v e = (
  ground (arith, v.positive),
  ground (arith, v.fresh h),
  ground (arith, v.fresh t.next_handle, Assoc.find-emplace k t.next_handle o t.objects),
)

pub insert_refused-table :
    (o : KernelObject) (t : HandleTable) → (insert (some o) t).1 ≡ none → (insert (some o) t).0 ≡ t
unfolding insert
insert_refused-table o t e = ground arith

-- The entries after a Remove.
pub remove_entries :
    (h k : ℕ) (type : KernelObjectType) (t : HandleTable)
    → Assoc.find k (remove h type t).0.objects ≡ (
        if h == k
        then (if Assoc.is_some (find h type t) then none else Assoc.find k t.objects)
        else Assoc.find k t.objects)
unfolding remove
remove_entries h k type t = ground (arith, Assoc.find-erase k h t.objects)

pub remove_result :
    (h : ℕ) (type : KernelObjectType) (t : HandleTable) → (remove h type t).1 ≡ find h type t
unfolding remove
remove_result h type t = ground arith

pub remove_refused-table :
    (h : ℕ) (type : KernelObjectType) (t : HandleTable)
    → find h type t ≡ none
    → (remove h type t).0 ≡ t
unfolding remove
remove_refused-table h type t e = ground arith
