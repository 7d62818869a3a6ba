-- ===== src/Kernel/Handles.antt =====
-- src/kernel/handle_table.h and src/kernel/handle_table.cpp: HandleTable. The mutex makes each method one
-- step; the null pointer is `none`.
pub mod Inv
pub mod Lookup
pub mod History
use kaj_ps.Base.{
  ℕ, ◌+◌, ◌-◌, ◌^◌, ◌&&◌, Bool, true, false, not, List, [], ◌∷◌, Option, none, some, ◌==◌, length,
  if◌then◌else◌,
}
use kaj_ps.Base.Assoc
use kaj_ps.Kernel.Objects.{KernelObject, KernelObjectType, type_of, same_type}

-- std::numeric_limits<KernelHandle>::max()
abbrev pub max_handle : ℕ
max_handle = 2 ^ 64 - 1

abbrev pub invalid_kernel_handle : ℕ
invalid_kernel_handle = 0

pub record HandleTable : Type 0 where
  pub objects : List (ℕ × KernelObject)
  pub next_handle : ℕ
  pub exhausted : Bool

unfoldable pub empty : HandleTable
empty = record { objects = []; next_handle = 1; exhausted = false }

abbrev insert_object : KernelObject → HandleTable → HandleTable
insert_object o t = record {
  objects = Assoc.emplace t.next_handle o t.objects;
  next_handle = if t.next_handle == max_handle then t.next_handle else t.next_handle + 1;
  exhausted = if t.next_handle == max_handle then true else t.exhausted;
}

-- HandleTable::Insert
unfoldable pub insert : Option KernelObject → HandleTable → HandleTable × Option ℕ
insert none t = (t, none)
insert (some o) t = if t.exhausted then (t, none) else (insert_object o t, some t.next_handle)

-- The object of a map entry, if its type is the expected one.
abbrev expect : KernelObjectType → Option KernelObject → Option KernelObject
expect type none = none
expect type (some o) = if same_type (type_of o) type then some o else none

-- HandleTable::Find
unfoldable pub find : ℕ → KernelObjectType → HandleTable → Option KernelObject
find handle type t =
    if handle == invalid_kernel_handle then none else expect type (Assoc.find handle t.objects)

-- HandleTable::Remove
unfoldable pub remove : ℕ → KernelObjectType → HandleTable → HandleTable × Option KernelObject
unfolding find
remove handle type t = elim (find handle type t) [
  | none ↦ (t, none)
  | some o ↦ (record t { objects = Assoc.erase handle t.objects }, some o)
]

-- HandleTable::size
unfoldable pub size : HandleTable → ℕ
size t = length t.objects

-- A write through the pointer that `find` returned.
unfoldable pub write : ℕ → KernelObject → HandleTable → HandleTable
write handle o t = record t { objects = Assoc.update handle o t.objects }
