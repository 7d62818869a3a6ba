-- ===== src/Loader/StaticTls.antt =====
-- src/loader/static_tls_layout.h and src/loader/static_tls_layout.cpp: StaticTlsLayout. A module's
-- block lies below the thread pointer: it starts `static_offset` bytes under it.
pub mod Laws
use Prim.Native.Nat.{bit_and}
use kaj_ps.Base.{
  ℕ, ◌+◌, ◌-◌, ◌^◌, Bool, true, false, not, ◌&&◌, ◌||◌, Option, none, some, List, [], ◌∷◌, ◌==◌,
  ltb, leb, max, if◌then◌else◌,
}
use kaj_ps.Base.Assoc

pub data StaticTlsLayoutStatus : Type 0 where
  layout_ok invalid_module_id invalid_memory_size invalid_alignment : StaticTlsLayoutStatus
  layout_overflow reservation_exceeded module_order_invalid module_conflict : StaticTlsLayoutStatus

pub record StaticTlsModule : Type 0 where
  pub module_id : ℕ
  pub memory_size : ℕ
  pub alignment : ℕ
  pub alignment_bias : ℕ
  pub static_offset : ℕ

pub record StaticTlsLayout : Type 0 where
  pub reservation : ℕ
  pub total_size : ℕ
  pub maximum_alignment : ℕ
  pub modules : List (ℕ × StaticTlsModule)

-- The module that an unsuccessful result holds.
abbrev pub no_module : StaticTlsModule
no_module = record {
  module_id = 0;
  memory_size = 0;
  alignment = 1;
  alignment_bias = 0;
  static_offset = 0;
}

unfoldable pub new_layout : ℕ → StaticTlsLayout
new_layout reservation = record {
  reservation = reservation;
  total_size = 0;
  maximum_alignment = 1;
  modules = [];
}

abbrev pub Registered : Type 0
Registered = StaticTlsLayout × StaticTlsLayoutStatus × StaticTlsModule

-- modules_.rbegin()->first, if there is a module.
unfoldable pub last_id : List (ℕ × StaticTlsModule) → Option ℕ
last_id [] = none
last_id ((k, m) ∷ ms) = elim (last_id ms) [ none ↦ some k | some l ↦ some l ]

abbrev pub is_out_of_order : ℕ → Option ℕ → Bool
is_out_of_order id none = false
is_out_of_order id (some last) = leb id last

abbrev pub overflows : ℕ → ℕ → ℕ → Bool
overflows total size alignment =
    ltb (2 ^ 64 - 1 - total) size || ltb (2 ^ 64 - 1 - total - size) (alignment - 1)

-- The end of a new block, counted downwards from the thread pointer.
unfoldable pub offset_after : ℕ → ℕ → ℕ → ℕ → ℕ
offset_after total size alignment bias =
    let candidate = total + size + alignment - 1 in
    let remainder = bit_and (bit_and candidate (alignment - 1) + bias) (alignment - 1) in
    candidate - remainder

-- RegisterModule of an identifier that is not there, with the normalised alignment and bias.
unfoldable pub register_new : ℕ → ℕ → ℕ → ℕ → StaticTlsLayout → Registered
register_new id size alignment bias l =
    let offset = offset_after l.total_size size alignment bias in
    let entry : StaticTlsModule = record {
      module_id = id;
      memory_size = size;
      alignment = alignment;
      alignment_bias = bias;
      static_offset = offset;
    } in
    if is_out_of_order id (last_id l.modules)
    then (l, module_order_invalid, no_module)
    else if overflows l.total_size size alignment
    then (l, layout_overflow, no_module)
    else if ltb l.reservation offset
    then (l, reservation_exceeded, no_module)
    else (
      record l {
        modules = Assoc.emplace id entry l.modules;
        total_size = offset;
        maximum_alignment = max l.maximum_alignment alignment;
      },
      layout_ok,
      entry,
    )

-- RegisterModule of an identifier by the module found under it.
abbrev pub register_found : ℕ → ℕ → ℕ → ℕ → Option StaticTlsModule → StaticTlsLayout → Registered
register_found id size alignment bias none l = register_new id size alignment bias l
register_found id size alignment bias (some m) l =
    if (m.memory_size == size) && (m.alignment == alignment) && (m.alignment_bias == bias)
    then (l, layout_ok, m)
    else (l, module_conflict, m)

-- alignment == 0 ? 1 : alignment
abbrev pub normalized : ℕ → ℕ
normalized alignment = if alignment == 0 then 1 else alignment

-- RegisterModule
unfoldable pub register_module : ℕ → ℕ → ℕ → ℕ → StaticTlsLayout → Registered
register_module id size alignment bias l =
    let a = normalized alignment in
    if id == 0
    then (l, invalid_module_id, no_module)
    else if size == 0
    then (l, invalid_memory_size, no_module)
    else if not (bit_and a (a - 1) == 0)
    then (l, invalid_alignment, no_module)
    else register_found id size a (bit_and bias (a - 1)) (Assoc.find id l.modules) l

-- FindModule
unfoldable pub find_module : ℕ → StaticTlsLayout → Option StaticTlsModule
find_module id l = Assoc.find id l.modules
