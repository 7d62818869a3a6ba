-- ===== src/Loader/Tests/StaticTls.antt =====
-- The layout of thread-local storage at concrete inputs.
use kaj_ps.Base.{◌≡◌, refl}
use kaj_ps.Base.Assoc
use kaj_ps.Loader.StaticTls.{
  StaticTlsLayout, StaticTlsModule, new_layout, register_module, find_module, layout_ok,
}
use kaj_ps.Loader.StaticTls.Laws.{Outcome, register_module_lem, new_layout-Inv}

-- A block of 20 bytes that starts 8 bytes behind a multiple of 16.
first_block : (register_module 1 20 16 8 (new_layout 0x20000)).2.static_offset ≡ 24
unfolding register_module new_layout Assoc.find kaj_ps.Loader.StaticTls.register_new
    kaj_ps.Loader.StaticTls.last_id kaj_ps.Loader.StaticTls.offset_after
first_block = refl

register_module_lem_example :
    Outcome 1 20 16 8 (new_layout 0x20000) (register_module 1 20 16 8 (new_layout 0x20000))
register_module_lem_example =
    register_module_lem 1 20 16 8 (new_layout 0x20000) (new_layout-Inv 0x20000)
