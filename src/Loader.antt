-- ===== src/Loader.antt =====
-- The loader of src/loader: the layout of thread-local storage and the order of module starts.
pub mod StaticTls
pub mod SceSymbol
pub mod ModulePlan
mod Tests
