-- ===== src/Loader/Tests.antt =====
-- The theorems on the loader at concrete inputs.
mod StaticTls
mod SceSymbol
mod ModulePlan
