-- ===== src/Engine.antt =====
-- internal/engine: sizes, transfers, synchronisation and its progress.
pub mod Size
pub mod Export
pub mod Import
pub mod Progress
pub mod Sync
mod Examples
