-- ===== src/Store.antt =====
-- internal/store: the SQLite tables and the statements that the program runs on them.
pub mod Models
pub mod Table
pub mod SyncRuns
pub mod Files
pub mod Failed
pub mod Jobs
pub mod Transfers
pub mod Configs
mod Examples
