-- ===== src/Download.antt =====
-- internal/download: the client that fetches one file, and the pool of workers that fetch many.
pub mod Client
pub mod Pool
mod Examples
