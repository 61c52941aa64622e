-- ===== src/Safety.antt =====
-- internal/safety: confinement of file paths to a root directory.
pub mod Path
pub mod Http
mod Examples
