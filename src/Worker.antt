-- ===== src/Worker.antt =====
-- internal/worker: the tasks that run in the background.
pub mod Enrichment
pub mod Organization
pub mod Queue
pub mod Checks
