-- ===== src/Jobs.antt =====
-- src/openlabels/jobs: the background jobs.
pub mod Queue
