-- ===== src/Shell/Jobs.antt =====
-- The job table of c-shell/src/jobs.c: its types and their parts, each with its laws in children.
pub mod Types
pub mod Refresh
pub mod Table
pub mod Report
pub mod Resume
pub mod Invariant
