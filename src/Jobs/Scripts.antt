-- ===== src/Jobs/Scripts.antt =====
-- src/dalmatian/jobs.py: the Lua scripts. Each runs on the server in one step.
pub mod Submit
pub mod Lease
pub mod Retry
