-- ===== src/Jobs/Methods.antt =====
-- src/dalmatian/jobs.py: the methods of `ValkeyJobQueue` around the scripts.
pub mod World
pub mod Submit
pub mod Reserve
pub mod Finish
