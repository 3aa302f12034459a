-- ===== src/Jobs.antt =====
-- src/dalmatian/jobs.py: the job queue.
pub mod Config
pub mod Keys
pub mod Scripts
pub mod Steps
pub mod Transitions
pub mod Reads
pub mod Depth
pub mod Fencing
pub mod Frame
pub mod Attempts
pub mod Lists
pub mod Placement
pub mod Histories
pub mod Finished
pub mod Starts
pub mod Methods
pub mod Reserving
pub mod Delivery
pub mod Idempotency
