-- ===== src/Examples.antt =====
-- Tests of the definitions, and the theorems at concrete inputs.
pub mod Jobs
pub mod Methods
mod Stores
mod Worker
mod Locks
mod Api
mod Spark
mod Service
mod Sql
mod Settings
mod Fingerprint
