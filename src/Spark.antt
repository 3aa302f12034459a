-- ===== src/Spark.antt =====
-- `SparkEngine` of src/dalmatian/spark.py.
pub mod Targets
pub mod Inline
pub mod Scope
pub mod Store
pub mod Reading
pub mod Views
pub mod Running
pub mod Stages
pub mod Order
