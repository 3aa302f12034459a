-- ===== src/Datasets.antt =====
-- src/dalmatian/datasets.py: the sources of a query and the cache of loaded data sets.
pub mod Prepared
pub mod Sources
pub mod Cache
pub mod Bounds
pub mod Releases
