-- ===== src/Storage.antt =====
-- src/dalmatian/storage.py: published outputs and the locations of storage.
pub mod Listing
pub mod Locations
pub mod Publication
pub mod Refinement
