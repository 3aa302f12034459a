-- ===== src/Service.antt =====
-- `QueryService` of src/dalmatian/service.py.
pub mod Config
pub mod Environment
pub mod Execute
pub mod Lock
pub mod Balance
pub mod Stream
pub mod Streaming
pub mod Reuse
pub mod Explanations
pub mod Ends
