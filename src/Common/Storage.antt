-- ===== src/Common/Storage.antt =====
-- scrutils/src/common/storage: what the collector has found so far.
pub mod Functions
pub mod Closures
pub mod Closed
pub mod Captured
