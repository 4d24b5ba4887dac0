-- ===== src/Collector/Closed.antt =====
-- scrutils/src/collector/collector.rs: the calls that the collector records lead to functions that
-- it has stored.
pub mod Steps
pub mod Effects
pub mod Runs
pub mod Collected
