-- ===== src/Analyzer.antt =====
-- scrutils/src/analyzer: the verdict on a function, from what the collector has found.
pub mod Heuristics
pub mod Deps
pub mod Result
pub mod Analyze
pub mod Spec
pub mod Inversion
pub mod Verdict
pub mod Reports
pub mod Total
pub mod Run
pub mod Monotone
pub mod Fuel
mod Tests
