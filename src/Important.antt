-- ===== src/Important.antt =====
-- scrutils/src/important: the locals of a body that may hold sensitive data.
pub mod Compute
pub mod Transition
pub mod Passed
