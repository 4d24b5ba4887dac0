-- ===== src/Common.antt =====
-- scrutils/src/common: the data that the collector and the analyzer share.
pub mod TrackedTy
pub mod ArgTys
pub mod NormalizedPlace
pub mod Function
pub mod Storage
