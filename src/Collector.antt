-- ===== src/Collector.antt =====
-- scrutils/src/collector: the dataflow analysis that tracks the types of places.
pub mod Domain
pub mod VirtualStack
pub mod HasTrackedTy
pub mod PartialFunctionInfo
pub mod Collect
pub mod Engine
pub mod Closed
pub mod Tests
pub mod Calls
pub mod Fuel
