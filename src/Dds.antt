-- ===== src/Dds.antt =====
-- RtpDdsGateway: `DdsManager`, which owns the DDS entities.
pub mod Tests
pub mod External
pub mod State
pub mod Monad
pub mod Events
pub mod Create
pub mod Calls
pub mod Cleanup
pub mod Remove
pub mod Dispatch
pub mod Invariant
pub mod Publish
pub mod Results
pub mod Samples
