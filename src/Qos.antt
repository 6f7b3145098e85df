-- ===== src/Qos.antt =====
-- RtpDdsGateway/src/qos_store.cpp and RtpDdsGateway/include/qos_store.hpp: the store of QoS
-- profiles.
pub mod Store
pub mod Names
pub mod Load
pub mod Find
pub mod Update
pub mod Listing
pub mod Detail
pub mod Service
pub mod Invariant
mod Tests
