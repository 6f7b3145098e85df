-- ===== src/Holders.antt =====
-- RtpDdsGateway/include/dds_type_registry.hpp: the holders of writers and readers, which turn
-- status changes and samples into statistics and callbacks.
pub mod Data
pub mod Writer
pub mod Reader
pub mod Factories
pub mod Pool
pub mod Tests
