-- ===== src/Xml.antt =====
-- RtpDdsGateway/src/qos_xml_helpers.cpp: the scanning, compression and merging of QoS profiles.
pub mod Text
pub mod Compress
pub mod Qos
pub mod Print
pub mod Scan
pub mod Extract
pub mod Merge
mod Tests
