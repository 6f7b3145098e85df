-- ===== src/Ipc.antt =====
-- DkmRtpIpc: the UDP transport. Bytes are numbers below 256.
pub mod Tests
pub mod Bytes
pub mod Frame
pub mod Transport
