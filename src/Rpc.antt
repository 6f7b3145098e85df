-- ===== src/Rpc.antt =====
-- RtpDdsGateway/src/ipc_adapter.cpp: the layer between requests of a client and calls of the DDS
-- manager.
pub mod Json
pub mod Backend
pub mod Handler
pub mod Create
pub mod Hello
pub mod Handlers
pub mod Process
pub mod Answers
pub mod Manager
pub mod Requests
pub mod Delivery
pub mod SmallJson
pub mod Tests
