-- ===== src/Modbus.antt =====
-- protocols/modbus: the replies of the Modbus client, and the line that brings requests to it.
pub mod Client
pub mod Access
pub mod Bounds
pub mod Broadcast
pub mod Read
pub mod Transport
mod Tests
