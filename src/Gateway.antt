-- ===== src/Gateway.antt =====
-- The gateway ECU's telematics application (env/ecu-gateway/gateway.py).
pub mod Types
pub mod Task
pub mod Commands
pub mod Worker
pub mod Sync
pub mod Encoding
pub mod Calls
pub mod Queue
pub mod Mirror
pub mod Fifo
pub mod Flight
pub mod Refinement
pub mod Supervision
pub mod Worlds
