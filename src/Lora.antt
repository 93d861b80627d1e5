-- ===== src/Lora.antt =====
-- The LoRa gateway driver (src/lora_gateways).
pub mod Types
pub mod Text
pub mod Commands
pub mod Driver
pub mod Stages
pub mod Reading
pub mod RoundTrip
pub mod AtMode
pub mod Initializing
pub mod Connections
pub mod OpenNetwork
pub mod AtFlag
pub mod Handing
pub mod Operations
pub mod Interface
