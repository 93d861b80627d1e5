-- ===== src/Simulator.antt =====
-- The simulator (simulator/sim-gateway): a data bus in place of a radio, the device on one side of it
-- and the gateway's port on the other.
pub mod DataBus
pub mod Device
pub mod Channel
pub mod EndToEnd
pub mod AliceBob
