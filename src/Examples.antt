-- ===== src/Examples.antt =====
-- Concrete instances of the interfaces, and the theorems at concrete inputs.
mod Codec
mod Servers
mod Gateway
mod History
mod AliceBob
mod Broken
mod Simulator
mod ServerStreams
mod GwStream
mod Channel
mod Lora
mod Server
mod Operations
mod Sharing
mod Accessors
