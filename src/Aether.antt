-- ===== src/Aether.antt =====
-- The part of the aether client library (the git submodule libs/aether) that the gateway's code
-- stands on. The library is not in the repository: its values are carried as plain data, and its
-- behaviour enters as records of operations and laws.
pub mod Api
pub mod StateMachine
pub mod Servers
pub mod BufferStream
use aether_gateway.Prelude.{ℕ, List}

-- DataBuffer: a vector of bytes.
abbrev pub DataBuffer : Type 0
DataBuffer = List ℕ

-- The protocols that the gateway's code names, and every other one.
pub data Protocol : Type 0 where
  tcp udp : Protocol
  other_protocol : ℕ → Protocol

-- The address is only copied, so its bytes stand for it.
pub record Endpoint : Type 0 where
  pub ip : List ℕ
  pub port : ℕ
  pub protocol : Protocol

pub record ServerEndpoints : Type 0 where
  pub endpoints : List Endpoint

-- What an action's `Update` returns: it goes on, or it ends in one of three ways.
pub data UpdateStatus : Type 0 where
  pending result error stop : UpdateStatus

-- StreamInfo::link_state, as far as the gateway looks at it.
pub data LinkState : Type 0 where
  link_error : LinkState
  other_state : ℕ → LinkState
