-- ===== src/Lora/OpenNetwork.antt =====
-- DxSmartLr02TcpOpenNetwork and DxSmartLr02UdpOpenNetwork, and the promise of OpenNetwork
-- (src/lora_gateways/dx_smart_lr02_gw.cpp).
use aether_gateway.Prelude.{
  ℕ, zero, suc, ◌≡◌, ◌∙◌, ap, refl, Bool, false, Option, none, some, if◌then◌else◌,
}
use aether_gateway.Aether.{Protocol, tcp, udp, other_protocol, UpdateStatus}
use aether_gateway.Lora.Text.{Text}

pub record OpenNetworkAction : Type 0 where
  pub host : Text
  pub port : ℕ
  pub connection_index : ℕ  -- int8, as a byte
  pub success : Bool
  pub error : Bool
  pub stop : Bool

-- kInvalidConnectionLoraGatewayIndex, -1.
abbrev pub invalid_connection_index : ℕ
invalid_connection_index = 255

unfoldable pub new_tcp_open_network : Text → ℕ → OpenNetworkAction
new_tcp_open_network host port = record {
  host = host;
  port = port;
  connection_index = invalid_connection_index;
  success = false;
  error = false;
  stop = false;
}

unfoldable pub new_udp_open_network : Text → ℕ → OpenNetworkAction
new_udp_open_network host port = record {
  host = host;
  port = port;
  connection_index = invalid_connection_index;
  success = false;
  error = false;
  stop = false;
}

unfoldable pub update_open_network : OpenNetworkAction → UpdateStatus
update_open_network a =
    if a.success
    then UpdateStatus.result
    else if a.error
    then UpdateStatus.error
    else if a.stop
    then UpdateStatus.stop
    else UpdateStatus.pending

-- OpenNetworkOperation, a promise of a connection.
pub data Promise : Type 0 where
  waiting rejected : Promise
  value : ℕ → Promise

-- The handlers of OpenTcpConnection and OpenUdpConnection.
unfoldable pub on_open_status : OpenNetworkAction → UpdateStatus → Promise → Promise
on_open_status a UpdateStatus.result p = value a.connection_index
on_open_status a UpdateStatus.error p = rejected
on_open_status a _ p = p

-- The action is updated as often as asked; `Update` is const, so the action stays as it is.
unfoldable pub open_updates : ℕ → OpenNetworkAction → Promise → Promise
unfolding update_open_network on_open_status
open_updates zero a p = p
open_updates (suc n) a p = open_updates n a (on_open_status a (update_open_network a) p)

-- The action that the job of OpenNetwork makes, if it makes one.
unfoldable pub open_action : Protocol → Text → ℕ → Option OpenNetworkAction
unfolding new_tcp_open_network new_udp_open_network
open_action tcp host port = some (new_tcp_open_network host port)
open_action udp host port = some (new_udp_open_network host port)
open_action (other_protocol _) host port = none

-- The promise after so many updates of that action.
unfoldable pub open_network_promise : Protocol → Text → ℕ → ℕ → Promise
unfolding open_action open_updates
open_network_promise protocol host port updates = elim (open_action protocol host port) [
  | none ↦ waiting
  | some a ↦ open_updates updates a waiting
]

-- An action none of whose flags is set.
idle_updates :
    (n : ℕ) (a : OpenNetworkAction) (p : Promise)
    → on_open_status a (update_open_network a) p ≡ p
    → open_updates n a p ≡ p
unfolding open_updates
idle_updates zero a p e = refl
idle_updates (suc n) a p e = ap (open_updates n a) e ∙ idle_updates n a p e

-- The promise of OpenNetwork is still waiting after any number of updates of the action that its
-- job makes, for every protocol, host and port.
pub open_network_promise_waits :
    (protocol : Protocol) (host : Text) (port updates : ℕ)
    → open_network_promise protocol host port updates ≡ waiting
unfolding open_network_promise
open_network_promise_waits tcp host port updates = idle_updates updates _ waiting refl
open_network_promise_waits udp host port updates = idle_updates updates _ waiting refl
open_network_promise_waits (other_protocol n) host port updates = refl
