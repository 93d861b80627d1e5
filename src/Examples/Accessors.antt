-- ===== src/Examples/Accessors.antt =====
-- A gateway whose port is asked for before and after its manager.
use aether_gateway.Prelude.{ℕ, get_elem?, ◌≡◌, ◌↔◌, refl, List, [], ◌∷◌, some}
use aether_gateway.Gateway.{
  Accessor, of_manager, of_port, of_cloud, new_gateway, accesses, access, get_server_stream_manager,
  get_local_port, get_gateway_cloud,
}
use aether_gateway.Gateway.Accessors.{accesses_agree}

abbrev calls : List Accessor
calls = of_port ∷ of_manager ∷ of_cloud ∷ of_port ∷ []

abbrev port : ℕ
port = 11

first : get_elem? (accesses calls (new_gateway 1 2 10)).0 0 ≡ some (of_port, port)
unfolding accesses access get_server_stream_manager get_local_port get_gateway_cloud new_gateway
first = refl

last : get_elem? (accesses calls (new_gateway 1 2 10)).0 3 ≡ some (of_port, port)
unfolding accesses access get_server_stream_manager get_local_port get_gateway_cloud new_gateway
last = refl

accesses_agree_example : (of_port ≡ of_port) ↔ (port ≡ port)
accesses_agree_example = accesses_agree 1 2 10 0 3 port port calls of_port of_port first last
