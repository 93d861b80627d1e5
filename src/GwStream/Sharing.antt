-- ===== src/GwStream/Sharing.antt =====
-- GwStreams of one server share its cached server stream (libs/gateway/gw_stream.cpp,
-- libs/gateway/server_stream_manager.cpp).
use aether_gateway.Prelude.{ℕ, ◌≡◌, subst, false, some}
use aether_gateway.Map.{find, nat_order}
use aether_gateway.Map.Values.{AtValue, AllValues-find}
use aether_gateway.Aether.StateMachine.{StateMachine}
use aether_gateway.Aether.Servers.{AetherServers}
use aether_gateway.Aether.BufferStream.{BufferStream}
use aether_gateway.ServerStreams.{RequestState, expired}
use aether_gateway.GwStream.Histories.{Reach}
use aether_gateway.GwStream.Given.{IsLive}
use aether_gateway.GwStream.Ownership.{W, G, IsOwned, LiveStream}
use aether_gateway.GwStream.Ownership.Steps.{Reach-IsOwned}

module _ (aether : AetherServers) (sm : StateMachine RequestState) (bs : BufferStream) where
  -- In every history from a gateway whose owned streams are live, as a new one's are, the server
  -- stream of a GwStream that exists is not expired.
  pub owned_live :
      {w u : W aether sm bs}
      → IsOwned aether sm bs w
      → Reach aether sm bs w u
      → (h k : ℕ) (s : G aether sm bs) → find h u.gw_streams ≡ some s
      → s.server_stream ≡ some k
      → expired aether u.manager k ≡ false
  owned_live {u = u} i r h k s e f =
      let i' = Reach-IsOwned aether sm bs r i in
      let live : AtValue (LiveStream aether sm bs u.manager) (some s) =
        subst (AtValue (LiveStream aether sm bs u.manager)) e
          (AllValues-find (LiveStream aether sm bs u.manager) h u.gw_streams i'.streams) in
      let at : AtValue (IsLive aether sm u.manager) (some k) =
        subst (AtValue (IsLive aether sm u.manager)) f live in
      at.1
