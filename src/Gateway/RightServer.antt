-- ===== src/Gateway/RightServer.antt =====
-- Which server stands behind a stored stream, after anything that a gateway has seen
-- (libs/gateway/local_port.cpp, libs/gateway/gw_stream.cpp, libs/gateway/server_stream_manager.cpp).
use aether_gateway.Prelude.{ℕ, ◌≡◌, refl, subst, false, Option, none, some}
use aether_gateway.Map.{find, nat_order}
use aether_gateway.Map.Values.{AtValue, AllValues-find}
use aether_gateway.Aether.Api.{Codec}
use aether_gateway.Aether.StateMachine.{StateMachine}
use aether_gateway.Aether.Servers.{AetherServers}
use aether_gateway.Aether.BufferStream.{BufferStream}
use aether_gateway.LocalPort.Keys.{Key, ServeKind, server_identity, key_order}
use aether_gateway.LocalPort.Invariant.{new_local_port-IsValid, stream-injective}
use aether_gateway.LocalPort.{LocalPort, StreamStore, new_local_port}
use aether_gateway.ServerStreams.{Manager, RequestState, expired}
use aether_gateway.ServerStreams.Invariant.{IsValid}
use aether_gateway.GwStream.Interface.{gateway_streams, server_in}
use aether_gateway.GwStream.Ownership.{W, G, LiveStream}
use aether_gateway.GwStream.Given.{IsLive}
use aether_gateway.GwStream.Fitting.{Fits}
use aether_gateway.Gateway.Histories.{
  new_manager, new_world, GatewayReach, TrustedReach, IsSound, GatewayReach-IsSound,
}

new_manager-IsValid :
    (aether : AetherServers) (a : aether.A) → IsValid aether (new_manager aether a)
unfolding find
new_manager-IsValid aether a = record { distinct = tt; cached = λ id h e. cc; made = λ h s e. cc }

module _ (aether : AetherServers) (sm : StateMachine RequestState) (bs : BufferStream)
    (api : Codec) where
  pub new_world-IsSound :
      (a : aether.A) (clock : ℕ)
      → IsSound aether sm bs api new_local_port (new_world aether sm bs api a clock)
  unfolding find
  new_world-IsSound a clock = record {
    port = new_local_port-IsValid (gateway_streams aether sm bs) api.endpoints_hash _;
    owned = record { actions = tt; streams = tt; bounded = (tt, tt) };
    served = record {
      valid = new_manager-IsValid aether a;
      streams = λ h s e. cc;
      actions = λ h action e. cc;
    };
  }

  -- A stored stream and the server behind it.
  pub record IsRight (p : LocalPort) (w : W aether sm bs) (k : Key) (st : StreamStore)
      : Type 0 where
    pub gw_stream : G aether sm bs
    pub found : find st.stream w.gw_streams ≡ some gw_stream
    pub same : gw_stream.server ≡ st.server
    pub keyed : server_identity api.endpoints_hash st.server ≡ k.server_identity
    pub tied :
        AtValue
          (λ n. Fits aether sm w.manager st.server n × (expired aether w.manager n ≡ false))
          gw_stream.server_stream
    pub alone :
        (j : Key) (su : StreamStore)
        → find j p.stream_store ≡ some su
        → su.stream ≡ st.stream
        → j ≡ k

  tied_live :
      (m : Manager aether) (a b : ServeKind) (o : Option ℕ)
      → a ≡ b
      → AtValue (Fits aether sm m a) o
      → AtValue (IsLive aether sm m) o
      → AtValue (λ n. Fits aether sm m b n × (expired aether m n ≡ false)) o
  tied_live m a b none q f live = tt
  tied_live m a b (some n) q f live = (subst (λ kind. Fits aether sm m kind n) q f, live.1)

  gw_stream_of :
      (o : Option (G aether sm bs)) (server : ServeKind)
      → server_in aether sm bs o ≡ some server
      → (s : G aether sm bs) × (o ≡ some s) × (s.server ≡ server)
  gw_stream_of none server e = cc
  gw_stream_of (some s) server e = (s, refl, cc)

  IsSound-IsRight :
      (p : LocalPort) (w : W aether sm bs) (k : Key) (st : StreamStore)
      → IsSound aether sm bs api p w
      → find k p.stream_store ≡ some st
      → IsRight p w k st
  IsSound-IsRight p w k st i e =
      let stored = i.port.stored k st e in
      let (s, f, q) = gw_stream_of (find st.stream w.gw_streams) st.server stored.served in
      let live : AtValue (LiveStream aether sm bs w.manager) (some s) =
        subst (AtValue (LiveStream aether sm bs w.manager)) f (
          AllValues-find (LiveStream aether sm bs w.manager) st.stream w.gw_streams
            i.owned.streams) in
      record {
        gw_stream = s;
        found = f;
        same = q;
        keyed = stored.keyed;
        tied =
            tied_live w.manager s.server st.server s.server_stream q
              (i.served.streams st.stream s f) live;
        alone = λ j su e' r.
            stream-injective (gateway_streams aether sm bs) api.endpoints_hash p w j k su st i.port
              e' e r;
      }

  -- After whatever a new gateway has seen, packets of devices, data and state changes of streams,
  -- updates of actions, replies of the cloud and its failures, in any order, where each reply names
  -- first the server that was asked for: a stored stream is a GwStream that exists, was made for
  -- the stored server, which agrees with the key in its 32 bits, and stands under no other key; and
  -- if it has a server stream, that one is of this very server, by id or by endpoints, and is not
  -- expired.
  pub stored-IsRight :
      (a : aether.A) (clock : ℕ) {p : LocalPort} {w : W aether sm bs}
      (r : GatewayReach aether sm bs api new_local_port (new_world aether sm bs api a clock) p w)
      → TrustedReach aether sm bs api r
      → (k : Key) (st : StreamStore) → find k p.stream_store ≡ some st
      → IsRight p w k st
  stored-IsRight a clock {p} {w} r t k st e =
      IsSound-IsRight p w k st
        (GatewayReach-IsSound aether sm bs api r t (new_world-IsSound a clock)) e
