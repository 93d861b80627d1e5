-- ===== src/Gateway/Histories.antt =====
-- A gateway over time: the packets of its devices, what its streams receive, the updates of the actions
-- and the replies of the cloud, in any order (libs/gateway/local_port.cpp, libs/gateway/gw_stream.cpp,
-- libs/gateway/server_stream_manager.cpp).
use aether_gateway.Prelude.{ℕ, ◌≡◌, refl, subst, [], Option, some, arith}
use aether_gateway.Map.{nat_order}
use aether_gateway.Aether.{DataBuffer}
use aether_gateway.Aether.Api.{Codec}
use aether_gateway.Aether.StateMachine.{StateMachine}
use aether_gateway.Aether.Servers.{AetherServers}
use aether_gateway.Aether.BufferStream.{BufferStream}
use aether_gateway.LocalPort.Interface.{GwStreams}
use aether_gateway.LocalPort.Histories.{Step-IsValid}
use aether_gateway.LocalPort.Histories
use aether_gateway.LocalPort.Invariant.{IsValid}
use aether_gateway.LocalPort.Worlds.{IsKept, input-kept, on_stream_update-kept}
use aether_gateway.LocalPort.{LocalPort, input, on_out_data, on_stream_update}
use aether_gateway.ServerStreams.{Manager, RequestState}
use aether_gateway.GwStream.Histories.{Step}
use aether_gateway.GwStream.Interface.{gateway_streams}
use aether_gateway.GwStream.Ownership.{W, IsOwned}
use aether_gateway.GwStream.Ownership.Steps.{Step-IsOwned}
use aether_gateway.GwStream.Serving.{IsServed}
use aether_gateway.GwStream.Serving.Steps.{Trusted, Step-IsServed}
use aether_gateway.GwStream.Unseen.{
  SameStreams, modified-SameStreams, update_action-SameStreams, servers_reply-SameStreams,
  servers_error-SameStreams,
}
use aether_gateway.GwStream.{restream, update_action, servers_reply}
use aether_gateway.Map.Values.{AtValue}

-- ServerStreamManager before its first use.
abbrev pub new_manager : (aether : AetherServers) → aether.A → Manager aether
new_manager aether servers = record {
  servers = servers;
  next_stream = 0;
  stream_server = [];
  gone = [];
  stream_cache = [];
}

module _ (aether : AetherServers) (sm : StateMachine RequestState) (bs : BufferStream)
    (api : Codec) where
  abbrev pub new_world : aether.A → ℕ → W aether sm bs
  new_world servers clock = record {
    manager = new_manager aether servers;
    next_handle = 0;
    gw_streams = [];
    actions = [];
    clock = clock;
  }

  abbrev streams : GwStreams
  streams = gateway_streams aether sm bs

  -- What happens behind the port: it neither makes nor ends a GwStream, nor writes to one.
  abbrev pub IsInner : {w u : W aether sm bs} → Step aether sm bs w u → Type 0
  IsInner (Step.made _) = ⊥
  IsInner (Step.deleted _) = ⊥
  IsInner (Step.written _ _) = ⊥
  IsInner _ = Unit

  pub data GatewayStep (p : LocalPort) (w : W aether sm bs)
      : LocalPort → W aether sm bs → Type 0 where
    -- The adapter hands over a packet of a device.
    received :
        (device_id : ℕ) (packet : DataBuffer)
        → GatewayStep p w
            (input streams api device_id packet p w).0
            (input streams api device_id packet p w).1
    -- Data comes out of a GwStream.
    answered :
        (h : ℕ) (payload : DataBuffer) → GatewayStep p w (on_out_data streams api h payload p w).0 w
    -- The state of a GwStream changes.
    relinked :
        (h : ℕ)
        → GatewayStep p w (on_stream_update streams h p w).0 (on_stream_update streams h p w).1
    behind : {u : W aether sm bs} (s : Step aether sm bs w u) → IsInner s → GatewayStep p w p u

  pub data GatewayReach (p : LocalPort) (w : W aether sm bs)
      : LocalPort → W aether sm bs → Type 0 where
    here : GatewayReach p w p w
    next :
        {q r : LocalPort} {u x : W aether sm bs}
        → GatewayReach p w q u
        → GatewayStep q u r x
        → GatewayReach p w r x

  abbrev pub TrustedStep :
      {p : LocalPort} {w : W aether sm bs} {q : LocalPort} {u : W aether sm bs}
      → GatewayStep p w q u
      → Type 0
  TrustedStep (behind s _) = Trusted aether sm bs s
  TrustedStep _ = Unit

  -- Every reply of the cloud names the server that was asked for.
  abbrev pub TrustedReach :
      {p : LocalPort} {w : W aether sm bs} {q : LocalPort} {u : W aether sm bs}
      → GatewayReach p w q u
      → Type 0
  TrustedReach here = Unit
  TrustedReach (next r s) = TrustedReach r × TrustedStep s

  same_after :
      (w u : W aether sm bs) (o : Option (W aether sm bs))
      → o ≡ some u
      → AtValue (SameStreams aether sm bs w) o
      → SameStreams aether sm bs w u
  same_after w u o e s = subst (AtValue (SameStreams aether sm bs w)) e s

  Step-SameStreams :
      {w u : W aether sm bs} (s : Step aether sm bs w u) → IsInner s → SameStreams aether sm bs w u
  unfolding restream
  Step-SameStreams (Step.made _) inner = absurd inner
  Step-SameStreams (Step.deleted _) inner = absurd inner
  Step-SameStreams (Step.written _ _) inner = absurd inner
  Step-SameStreams {w} (Step.restreamed h) inner =
      modified-SameStreams aether sm bs h _ w (λ s. refl)
  Step-SameStreams {w} (Step.updated h u e) inner =
      same_after w u (update_action aether sm bs h w) e (update_action-SameStreams aether sm bs h w)
  Step-SameStreams {w} (Step.replied h sds u e) inner =
      same_after w u (servers_reply aether sm bs h sds w) e
        (servers_reply-SameStreams aether sm bs h sds w)
  Step-SameStreams {w} (Step.failed h) inner = servers_error-SameStreams aether sm bs h w
  Step-SameStreams {w} (Step.elsewhere servers clock) inner = record {
    serves_same = λ h. refl;
    handle_same = refl;
  }

  -- A LocalPort over its streams, their owners and their servers.
  pub record IsSound (p : LocalPort) (w : W aether sm bs) : Type 0 where
    pub port : IsValid streams api.endpoints_hash p w
    pub owned : IsOwned aether sm bs w
    pub served : IsServed aether sm bs w

  IsOwned-kept : IsKept streams (λ w. IsOwned aether sm bs w)
  IsOwned-kept = record {
    made = λ s w. Step-IsOwned aether sm bs (Step.made s);
    destroyed = λ h w. Step-IsOwned aether sm bs (Step.deleted h);
    written = λ h d w. Step-IsOwned aether sm bs (Step.written h d);
  }

  IsServed-kept : IsKept streams (λ w. IsServed aether sm bs w)
  IsServed-kept = record {
    made = λ s w. Step-IsServed aether sm bs (Step.made s) tt;
    destroyed = λ h w. Step-IsServed aether sm bs (Step.deleted h) tt;
    written = λ h d w. Step-IsServed aether sm bs (Step.written h d) tt;
  }

  GatewayStep-IsSound :
      {p : LocalPort} {w : W aether sm bs} {q : LocalPort} {u : W aether sm bs}
      (s : GatewayStep p w q u)
      → TrustedStep s
      → IsSound p w
      → IsSound q u
  GatewayStep-IsSound {p} {w} (received device_id packet) t i = record {
    port = Step-IsValid streams api (Histories.Step.received device_id packet) i.port;
    owned =
        input-kept streams (λ w. IsOwned aether sm bs w) IsOwned-kept api device_id packet p w
          i.owned;
    served =
        input-kept streams (λ w. IsServed aether sm bs w) IsServed-kept api device_id packet p w
          i.served;
  }
  GatewayStep-IsSound (answered h payload) t i = record {
    port = Step-IsValid streams api (Histories.Step.answered h payload) i.port;
    owned = i.owned;
    served = i.served;
  }
  GatewayStep-IsSound {p} {w} (relinked h) t i = record {
    port = Step-IsValid streams api (Histories.Step.updated h) i.port;
    owned = on_stream_update-kept streams (λ w. IsOwned aether sm bs w) IsOwned-kept h p w i.owned;
    served =
        on_stream_update-kept streams (λ w. IsServed aether sm bs w) IsServed-kept h p w i.served;
  }
  GatewayStep-IsSound {p} {w} (behind {u} s inner) t i =
      let same = Step-SameStreams s inner in
      record {
        port =
            Step-IsValid streams api
              (Histories.Step.elsewhere u same.serves_same (omega (arith, same.handle_same)))
              i.port;
        owned = Step-IsOwned aether sm bs s i.owned;
        served = Step-IsServed aether sm bs s t i.served;
      }

  pub GatewayReach-IsSound :
      {p : LocalPort} {w : W aether sm bs} {q : LocalPort} {u : W aether sm bs}
      (r : GatewayReach p w q u)
      → TrustedReach r
      → IsSound p w
      → IsSound q u
  GatewayReach-IsSound here t i = i
  GatewayReach-IsSound (next r s) (t, t') i = GatewayStep-IsSound s t' (GatewayReach-IsSound r t i)
