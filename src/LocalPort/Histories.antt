-- ===== src/LocalPort/Histories.antt =====
-- A LocalPort over time: packets from devices, data and updates from streams, in any order
-- (libs/gateway/local_port.cpp).
use aether_gateway.Prelude.{ℕ, ◌≡◌, ◌≤◌, ◌∙◌, List, [], ◌∷◌, arith}
use aether_gateway.Aether.{DataBuffer}
use aether_gateway.Aether.Api.{Codec}
use aether_gateway.LocalPort.Keys.{Key, key_order}
use aether_gateway.LocalPort.Interface.{GwStreams}
use aether_gateway.LocalPort.Invariant.{IsValid, new_local_port-IsValid}
use aether_gateway.LocalPort.Preserve.{stream_state-IsValid}
use aether_gateway.LocalPort.Routing.{input-IsValid, out_data-IsValid}
use aether_gateway.LocalPort.{
  LocalPort, new_local_port, input, on_out_data, out_data_all, on_stream_update, stream_state_all,
  subscribers,
}

module _ (g : GwStreams) (api : Codec) where
  open g use {World, fresh, serves}
  open api use {endpoints_hash}

  pub data Step (p : LocalPort) (w : World) : LocalPort → World → Type 0 where
    received :
        (device_id : ℕ) (packet : DataBuffer)
        → Step p w (input g api device_id packet p w).0 (input g api device_id packet p w).1
    answered : (h : ℕ) (payload : DataBuffer) → Step p w (on_out_data g api h payload p w).0 w
    updated : (h : ℕ) → Step p w (on_stream_update g h p w).0 (on_stream_update g h p w).1
    -- What happens outside: links change, time passes, and other streams come and go.
    elsewhere :
        (w' : World) → ((h : ℕ) → serves w' h ≡ serves w h) → fresh w ≤ fresh w' → Step p w p w'

  pub data Reach (p : LocalPort) (w : World) : LocalPort → World → Type 0 where
    here : Reach p w p w
    next : {q r : LocalPort} {u x : World} → Reach p w q u → Step q u r x → Reach p w r x

  out_data_all-IsValid :
      (keys : List Key) (payload : DataBuffer) (p : LocalPort) (w : World)
      → IsValid g endpoints_hash p w
      → IsValid g endpoints_hash (out_data_all g api keys payload p w).0 w
  unfolding out_data_all
  out_data_all-IsValid [] payload p w v = v
  out_data_all-IsValid (k ∷ keys) payload p w v =
      out_data_all-IsValid keys payload _ w (out_data-IsValid g api k payload p w v)

  stream_state_all-IsValid :
      (keys : List Key) (p : LocalPort) (w : World)
      → IsValid g endpoints_hash p w
      → IsValid g endpoints_hash (stream_state_all g keys p w).0 (stream_state_all g keys p w).1
  unfolding stream_state_all
  stream_state_all-IsValid [] p w v = v
  stream_state_all-IsValid (k ∷ keys) p w v =
      stream_state_all-IsValid keys _ _ (stream_state-IsValid g endpoints_hash k p w v)

  elsewhere-IsValid :
      (p : LocalPort) (w w' : World)
      → ((h : ℕ) → serves w' h ≡ serves w h)
      → fresh w ≤ fresh w'
      → IsValid g endpoints_hash p w
      → IsValid g endpoints_hash p w'
  elsewhere-IsValid p w w' same le v = record {
    stored = λ k st e.
        let s = v.stored k st e in
        record {
          served = same st.stream ∙ s.served;
          keyed = s.keyed;
          routed = s.routed;
          watched = s.watched;
        };
    unheard = λ h le'. v.unheard h (omega arith);
    unwatched = λ h le'. v.unwatched h (omega arith);
  }

  pub Step-IsValid :
      {p : LocalPort} {w : World} {q : LocalPort} {u : World}
      → Step p w q u
      → IsValid g endpoints_hash p w
      → IsValid g endpoints_hash q u
  unfolding on_out_data on_stream_update
  Step-IsValid {p} {w = w} (received device_id packet) v =
      input-IsValid g api device_id packet p w v
  Step-IsValid {p} {w = w} (answered h payload) v =
      out_data_all-IsValid (subscribers h p.out_data_subs) payload p w v
  Step-IsValid {p} {w = w} (updated h) v =
      stream_state_all-IsValid (subscribers h p.update_stream_subs) p w v
  Step-IsValid {p} {w = w} (elsewhere w' same le) v = elsewhere-IsValid p w w' same le v

  Reach-IsValid :
      {p : LocalPort} {w : World} {q : LocalPort} {u : World}
      → Reach p w q u
      → IsValid g endpoints_hash p w
      → IsValid g endpoints_hash q u
  Reach-IsValid here v = v
  Reach-IsValid (next r s) v = Step-IsValid s (Reach-IsValid r v)

  -- Whatever packets, answers, updates and foreign events a new port has seen, every stored stream
  -- exists, serves the stored server, whose 32 bits the key holds, and calls back for its own key
  -- and for no other; and nobody listens to a stream that is still to be made.
  pub Reach-new-IsValid :
      {p : LocalPort} {w u : World} → Reach new_local_port w p u → IsValid g endpoints_hash p u
  Reach-new-IsValid {w = w} r = Reach-IsValid r (new_local_port-IsValid g endpoints_hash w)
