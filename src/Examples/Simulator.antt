-- ===== src/Examples/Simulator.antt =====
-- A bus with one gateway and two devices.
use aether_gateway.Prelude.{
  Increasing, ℕ, ◌≡◌, ◌≢◌, ◌<◌, ◌≤◌, refl, true, false, List, [], ◌∷◌, ◌++◌, some, arith, All,
}
use aether_gateway.Map.{find, nat_order}
use aether_gateway.LocalPort.Keys.{key_order}
use aether_gateway.LocalPort.{StreamStore, on_out_data}
use aether_gateway.LocalPort.Opening.{written_of}
use aether_gateway.Simulator.DataBus.{
  DataBus, new_data_bus, publish_gw_data, reg_device_listener, remove_device_listener,
  reg_gateway_listener,
}
use aether_gateway.Simulator.DataBus.Ids.{
  IsValid, new_data_bus-IsValid, registered, registered-IsValid, reg_device_listener_shared,
}
use aether_gateway.Simulator.DataBus.Histories.{
  BusCall, reg_device, remove_device, reg_gateway, run, run_ids,
}
use aether_gateway.Simulator.Device.{SimDevice, device_push_data, publish_outputs, deliver}
use aether_gateway.Simulator.EndToEnd.{device_call, call_and_answer}
use aether_gateway.Examples.Codec.{codec}
use aether_gateway.Examples.Gateway.{
  streams, call, key, port_after, world_after, world_after-IsValid,
}

abbrev bus : DataBus
bus = record { next_device_id = 8; device_listeners = (7, 500) ∷ []; gateway_listeners = 900 ∷ [] }

abbrev device : SimDevice
device = record { listener = 500; device_id = 7 }

on_bus : find 7 bus.device_listeners ≡ some 500
unfolding find
on_bus = refl

call_and_answer_example :
    let (p, w) =
      deliver codec streams 900
        (device_call codec streams device call bus)
        port_after
        world_after in
    (st : StreamStore) × (packet : List ℕ) × (find key p.stream_store ≡ some st)
    × (streams.written w st.stream
        ≡ written_of streams (find key port_after.stream_store) world_after ++ (1 ∷ 2 ∷ []) ∷ [])
    × (publish_outputs codec (on_out_data streams codec st.stream (9 ∷ []) p w).1 bus
        ≡ record { listener = 500; payload = packet } ∷ [])
    × (device_push_data codec packet ≡ record { client_id = 42; payload = 9 ∷ [] } ∷ [])
call_and_answer_example =
    call_and_answer codec streams device call bus 900 port_after world_after (9 ∷ [])
      world_after-IsValid refl on_bus

bus-IsValid : IsValid (registered 500 new_data_bus)
unfolding new_data_bus
bus-IsValid = registered-IsValid new_data_bus 500 new_data_bus-IsValid (omega arith)

room : (registered 500 new_data_bus).next_device_id < 255
unfolding new_data_bus
room = omega arith

-- A bus whose ids have wrapped.
abbrev wrapped : DataBus
wrapped = record { next_device_id = 1; device_listeners = (1, 500) ∷ []; gateway_listeners = [] }

taken : find 1 wrapped.device_listeners ≡ some 500
unfolding find
taken = refl

reg_device_listener_shared_example :
    (b : DataBus) × (reg_device_listener false 501 wrapped ≡ some (1, b))
    × (publish_gw_data 1 (9 ∷ []) b ≡ record { listener = 500; payload = 9 ∷ [] } ∷ [])
    × (publish_gw_data 1 (9 ∷ []) (remove_device_listener 1 b) ≡ [])
reg_device_listener_shared_example = reg_device_listener_shared wrapped 501 500 (9 ∷ []) taken

abbrev calls : List BusCall
calls = reg_device 500 ∷ reg_gateway 900 ∷ remove_device 1 ∷ reg_device 501 ∷ []

abbrev bus_after : DataBus
bus_after = record {
  next_device_id = 3;
  device_listeners = (2, 501) ∷ [];
  gateway_listeners = 900 ∷ [];
}

ran : run true calls new_data_bus ≡ some (1 ∷ 2 ∷ [], bus_after)
unfolding run reg_device_listener new_data_bus remove_device_listener reg_gateway_listener
    aether_gateway.Map.emplace aether_gateway.Map.erase
ran = refl

run_ids_example : Increasing 1 (1 ∷ 2 ∷ []) 3 × (3 ≤ 255)
run_ids_example = run_ids calls bus_after (1 ∷ 2 ∷ []) ran

not_listening : All (λ l. l ≢ 901) bus.gateway_listeners
not_listening = ((λ e. omega arith), tt)

seven_six : ◌≢◌ {A = ℕ} 7 6
seven_six e = omega arith
