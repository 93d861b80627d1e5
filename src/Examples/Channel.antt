-- ===== src/Examples/Channel.antt =====
-- The transport of a device to server 9, over a new bus.
use aether_gateway.Prelude.{◌≡◌, ◌<◌, true, [], none, some, arith}
use aether_gateway.Aether.StateMachine.{StateMachine, flagged}
use aether_gateway.Aether.Servers.{Server}
use aether_gateway.Simulator.DataBus.{DataBus, new_data_bus}
use aether_gateway.Simulator.DataBus.Ids.{IsValid, new_data_bus-IsValid}
use aether_gateway.Simulator.Device.{SimDevice}
use aether_gateway.Simulator.Channel.{BuildState, AccessPoint, gw_device}
use aether_gateway.Simulator.Channel.Building.{IsOnBus, gw_device-IsOnBus}

abbrev point : AccessPoint
point = record { device_pointer = 500; device = none }

room : new_data_bus.next_device_id < 255
unfolding new_data_bus
room = omega arith

gw_device-IsOnBus_example :
    (d : SimDevice) × (point' : AccessPoint) × (b : DataBus) × (gw_device true point new_data_bus
      ≡ some (d, point', b))
    × (gw_device true point' b ≡ some (d, point', b))
    × IsOnBus (some d) b
    × IsValid b
gw_device-IsOnBus_example = gw_device-IsOnBus point new_data_bus new_data_bus-IsValid room tt

abbrev server : Server
server = record { object = 0; server_id = 9; endpoints = [] }

abbrev machine : StateMachine BuildState
machine = flagged BuildState

-- A point that has its device.
abbrev device : SimDevice
device = record { listener = 500; device_id = 1 }

abbrev ready_point : AccessPoint
ready_point = record { device_pointer = 500; device = some device }
