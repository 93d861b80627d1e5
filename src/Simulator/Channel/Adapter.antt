-- ===== src/Simulator/Channel/Adapter.antt =====
-- class GwSimAdapter (simulator/sim-gateway/gw-sim-adapter.h, gw-sim-adapter.cpp): one access point on
-- a data bus, which all its channels share, and with it one device.
use aether_gateway.Prelude.{
  ℕ, arith, zero, suc, ◌≡◌, ◌∙◌, refl, ap, Bool, List, [], ◌∷◌, ◌++◌, Option, none, some,
}
use aether_gateway.Aether.Servers.{Server}
use aether_gateway.Simulator.DataBus.{DataBus}
use aether_gateway.Simulator.Device.{SimDevice, new_device}
use aether_gateway.Simulator.Channel.{AccessPoint, gw_device}
use aether_gateway.Simulator.Channel.Making.{GwSimChannel, generate_channels}

pub record GwSimAdapter : Type 0 where
  pub access_point : AccessPoint
  pub data_bus : DataBus

-- The constructor; the device that the access point will make has this pointer.
unfoldable new_adapter : (device_pointer : ℕ) → DataBus → GwSimAdapter
new_adapter device_pointer bus = record {
  access_point = record { device_pointer = device_pointer; device = none };
  data_bus = bus;
}

unfoldable access_points : GwSimAdapter → List AccessPoint
access_points a = a.access_point ∷ []

-- The channels of all access points for a server.
abbrev channels_of : List AccessPoint → Server → List GwSimChannel
channels_of [] server = []
channels_of (ap ∷ aps) server = generate_channels ap server ++ channels_of aps server

abbrev placed : Option (SimDevice × AccessPoint × DataBus) → Option (SimDevice × GwSimAdapter)
placed none = none
placed (some (d, ap, bus)) = some (d, record { access_point = ap; data_bus = bus })

-- A channel asks the access point of the adapter for its device, on the adapter's bus.
unfoldable device_of : Bool → GwSimAdapter → Option (SimDevice × GwSimAdapter)
device_of asserts a = placed (gw_device asserts a.access_point a.data_bus)

abbrev consed :
    SimDevice → Option (List SimDevice × GwSimAdapter) → Option (List SimDevice × GwSimAdapter)
consed d none = none
consed d (some (ds, a)) = some (d ∷ ds, a)

-- Any number of channels, one after the other.
unfoldable devices_of : Bool → ℕ → GwSimAdapter → Option (List SimDevice × GwSimAdapter)
unfolding device_of
devices_of asserts zero a = some ([], a)
devices_of asserts (suc n) a = elim (device_of asserts a) [
  | none ↦ none
  | some (d, a') ↦ consed d (devices_of asserts n a')
]

abbrev copies : ℕ → SimDevice → List SimDevice
copies zero d = []
copies (suc n) d = d ∷ copies n d

-- An adapter whose access point has its device.
abbrev with_device : ℕ → SimDevice → DataBus → GwSimAdapter
with_device pointer d b = record {
  access_point = record { device_pointer = pointer; device = some d };
  data_bus = b;
}

devices_of_again :
    (asserts : Bool) (n pointer : ℕ) (d : SimDevice) (b : DataBus)
    → devices_of asserts n (with_device pointer d b) ≡ some (copies n d, with_device pointer d b)
unfolding devices_of gw_device
devices_of_again asserts zero pointer d b = refl
devices_of_again asserts (suc n) pointer d b =
    ap (consed d) (devices_of_again asserts n pointer d b)

device_of_new :
    (asserts : Bool) (pointer : ℕ) (b b' : DataBus) (d : SimDevice)
    → new_device asserts pointer b ≡ some (d, b')
    → device_of asserts (new_adapter pointer b) ≡ some (d, with_device pointer d b')
unfolding device_of new_adapter gw_device
device_of_new asserts pointer b b' d e = ground (arith, e)

-- Every channel of a new adapter uses the one device that the first of them registered on the bus.
devices_of_one :
    (asserts : Bool) (n pointer : ℕ) (b b' : DataBus) (d : SimDevice)
    → new_device asserts pointer b ≡ some (d, b')
    → devices_of asserts (suc n) (new_adapter pointer b)
      ≡ some (copies (suc n) d, with_device pointer d b')
unfolding devices_of
devices_of_one asserts n pointer b b' d e =
    ap next (device_of_new asserts pointer b b' d e)
    ∙ ap (consed d) (devices_of_again asserts n pointer d b')
  where
    next : Option (SimDevice × GwSimAdapter) → Option (List SimDevice × GwSimAdapter)
    next none = none
    next (some (d, a)) = consed d (devices_of asserts n a)
