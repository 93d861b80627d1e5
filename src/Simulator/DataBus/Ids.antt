-- ===== src/Simulator/DataBus/Ids.antt =====
-- Device ids: who gets which, and what happens when they run out (gw-sim-data-bus.cpp).
use aether_gateway.Prelude.{
  ℕ, ◌+◌, ◌%◌, ◌≡◌, refl, ◌≢◌, ◌≤◌, ◌<◌, true, false, [], ◌∷◌, none, some, arith, inl, inr,
  Option-cases,
}
use aether_gateway.Map.{find, emplace, erase, nat_order}
use aether_gateway.Map.Laws.{
  find-emplace, find-emplace-some, find-emplace_other, find-erase, find-erase-some, equiv_refl,
}
use aether_gateway.Aether.{DataBuffer}
use aether_gateway.Simulator.DataBus.{
  DataBus, new_data_bus, publish_gw_data, reg_device_listener, remove_device_listener,
}

-- The ids in use are below the next one, which has not wrapped.
pub record IsValid (b : DataBus) : Type 0 where
  pub positive : 1 ≤ b.next_device_id
  pub bounded : b.next_device_id ≤ 255
  pub used :
      (id listener : ℕ)
      → find id b.device_listeners ≡ some listener
      → (1 ≤ id) × (id < b.next_device_id)

pub new_data_bus-IsValid : IsValid new_data_bus
unfolding new_data_bus find
new_data_bus-IsValid = record {
  positive = omega arith;
  bounded = omega arith;
  used = λ id listener e. cc;
}

pub unused_next : (b : DataBus) → IsValid b → find b.next_device_id b.device_listeners ≡ none
unused_next b v = elim (Option-cases (find b.next_device_id b.device_listeners)) [
  | inl e ↦ e
  | inr (l, e) ↦ absurd (omega (arith, v.used b.next_device_id l e))
]

abbrev pub registered : ℕ → DataBus → DataBus
registered listener b = record b {
  next_device_id = (b.next_device_id + 1) % 256;
  device_listeners = emplace b.next_device_id listener b.device_listeners;
}

pub reg_below :
    (b : DataBus) (listener : ℕ)
    → b.next_device_id < 255
    → reg_device_listener true listener b ≡ some (b.next_device_id, registered listener b)
unfolding reg_device_listener
reg_below b listener lt = ground arith

pub registered-IsValid :
    (b : DataBus) (listener : ℕ)
    → IsValid b
    → b.next_device_id < 255
    → IsValid (registered listener b)
registered-IsValid b listener v lt = record {
  positive = omega (arith, v.positive);
  bounded = omega arith;
  used = λ id l e. elim (find-emplace-some id b.next_device_id listener l b.device_listeners e) [
    | inl old ↦ omega (arith, v.used id l old)
    | inr (q, _) ↦ omega (arith, v.positive)
  ];
}

-- On a valid bus, with the assertion on and below id 255, a device that registers gets an id that
-- no other device has, its listener is found under that id, every other device keeps its own, and
-- the bus stays valid.
pub reg_device_listener_lem :
    (b : DataBus) (listener : ℕ)
    → IsValid b
    → b.next_device_id < 255
    → (b' : DataBus) × (reg_device_listener true listener b ≡ some (b.next_device_id, b'))
      × (find b.next_device_id b.device_listeners ≡ none)
      × (find b.next_device_id b'.device_listeners ≡ some listener)
      × ((j : ℕ) → b.next_device_id ≢ j → find j b'.device_listeners ≡ find j b.device_listeners)
      × IsValid b'
reg_device_listener_lem b listener v lt = (
  registered listener b,
  reg_below b listener lt,
  unused_next b v,
  ground (
    arith,
    find-emplace b.next_device_id b.next_device_id listener b.device_listeners,
    unused_next b v,
    equiv_refl b.next_device_id,
  ),
  λ j ne. find-emplace_other j b.next_device_id listener b.device_listeners ne,
  registered-IsValid b listener v lt,
)

-- The 255th device fails the assertion.
pub reg_device_listener_full :
    (b : DataBus) (listener : ℕ)
    → b.next_device_id ≡ 255
    → reg_device_listener true listener b ≡ none
unfolding reg_device_listener
reg_device_listener_full b listener e = ground arith

-- With assertions compiled out, a device that registers when the next id is another device's is
-- handed that id and no place on the bus: what is sent to it goes to the other device, and when it
-- leaves, the other device is cut off.
pub reg_device_listener_shared :
    (b : DataBus) (listener other : ℕ) (payload : DataBuffer)
    → find b.next_device_id b.device_listeners ≡ some other
    → (b' : DataBus) × (reg_device_listener false listener b ≡ some (b.next_device_id, b'))
      × (publish_gw_data b.next_device_id payload b'
          ≡ record { listener = other; payload = payload } ∷ [])
      × (publish_gw_data b.next_device_id payload (remove_device_listener b.next_device_id b') ≡ [])
unfolding reg_device_listener publish_gw_data remove_device_listener
reg_device_listener_shared b listener other payload e =
    (registered listener b, refl, rw (kept, publish_gw_data), rw (gone, publish_gw_data))
  where
    kept : find b.next_device_id (registered listener b).device_listeners ≡ some other
    kept =
        ground (arith, find-emplace b.next_device_id b.next_device_id listener b.device_listeners)

    gone :
        find b.next_device_id (erase b.next_device_id (registered listener b).device_listeners)
        ≡ none
    gone = ground (
      arith,
      find-erase b.next_device_id b.next_device_id (registered listener b).device_listeners,
      equiv_refl b.next_device_id,
    )

pub remove_device-IsValid :
    (id : ℕ) (b : DataBus) → IsValid b → IsValid (remove_device_listener id b)
unfolding remove_device_listener
remove_device-IsValid id b v = record {
  positive = v.positive;
  bounded = v.bounded;
  used = λ j l e. v.used j l (find-erase-some j id l b.device_listeners e).1;
}
