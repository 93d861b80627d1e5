-- ===== src/Simulator/DataBus/Histories.antt =====
-- A bus over time: listeners come and go (gw-sim-data-bus.cpp).
use native.Mathlib.Nat.{le_refl}
use aether_gateway.Prelude.{
  Increasing, ℕ, ◌+◌, ◌%◌, ◌≡◌, ◌≤◌, subst, Bool, true, List, [], ◌∷◌, Option, none, some, arith,
  dec_lt,
}
use aether_gateway.Map.{nat_order}
use aether_gateway.Simulator.DataBus.{
  DataBus, new_data_bus, reg_device_listener, remove_device_listener, reg_gateway_listener,
  remove_gateway_listener,
}
use aether_gateway.Simulator.DataBus.Ids.{
  IsValid, new_data_bus-IsValid, registered, reg_below, registered-IsValid, remove_device-IsValid,
  reg_device_listener_full,
}

-- What is done to a bus.
pub data BusCall : Type 0 where
  reg_device remove_device reg_gateway remove_gateway : ℕ → BusCall

-- The ids handed out, oldest first, and the bus; `none` once an assertion has failed.
abbrev pub with_id : ℕ → Option (List ℕ × DataBus) → Option (List ℕ × DataBus)
with_id id none = none
with_id id (some (ids, b)) = some (id ∷ ids, b)

unfoldable pub run : Bool → List BusCall → DataBus → Option (List ℕ × DataBus)
run asserts [] b = some ([], b)
run asserts (reg_device l ∷ cs) b = elim (reg_device_listener asserts l b) [
  | none ↦ none
  | some (id, b') ↦ with_id id (run asserts cs b')
]
run asserts (remove_device id ∷ cs) b = run asserts cs (remove_device_listener id b)
run asserts (reg_gateway l ∷ cs) b = run asserts cs (reg_gateway_listener l b)
run asserts (remove_gateway l ∷ cs) b = run asserts cs (remove_gateway_listener l b)

-- A run that ends: its ids increase from `lo` on, and the bus is valid after it.
abbrev Ends : ℕ → Option (List ℕ × DataBus) → Type 0
Ends lo none = Unit
Ends lo (some (ids, b)) = Increasing lo ids b.next_device_id × IsValid b

with_id-Ends : (id : ℕ) (r : Option (List ℕ × DataBus)) → Ends (id + 1) r → Ends id (with_id id r)
with_id-Ends id none h = tt
with_id-Ends id (some (ids, b)) h = ((le_refl id, h.0), h.1)

run-Ends : (cs : List BusCall) (b : DataBus) → IsValid b → Ends b.next_device_id (run true cs b)
unfolding run remove_device_listener reg_gateway_listener remove_gateway_listener
run-Ends [] b v = (le_refl b.next_device_id, v)
run-Ends (reg_device l ∷ cs) b v = elim (dec_lt b.next_device_id 255) [
  | no full ↦ rw (Ends, run, reg_device_listener_full b l (omega (arith, v.bounded))) tt
  | yes lt ↦
      let q : (b.next_device_id + 1) % 256 ≡ b.next_device_id + 1 = omega arith in
      let ih = run-Ends cs (registered l b) (registered-IsValid b l v lt) in
      rw (Ends, run, reg_below b l lt)
        (with_id-Ends b.next_device_id _ (subst (λ n. Ends n (run true cs (registered l b))) q ih))
]
run-Ends (remove_device id ∷ cs) b v =
    run-Ends cs (remove_device_listener id b) (remove_device-IsValid id b v)
run-Ends (reg_gateway l ∷ cs) b v =
    run-Ends cs (reg_gateway_listener l b)
      (record { positive = v.positive; bounded = v.bounded; used = v.used })
run-Ends (remove_gateway l ∷ cs) b v =
    run-Ends cs (remove_gateway_listener l b)
      (record { positive = v.positive; bounded = v.bounded; used = v.used })

-- With the assertion on, whatever listeners come and go on a new bus, the device ids that it hands
-- out strictly increase, so none is handed out twice, and all of them are between 1 and 254.
pub run_ids :
    (cs : List BusCall) (b : DataBus) (ids : List ℕ)
    → run true cs new_data_bus ≡ some (ids, b)
    → Increasing 1 ids b.next_device_id × (b.next_device_id ≤ 255)
unfolding new_data_bus
run_ids cs b ids e =
    let (inc, v) = rw e at (run-Ends cs new_data_bus new_data_bus-IsValid) in (inc, v.bounded)
