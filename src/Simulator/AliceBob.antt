-- ===== src/Simulator/AliceBob.antt =====
-- The test of the simulator (simulator/tests/sim-alice-bob/sim-alice-bob.cpp): Alice and Bob, two clients
-- of one application, talk through the gateway of another. Both applications and the streams of messages
-- are the aether client library's; what its Update calls back is a list of events.
pub mod Loop
pub mod Talk
pub mod Conversation
use mathlib.Core.Option
use aether_gateway.Prelude.{
  ℕ, zero, suc, ◌+◌, ◌==◌, ◌||◌, Bool, not, true, false, List, [], ◌∷◌, ◌++◌, Option, none, some,
  ltb, if◌then◌else◌,
}
use aether_gateway.Aether.{DataBuffer}
use aether_gateway.Lora.Text.{codes}
use aether_gateway.Server.{AetherApp}

-- What the test is called back for: the results of the two selections, with the uid of the client, the
-- cumulative event of both selections, and the data of the two message streams.
pub data Event : Type 0 where
  alice_selected bob_selected : (uid : ℕ) → Event
  comm : Event
  alice_data bob_data : (message : DataBuffer) → Event

-- A P2pStream: the client that made it, the client it goes to, and what was written to it.
pub record P2pStream : Type 0 where
  pub owner : ℕ
  pub peer : ℕ
  pub written : List DataBuffer

pub record Test : Type 0 where
  pub received_messages : ℕ
  pub alice : Option ℕ
  pub alice_stream : Option P2pStream
  pub bob : Option ℕ
  pub bob_stream : Option P2pStream

unfoldable pub new_test : Test
new_test = record {
  received_messages = 0;
  alice = none;
  alice_stream = none;
  bob = none;
  bob_stream = none;
}

abbrev pub alice_message : DataBuffer
alice_message = codes "Hello, Bob!"

abbrev pub bob_message : DataBuffer
bob_message = codes "Hello, Alice!"

-- The handler of the cumulative event: make both streams anew, and let Alice write.
unfoldable pub on_comm : Test → Test
on_comm t = elim t.alice [
  | none ↦ t
  | some a ↦ elim t.bob [
    | none ↦ t
    | some b ↦ record t {
      alice_stream = some (record { owner = a; peer = b; written = alice_message ∷ [] });
      bob_stream = some (record { owner = b; peer = a; written = [] });
    }
  ]
]

-- The handlers of the streams' data, which a stream has once it is made.
unfoldable pub on_alice_data : DataBuffer → Test → Test
on_alice_data message t = elim t.alice_stream [
  | none ↦ t
  | some stream ↦ record t { received_messages = t.received_messages + 1 }
]

unfoldable pub on_bob_data : DataBuffer → Test → Test
on_bob_data message t = elim t.bob_stream [
  | none ↦ t
  | some stream ↦ record t {
    received_messages = t.received_messages + 1;
    bob_stream = some (record stream { written = stream.written ++ bob_message ∷ [] });
  }
]

unfoldable pub on_event : Event → Test → Test
unfolding on_comm on_alice_data on_bob_data
on_event (alice_selected uid) t = record t { alice = some uid }
on_event (bob_selected uid) t = record t { bob = some uid }
on_event comm t = on_comm t
on_event (alice_data message) t = on_alice_data message t
on_event (bob_data message) t = on_bob_data message t

unfoldable pub on_events : List Event → Test → Test
unfolding on_event
on_events [] t = t
on_events (e ∷ es) t = on_events es (on_event e t)

-- `events` are what Update of the client application calls back, in order.
module _ (gateway_app client_app : AetherApp) (events : ℕ → client_app.S → List Event) where
  pub record Apps : Type 0 where
    pub gateway : gateway_app.S
    pub client : client_app.S
    pub test : Test

  abbrev pub earlier : ℕ → ℕ → ℕ
  earlier a b = if ltb b a then b else a

  -- Both updates of a turn, and the wait.
  unfoldable pub update_apps : Apps → Apps
  unfolding on_events
  update_apps s =
      let (gateway_time, g) = gateway_app.update (gateway_app.now s.gateway) s.gateway in
      let client_now = client_app.now s.client in
      let (client_time, c) = client_app.update client_now s.client in
      record {
        gateway = gateway_app.wait_until (earlier gateway_time client_time) g;
        client = c;
        test = on_events (events client_now s.client) s.test;
      }

  unfoldable pub turn : Apps → Apps
  unfolding update_apps
  turn s =
      let s' = update_apps s in
      if s'.test.received_messages == 2
      then record s' { client = client_app.exit 0 s'.client }
      else s'

  unfoldable pub exit_status : Apps → ℕ
  exit_status s =
      if client_app.is_exited s.client
      then (let code = client_app.exit_code s.client in if not (code == 0) then 100 + code else 0)
      else gateway_app.exit_code s.gateway

  -- The update loop, on fuel, and the code that it leaves: `none` has run out of fuel.
  unfoldable pub run : ℕ → Apps → Option ℕ
  unfolding turn exit_status
  run zero s = none
  run (suc fuel) s =
      let rest = run fuel (turn s) in
      if gateway_app.is_exited s.gateway || client_app.is_exited s.client
      then some (exit_status s)
      else rest
