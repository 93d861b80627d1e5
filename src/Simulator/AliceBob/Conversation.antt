-- ===== src/Simulator/AliceBob/Conversation.antt =====
-- One conversation of Alice and Bob, from the selection of both to the end of the test
-- (simulator/tests/sim-alice-bob/sim-alice-bob.cpp).
use aether_gateway.Prelude.{List, [], ◌∷◌, ◌++◌}
use aether_gateway.Aether.{DataBuffer}
use aether_gateway.Simulator.AliceBob.{Event, comm, alice_data, bob_data}

-- After the selections, the streams are made, Bob hears Alice, and Alice hears Bob.
abbrev pub heard : List Event → DataBuffer → List Event
heard es m = es ++ comm ∷ bob_data m ∷ []

abbrev pub answered : List Event → DataBuffer → DataBuffer → List Event
answered es m m' = es ++ comm ∷ bob_data m ∷ alice_data m' ∷ []
