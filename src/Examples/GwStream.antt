-- ===== src/Examples/GwStream.antt =====
-- A gateway with one stream, which waits for its server stream.
use aether_gateway.Prelude.{◌≡◌, some}
use aether_gateway.Map.{find, nat_order}
use aether_gateway.Aether.StateMachine.{flagged}
use aether_gateway.Aether.BufferStream.{log_stream}
use aether_gateway.LocalPort.Keys.{by_id}
use aether_gateway.ServerStreams.{RequestState}
use aether_gateway.GwStream.{World, new_gw_stream, update_action}
use aether_gateway.GwStream.Linked.{IsLinked}
use aether_gateway.GwStream.Histories.{Step, Reach, Reach-update_action}
use aether_gateway.Examples.Servers.{servers}
use aether_gateway.Examples.Gateway.{world}

abbrev W : Type 0
W = World servers (flagged RequestState) log_stream

abbrev with_stream : W
with_stream = (new_gw_stream servers (flagged RequestState) log_stream (by_id 5) world).1

world-IsLinked : IsLinked servers (flagged RequestState) log_stream world
unfolding find
world-IsLinked = (tt, λ h a e. cc)

reached : Reach servers (flagged RequestState) log_stream world with_stream
reached = Reach.next Reach.here (Step.made (by_id 5))

Reach-update_action_example :
    (w : W) × (update_action servers (flagged RequestState) log_stream 0 with_stream ≡ some w)
Reach-update_action_example =
    Reach-update_action servers (flagged RequestState) log_stream world-IsLinked reached 0
