-- ===== src/Lib.antt =====
-- The gateway between local devices and the servers of the aether network: its local port, its
-- streams and their manager, the driver of a LoRa module, and the simulator of the devices' bus.
--
-- The program. A device sends a packet with calls of GatewayApi over a bus. LocalPort opens one
-- GwStream for each device, client and server, and writes the data of a call to it. A GwStream asks
-- ServerStreamManager for the stream of the server: a cached one, or one that is made when the server
-- is known or the cloud has answered. What a stream receives, LocalPort packs into a call of ClientApi
-- for the client and emits for the device. DxSmartLr02LoraGateway is the driver of a radio module: it
-- turns settings into AT commands, which run in a queue of operations. The simulator joins devices and
-- a local port by a data bus.
--
-- The files. Each starts with the source that it is about.
--   LocalPort     libs/gateway/local_port.h and local_port.cpp: `input` is LocalPort::Input,
--                 `open_stream` OpenStream, `gateway_call` the methods of GatewayApiImpl, `out_data`
--                 OutData, `stream_state` StreamState. `on_out_data` and `on_stream_update` are the
--                 events of a stream, which call every callback that subscribed to it. A method takes
--                 the port and the world of the streams and returns both; emitted packets are a list.
--                 LocalPort/Refinement has the abstract state of one key that the port refines, with
--                 the packets that it emits in LocalPort/Refinement/Packets, and
--                 LocalPort/Answering what the port makes of the data of a stream.
--   ServerStreams libs/gateway/server_stream_manager.h and server_stream_manager.cpp: `get_stream` and
--                 `get_stream_by_endpoints` are the two GetStream, `build_server` BuildServer,
--                 `open_cache` OpenCache, `update` the Update of RequestServerStreamGetAction, and
--                 `on_servers` and `on_servers_error` the handlers of GetServersAction. A stream is
--                 the number of its creation, and `gone` holds those that have no owner left.
--                 ServerStreams/Purge has the iterator loop of OpenCache, and ServerStreams/Stream
--                 libs/gateway/server_stream.h and server_stream.cpp.
--   GwStream      libs/gateway/gw_stream.h and gw_stream.cpp, over the manager: `update_action`
--                 is one update of the action that a constructor asked for, with the OnResult handler.
--                 GwStream/Ownership says who owns a server stream, GwStream/Serving which server it
--                 is of, and GwStream/Delivery joins the port, the streams and the manager.
--   Gateway       libs/gateway/gateway.h and gateway.cpp: the objects that it makes on first use.
--                 Gateway/Histories is the whole gateway over time, with the steps of the port, the
--                 streams, the manager and the cloud in any order.
--   Server        src/gateway_server.cpp and src/aether_construct_lora_gateway.h: the application
--                 loop and the settings of the radio module.
--   Lora          src/lora_gateways/lora_gateway_driver_types.h, dx_smart_lr02_gw.h and
--                 dx_smart_lr02_gw.cpp: a stage and a job are the lambdas of the source with what they
--                 capture; `run_stage` and `run_job` are their bodies. Lora/OpenNetwork has the
--                 two open network actions, Lora/Operations the handlers of a pipeline's end, with what
--                 Init waits for in Lora/Operations/Waiting, Lora/Handing the requests that jobs hand
--                 to the module, and Lora/Interface the interface of a driver
--                 (ilora_gateway_driver.h) and its factory.
--   Simulator     simulator/sim-gateway/gw-sim-data-bus.h, gw-sim-data-bus.cpp, gw-sim-device.cpp,
--                 gw-sim-device-port.cpp, gw-sim-adapter.cpp, gw-sim-access-point.cpp and
--                 gw-sim-channel.cpp. Simulator/AliceBob is the test of the simulator, simulator/tests/sim-alice-bob.
--   Aether        what the code uses of the library libs/aether, a git submodule that is not in the
--                 repository: records of operations with the laws that the code relies on.
--   Map, Prelude  std::map as an association list under an order, and shared helpers.
--   Examples      concrete instances of the interfaces, and the theorems at concrete inputs.
--
-- Bounds and fuel. Numbers are natural numbers; the 8-bit device id wraps by `% 256` and the key's
-- server identity is taken `% 2 ^ 32`. `to_string` prints n on fuel n + 1, which is more than it
-- has digits. `serve` and Simulator/AliceBob's `run`, the application loops, and `purge_loop`, the
-- loop of OpenCache, return none on running out of fuel; enough are two turns for the first, one
-- more than the conversation takes for the second, and one more than the cache has entries for the
-- third. `open_updates` takes the number of updates. Lora/Handing follows the pipelines that stages
-- return to a depth; two is enough, as no stage of a nested pipeline returns one. Other loops are
-- recursion on the list that the source walks.
--
-- Not modelled: the library itself (actions, pipelines, serial port, connections), the packet format,
-- logging, the entry points of the platforms and the construction of the library's application, build
-- files, and how the library runs and repeats the stages of a pipeline.
pub mod Prelude
pub mod Map
pub mod Aether
pub mod LocalPort
pub mod Simulator
pub mod ServerStreams
pub mod Lora
pub mod Gateway
pub mod Server
pub mod GwStream
mod Examples
