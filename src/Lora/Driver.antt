-- ===== src/Lora/Driver.antt =====
-- class DxSmartLr02LoraGateway (src/lora_gateways/dx_smart_lr02_gw.h,
-- src/lora_gateways/dx_smart_lr02_gw.cpp). The library runs the stages of a pipeline and the jobs of
-- the operation queue; the driver makes them. A stage and a job are the lambdas of the source, with
-- what they capture, and `run_stage` and `run_job` are their bodies.
use aether_gateway.Prelude.{
  ℕ, ◌+◌, ◌-◌, ◌%◌, Bool, false, List, [], ◌∷◌, ◌++◌, Option, none, some, ltb, ◌==◌, ◌||◌,
  if◌then◌else◌,
}
use Prim.Native.Nat.{bit_or}
use aether_gateway.Aether.{Protocol}
use aether_gateway.Lora.Text.{Text, to_string}
use aether_gateway.Lora.Types.{
  LoraGatewayMode, LoraGatewayLevel, LoraGatewayPower, LoraGatewayBandWidth, LoraGatewayCodingRate,
  LoraGatewaySpreadingFactor, LoraGatewayCrcCheck, LoraGatewayIqSignalInversion, BaudRate, Parity,
  StopBits, SerialInit, LoraGatewayPowerSaveParam, LoraGatewayInit,
}
use aether_gateway.Lora.Commands.{Request}

pub data Stage : Type 0 where
  enter_at_mode exit_at_mode : Stage
  make_request : Request → Stage
  mode : LoraGatewayMode → Stage
  level : LoraGatewayLevel → Stage
  power : LoraGatewayPower → Stage
  band_width : LoraGatewayBandWidth → Stage
  coding_rate : LoraGatewayCodingRate → Stage
  spreading_factor : LoraGatewaySpreadingFactor → Stage
  serial_port : SerialInit → Stage
  baud_rate : BaudRate → Stage
  parity : Parity → Stage
  stop_bits : StopBits → Stage
  power_save_param : LoraGatewayPowerSaveParam → Stage
  lora_net : LoraGatewayInit → Stage
  gateway_address gateway_channel : ℕ → Stage
  gateway_crc_check : LoraGatewayCrcCheck → Stage
  gateway_signal_inversion : LoraGatewayIqSignalInversion → Stage
  poll_connections : Stage
  open_tcp open_udp : (operation : ℕ) → Text → (port : ℕ) → Stage
  mark_initiated mark_started : Stage
  notify : (operation : ℕ) → Stage

-- What a stage returns: a pipeline, a request, the handle of an operation, the wait for a
-- connection, or an action that is done at once.
pub data Action : Type 0 where
  pipeline : List Stage → Action
  request : Request → Action
  operation : ℕ → Action
  open_network : ℕ → Action
  done : Action

-- What the operation queue holds.
pub data Job : Type 0 where
  init_job : LoraGatewayInit → Job
  start_job stop_job : ℕ → Job
  open_network_job : ℕ → Protocol → Text → ℕ → Job
  power_save_job : ℕ → LoraGatewayPowerSaveParam → Job
  address_job channel_job : ℕ → ℕ → Job
  crc_check_job : ℕ → LoraGatewayCrcCheck → Job
  signal_inversion_job : ℕ → LoraGatewayIqSignalInversion → Job
  poll_job : Job
  read_packet_job : ℕ → Job

pub record Driver : Type 0 where
  pub lora_gateway_init : LoraGatewayInit
  pub connections : List ℕ  -- std::set of int8, as bytes
  pub operation_queue : List Job  -- every job pushed so far, oldest first
  pub next_operation : ℕ
  pub initiated : Bool
  pub started : Bool
  pub at_mode : Bool
  pub polling : Bool

unfoldable pub push : Job → Driver → Driver
push job d = record d { operation_queue = d.operation_queue ++ job ∷ [] }

-- A new operation, and the job that will notify it.
unfoldable pub push_operation : (ℕ → Job) → Driver → ℕ × Driver
unfolding push
push_operation job d = (
  d.next_operation,
  push (job d.next_operation) (record d { next_operation = d.next_operation + 1 }),
)

-- The constructor, which ends in Init.
unfoldable pub new_driver : LoraGatewayInit → Driver
unfolding push
new_driver init = push (init_job init) (record {
  lora_gateway_init = init;
  connections = [];
  operation_queue = [];
  next_operation = 0;
  initiated = false;
  started = false;
  at_mode = false;
  polling = false;
})

unfoldable pub start : Driver → ℕ × Driver
unfolding push_operation
start d = push_operation start_job d

unfoldable pub stop : Driver → ℕ × Driver
unfolding push_operation
stop d = push_operation stop_job d

-- The destructor calls Stop, and nobody takes its operation.
unfoldable pub delete_driver : Driver → Driver
unfolding stop
delete_driver d = (stop d).1

unfoldable pub open_network_to : Protocol → Text → ℕ → Driver → ℕ × Driver
unfolding push_operation
open_network_to protocol host port d = push_operation (λ h. open_network_job h protocol host port) d

-- CloseNetwork, WritePacket and PowerOff return an empty action and do nothing.
unfoldable pub close_network : ℕ → Driver → Option ℕ × Driver
close_network connect_index d = (none, d)

unfoldable pub write_packet : ℕ → List ℕ → Driver → Option ℕ × Driver
write_packet connect_index payload d = (none, d)

unfoldable pub power_off : Driver → Option ℕ × Driver
power_off d = (none, d)

unfoldable pub set_power_save_param : LoraGatewayPowerSaveParam → Driver → ℕ × Driver
unfolding push_operation
set_power_save_param psp d = push_operation (λ h. power_save_job h psp) d

unfoldable pub set_lora_gateway_address : ℕ → Driver → ℕ × Driver
unfolding push_operation
set_lora_gateway_address address d = push_operation (λ h. address_job h address) d

unfoldable pub set_lora_gateway_channel : ℕ → Driver → Option ℕ × Driver
unfolding push_operation
set_lora_gateway_channel channel d =
    if ltb 0x1e channel
    then (none, d)
    else (let (h, d') = push_operation (λ h. channel_job h channel) d in (some h, d'))

unfoldable pub set_lora_gateway_crc_check : LoraGatewayCrcCheck → Driver → ℕ × Driver
unfolding push_operation
set_lora_gateway_crc_check crc d = push_operation (λ h. crc_check_job h crc) d

unfoldable pub set_lora_gateway_iq_signal_inversion :
    LoraGatewayIqSignalInversion → Driver → ℕ × Driver
unfolding push_operation
set_lora_gateway_iq_signal_inversion iq d = push_operation (λ h. signal_inversion_job h iq) d

-- The repeated task of SetupPoll.
unfoldable pub poll_task : Driver → Driver
unfolding push
poll_task d = elim d.connections [ [] ↦ d | _ ∷ _ ↦ push poll_job d ]

-- std::to_string of an int8.
unfoldable pub int8_to_string : ℕ → Text
int8_to_string b = if ltb b 128 then to_string b else b'-' ∷ to_string (256 - b)

unfoldable pub poll_handles : List ℕ → Text
unfolding int8_to_string
poll_handles [] = []
poll_handles (ci ∷ cis) = b',' ∷ (int8_to_string ci ++ poll_handles cis)

unfoldable pub contains : ℕ → List ℕ → Bool
contains a [] = false
contains a (x ∷ xs) = x == a || contains a xs

-- The handle is the bit pattern of an int32, and `flags_val` what FromChars read.
unfoldable pub poll_event : ℕ → Option ℕ → Driver → Driver
unfolding contains push
poll_event handle none d = d
poll_event handle (some flags_val) d =
    let connection = handle % 256 in
    if contains connection d.connections
    then if bit_or flags_val 1 == 0 then d else push (read_packet_job connection) d
    else d
