-- ===== src/Lora/Operations.antt =====
-- The operations that the driver's methods return, and how the jobs of the queue settle them
-- (src/lora_gateways/dx_smart_lr02_gw.cpp).
pub mod Order
pub mod Settling
pub mod Waiting
use mathlib.Core.Option
use mathlib.Core.List.{append-nil}
use Prim.Native.Nat.{bit_or}
use aether_gateway.Prelude.{
  get_elem?, Increasing, Increasing-append, Increasing-le, Bool-cases, ltb, ℕ, zero, suc, ◌+◌, ◌≡◌,
  ◌≢◌, ◌≤◌, ◌<◌, ◌%◌, ◌==◌, if◌then◌else◌, ◌∙◌, refl, sym, ap, Bool, true, false, List, [], ◌∷◌,
  ◌++◌, Option, none, some, arith, inl, inr,
}
use aether_gateway.Aether.{UpdateStatus}
use aether_gateway.Lora.Types.{LoraGatewayInit}
use aether_gateway.Lora.Driver.{
  Driver, Stage, Job, init_job, start_job, stop_job, open_network_job, power_save_job, address_job,
  channel_job, crc_check_job, signal_inversion_job, poll_job, read_packet_job, push, push_operation,
  new_driver, start, stop, open_network_to, set_power_save_param, set_lora_gateway_address,
  set_lora_gateway_channel, set_lora_gateway_crc_check, set_lora_gateway_iq_signal_inversion,
  poll_task, poll_event, contains,
}
use aether_gateway.Lora.Stages.{run_stage}
use aether_gateway.Lora.Initializing.{notifies}
use aether_gateway.Lora.Connections.{Step, Reach}

-- What is done to a NotifyAction: Notify, Failed or Stop.
pub data Settled : Type 0 where
  notified failed stopped : Settled

-- The handlers of a pipeline's status, for an operation.
abbrev pub handlers : Option ℕ → UpdateStatus → Option (ℕ × Settled)
handlers none status = none
handlers (some h) UpdateStatus.result = some (h, notified)
handlers (some h) UpdateStatus.error = some (h, failed)
handlers (some h) UpdateStatus.stop = some (h, stopped)
handlers (some h) UpdateStatus.pending = none

-- The operation of the handlers that a job subscribes to its pipeline. Init only logs, and OpenNetwork
-- has a promise instead. Start of a driver that has started subscribes none: its one stage notifies.
abbrev pub subscribed : Bool → Job → Option ℕ
subscribed started (init_job _) = none
subscribed true (start_job h) = none
subscribed false (start_job h) = some h
subscribed started (stop_job h) = some h
subscribed started (open_network_job h _ _ _) = none
subscribed started (power_save_job h _) = some h
subscribed started (address_job h _) = some h
subscribed started (channel_job h _) = some h
subscribed started (crc_check_job h _) = some h
subscribed started (signal_inversion_job h _) = some h
subscribed started poll_job = none
subscribed started (read_packet_job _) = none

-- What the end of a job's pipeline does, where `started` is the driver's flag when the job began.
unfoldable pub settle : Bool → Job → UpdateStatus → Option (ℕ × Settled)
settle started job status = handlers (subscribed started job) status
