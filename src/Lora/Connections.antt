-- ===== src/Lora/Connections.antt =====
-- The connections of the driver and its polling (src/lora_gateways/dx_smart_lr02_gw.cpp).
use aether_gateway.Prelude.{
  ℕ, zero, suc, ◌%◌, ◌≡◌, ◌≢◌, refl, ◌∙◌, true, [], Option, none, some, arith,
}
use Prim.Native.Nat.{bit_or, bit_or-bitwise}
use aether_gateway.Aether.{Protocol}
use aether_gateway.Lora.Text.{Text}
use aether_gateway.Lora.Types.{
  LoraGatewayPowerSaveParam, LoraGatewayInit, LoraGatewayCrcCheck, LoraGatewayIqSignalInversion,
}
use aether_gateway.Lora.Driver.{
  Driver, Stage, read_packet_job, push, new_driver, start, stop, open_network_to,
  set_power_save_param, set_lora_gateway_address, set_lora_gateway_channel,
  set_lora_gateway_crc_check, set_lora_gateway_iq_signal_inversion, poll_task, poll_event, contains,
}
use aether_gateway.Lora.Stages.{run_stage}

-- Everything that happens to a driver: calls of its methods, stages that the queue runs, the poll
-- task, and "#XPOLL" lines from the module.
pub data Step (d : Driver) : Driver → Type 0 where
  started : Step d (start d).1
  stopped : Step d (stop d).1
  opened : (p : Protocol) (host : Text) (port : ℕ) → Step d (open_network_to p host port d).1
  saved : (psp : LoraGatewayPowerSaveParam) → Step d (set_power_save_param psp d).1
  addressed : (a : ℕ) → Step d (set_lora_gateway_address a d).1
  channelled : (c : ℕ) → Step d (set_lora_gateway_channel c d).1
  checked : (c : LoraGatewayCrcCheck) → Step d (set_lora_gateway_crc_check c d).1
  inverted :
      (iq : LoraGatewayIqSignalInversion) → Step d (set_lora_gateway_iq_signal_inversion iq d).1
  staged : (s : Stage) → Step d (run_stage s d).1
  polled : Step d (poll_task d)
  answered : (handle : ℕ) (flags : Option ℕ) → Step d (poll_event handle flags d)

pub data Reach (i : LoraGatewayInit) : Driver → Type 0 where
  constructed : Reach i (new_driver i)
  next : {d e : Driver} → Reach i d → Step d e → Reach i e

run_stage_connections : (s : Stage) (d : Driver) → (run_stage s d).1.connections ≡ d.connections
unfolding run_stage
run_stage_connections s d = ground arith

Step-connections : {d e : Driver} → Step d e → d.connections ≡ [] → e.connections ≡ []
unfolding start stop open_network_to set_power_save_param set_lora_gateway_address
    set_lora_gateway_channel set_lora_gateway_crc_check set_lora_gateway_iq_signal_inversion
    poll_task poll_event
Step-connections started h = h
Step-connections stopped h = h
Step-connections (opened p host port) h = h
Step-connections (saved psp) h = h
Step-connections (addressed a) h = h
Step-connections (channelled c) h = ground arith
Step-connections (checked c) h = h
Step-connections (inverted iq) h = h
Step-connections {d} (staged s) h = run_stage_connections s d ∙ h
Step-connections polled h = ground arith
Step-connections (answered handle none) h = h
Step-connections (answered handle (some f)) h = ground arith

Reach-connections : {i : LoraGatewayInit} {d : Driver} → Reach i d → d.connections ≡ []
unfolding new_driver
Reach-connections constructed = refl
Reach-connections (next r s) = Step-connections s (Reach-connections r)

-- Nothing ever adds a connection, so whatever happens to a driver, its poll task pushes nothing,
-- and what the module reports of a connection is dropped.
pub Reach-polling :
    {i : LoraGatewayInit} {d : Driver}
    → Reach i d
    → (handle : ℕ) (flags : Option ℕ) → (poll_task d ≡ d) × (poll_event handle flags d ≡ d)
unfolding poll_task poll_event
Reach-polling {d = d} r handle none = (ground (arith, Reach-connections r), refl)
Reach-polling {d = d} r handle (some f) =
    (ground (arith, Reach-connections r), ground (arith, Reach-connections r))

-- `flags | 1` is never 0.
bit_or-one : (n : ℕ) → bit_or n 1 ≢ 0
bit_or-one zero = omega (arith, bit_or-bitwise 0 1)
bit_or-one (suc n) = omega (arith, bit_or-bitwise (suc n) 1)

-- Were the handle that of a connection, PollEvent would push a read of it whatever the flags say,
-- also where the bit of kPollIn is not among them: the code joins the flags with the mask by `|`,
-- where `&` tests the bit.
pub poll_event_any_flags :
    (d : Driver) (handle flags : ℕ)
    → contains (handle % 256) d.connections ≡ true
    → poll_event handle (some flags) d ≡ push (read_packet_job (handle % 256)) d
unfolding poll_event
poll_event_any_flags d handle flags e = ground (arith, bit_or-one flags)
