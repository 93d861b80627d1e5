-- ===== src/Lora/AtMode.antt =====
-- The AT mode: EnterAtMode, ExitAtMode and the operations between them
-- (src/lora_gateways/dx_smart_lr02_gw.cpp).
use aether_gateway.Prelude.{ℕ, refl, ◌≡◌, false, List, [], ◌∷◌, Option, none, some, arith}
use aether_gateway.Lora.Text.{codes}
use aether_gateway.Lora.Commands.{
  Request, ok_request, entry_request, exit_request, address_request, channel_request,
  crc_check_request, signal_inversion_request, mode_request, level_request, power_request,
  band_width_request, coding_rate_request, spreading_factor_request,
}
use aether_gateway.Lora.Driver.{
  Driver, Stage, enter_at_mode, exit_at_mode, make_request, request, Job, stop_job, address_job,
  channel_job, crc_check_job, signal_inversion_job, power_save_job, mode, level, power, band_width,
  coding_rate, spreading_factor,
}
use aether_gateway.Lora.Types.{LoraGatewayPowerSaveParam}
use aether_gateway.Lora.Stages.{one_request, in_at_mode, run_job, run_stages}

-- A stage that sends one request and leaves the driver as it is.
abbrev sends : Request → Stage
sends r = make_request r

-- The jobs that send one command.
abbrev pub command_of : Job → Option Request
command_of (stop_job h) = some (ok_request (codes "AT+RESET"))
command_of (address_job h a) = some (address_request a)
command_of (channel_job h c) = some (channel_request c)
command_of (crc_check_job h c) = some (crc_check_request c)
command_of (signal_inversion_job h iq) = some (signal_inversion_request iq)
command_of _ = none

pub command_job :
    (job : Job) (r : Request) (d : Driver)
    → command_of job ≡ some r
    → run_job job d ≡ some (enter_at_mode ∷ make_request r ∷ exit_at_mode ∷ [])
unfolding run_job
command_job job r d e = ground arith

-- Stop and each setting that is one command, run outside the AT mode and with every stage a
-- success, sends exactly "+++", its command and "+++", in this order, and leaves the driver as it
-- found it, outside the AT mode.
pub run_command_job :
    (job : Job) (r : Request) (d : Driver)
    → command_of job ≡ some r
    → d.at_mode ≡ false
    → (stages : List Stage) × (run_job job d ≡ some stages)
      × (run_stages stages d ≡ (
        one_request (some entry_request) ∷ some (request r) ∷ one_request (some exit_request) ∷ [],
        d,
      ))
unfolding run_stages
run_command_job job r d e off =
    (enter_at_mode ∷ make_request r ∷ exit_at_mode ∷ [], command_job job r d e, bracket d off)
  where
    bracket :
        (d : Driver)
        → d.at_mode ≡ false
        → run_stages (enter_at_mode ∷ make_request r ∷ exit_at_mode ∷ []) d ≡ (
          one_request (some entry_request)
              ∷ some (request r)
              ∷ one_request (some exit_request)
              ∷ [],
          d,
        )
    bracket d off = ground arith

abbrev power_save_stages : LoraGatewayPowerSaveParam → List Stage
power_save_stages psp = in_at_mode (
    mode psp.lora_gateway_mode
    ∷ level psp.lora_gateway_level
    ∷ power psp.lora_gateway_power
    ∷ band_width psp.lora_gateway_band_width
    ∷ coding_rate psp.lora_gateway_coding_rate
    ∷ spreading_factor psp.lora_gateway_spreading_factor
    ∷ [])

-- SetPowerSaveParam, run outside the AT mode and with every stage a success, sends "+++", the
-- commands of mode, level, power, bandwidth, coding rate and spreading factor, each where it has
-- one, and "+++", in this order, and leaves the driver as it found it, outside the AT mode.
pub run_power_save_job :
    (h : ℕ) (psp : LoraGatewayPowerSaveParam) (d : Driver)
    → d.at_mode ≡ false
    → (stages : List Stage) × (run_job (power_save_job h psp) d ≡ some stages)
      × (run_stages stages d ≡ (
        one_request (some entry_request)
            ∷ one_request (mode_request psp.lora_gateway_mode)
            ∷ one_request (level_request psp.lora_gateway_level)
            ∷ one_request (power_request psp.lora_gateway_power)
            ∷ one_request (band_width_request psp.lora_gateway_band_width)
            ∷ one_request (coding_rate_request psp.lora_gateway_coding_rate)
            ∷ one_request (spreading_factor_request psp.lora_gateway_spreading_factor)
            ∷ one_request (some exit_request)
            ∷ [],
        d,
      ))
unfolding run_job run_stages
run_power_save_job h psp d off = (power_save_stages psp, refl, ground arith)
