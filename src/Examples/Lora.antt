-- ===== src/Examples/Lora.antt =====
-- A driver with the settings of a gateway.
use aether_gateway.Prelude.{◌≡◌, refl, List, [], ◌∷◌, some, arith}
use aether_gateway.Lora.Types.{
  LoraGatewayInit, baud_9600, no_parity, one_stop_bit, default_power_save_param, undef, crc_on,
  iq_off,
}
use aether_gateway.Lora.Commands.{
  mode_request, level_request, power_request, band_width_request, coding_rate_request,
  spreading_factor_request, address_request, entry_request, exit_request,
}
use aether_gateway.Lora.Driver.{
  Driver, new_driver, Stage, address_job, power_save_job, request, poll_event, poll_task, start,
}
use aether_gateway.Lora.Stages.{run_job, run_stages, one_request}
use aether_gateway.Lora.Reading.{address, setting_request, read_setting, InRange}
use aether_gateway.Lora.RoundTrip.{read_setting_request}
use aether_gateway.Lora.AtMode.{run_command_job, run_power_save_job}
use aether_gateway.Lora.Connections.{Step, Reach, Reach-polling}

in_range : InRange (address 0x12ab)
in_range = omega arith

made_address : setting_request (address 0x12ab) ≡ some (address_request 0x12ab)
unfolding setting_request
made_address = refl

read_setting_request_example : read_setting (address_request 0x12ab).command ≡ some (address 0x12ab)
read_setting_request_example =
    read_setting_request (address 0x12ab) (address_request 0x12ab) in_range made_address

abbrev pub settings : LoraGatewayInit
settings = record {
  serial_init = record { baud_rate = baud_9600; parity = no_parity; stop_bits = one_stop_bit };
  psp = default_power_save_param;
  lora_gateway_freq_range = undef;
  lora_gateway_my_address = 1;
  lora_gateway_channel = 2;
  lora_gateway_crc_check = crc_on;
  lora_gateway_signal_inversion = iq_off;
}

abbrev pub driver : Driver
driver = new_driver settings

run_command_job_example :
    (stages : List Stage) × (run_job (address_job 0 3) driver ≡ some stages)
    × (run_stages stages driver ≡ (
      one_request (some entry_request)
          ∷ some (request (address_request 3))
          ∷ one_request (some exit_request)
          ∷ [],
      driver,
    ))
unfolding new_driver
run_command_job_example = run_command_job (address_job 0 3) (address_request 3) driver refl refl

Reach-polling_example :
    let d = (start driver).1 in (poll_task d ≡ d) × (poll_event 3 (some 1) d ≡ d)
Reach-polling_example =
    Reach-polling {i = settings} (Reach.next Reach.constructed Step.started) 3 (some 1)

run_power_save_job_example :
    (stages : List Stage) × (run_job (power_save_job 0 default_power_save_param) driver
      ≡ some stages)
    × (run_stages stages driver ≡ (
      one_request (some entry_request)
          ∷ one_request (mode_request default_power_save_param.lora_gateway_mode)
          ∷ one_request (level_request default_power_save_param.lora_gateway_level)
          ∷ one_request (power_request default_power_save_param.lora_gateway_power)
          ∷ one_request (band_width_request default_power_save_param.lora_gateway_band_width)
          ∷ one_request (coding_rate_request default_power_save_param.lora_gateway_coding_rate)
          ∷ one_request
              (spreading_factor_request default_power_save_param.lora_gateway_spreading_factor)
          ∷ one_request (some exit_request)
          ∷ [],
      driver,
    ))
unfolding new_driver
run_power_save_job_example = run_power_save_job 0 default_power_save_param driver refl
