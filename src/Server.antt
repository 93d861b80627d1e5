-- ===== src/Server.antt =====
-- The gateway's program (src/gateway_server.cpp, src/main.cpp, src/aether_construct_lora_gateway.h).
-- The application object is the aether client library's.
pub mod Loop
use mathlib.Core.Option
use aether_gateway.Prelude.{
  ℕ, zero, suc, ◌+◌, ◌-◌, ◌/◌, ◌≡◌, Bool, true, false, Option, none, some, ltb, if◌then◌else◌,
}
use aether_gateway.Lora.Types.{
  BaudRate, baud_9600, Parity, StopBits, SerialInit, LoraGatewayPowerSaveParam, LoraGatewayInit,
  transparent_transmission, level0, power22, bw_125k, cr4_6, sf12, undef, crc_off, iq_off,
}

-- AetherApp, as far as the program uses it. A time is a number of milliseconds.
pub record AetherApp : Type 1 where
  pub S : Type 0
  pub is_exited : S → Bool
  pub exit : ℕ → S → S
  pub exit_code : S → ℕ
  pub now : S → ℕ
  -- `Update`: the time of the next event, and the application after it.
  pub update : ℕ → S → ℕ × S
  pub wait_until : ℕ → S → S
  pub is_exited-exit : (code : ℕ) (s : S) → is_exited (exit code s) ≡ true
  pub exit_code-exit : (code : ℕ) (s : S) → exit_code (exit code s) ≡ code

module _ (app : AetherApp) where
  open app use {S, is_exited, exit, exit_code, now, update, wait_until}

  -- What a turn of the loop does after the test that leaves it.
  unfoldable pub work : S → S
  work s =
      let current_time = now s in
      let (next_time, s') = update current_time s in
      let latest : ℕ = current_time + 5000 in
      wait_until (if ltb latest next_time then latest else next_time) s'

  -- One turn. The test is the constant `true`.
  unfoldable pub turn : S → S
  unfolding work
  turn s = if true then exit 0 s else work s

  -- The loop, on fuel: `none` has run out of it.
  unfoldable pub serve : ℕ → S → Option ℕ
  unfolding turn
  serve zero s = none
  serve (suc fuel) s = elim (is_exited s) [
    | true ↦ some (exit_code s)
    | false ↦ serve fuel (turn s)
  ]

-- SafeStreamConfig, durations in milliseconds; the send_confirm_timeout is left at its default.
pub record SafeStreamConfig : Type 0 where
  pub buffer_capacity : ℕ
  pub window_size : ℕ
  pub max_data_size : ℕ
  pub max_repeat_count : ℕ
  pub wait_confirm_timeout : ℕ
  pub send_repeat_timeout : ℕ

unfoldable pub safe_stream_config : SafeStreamConfig
safe_stream_config = record {
  buffer_capacity = 65535;
  window_size = 65535 / 2 - 1;
  max_data_size = 65535 / 2 - 1 - 1;
  max_repeat_count = 10;
  wait_confirm_timeout = 600;
  send_repeat_timeout = 400;
}

-- The settings of the program's radio module. What SerialInit leaves to its defaults is the library's.
unfoldable pub lora_gateway_psp : LoraGatewayPowerSaveParam
lora_gateway_psp = record {
  lora_gateway_mode = transparent_transmission;
  lora_gateway_level = level0;
  lora_gateway_power = power22;
  lora_gateway_band_width = bw_125k;
  lora_gateway_coding_rate = cr4_6;
  lora_gateway_spreading_factor = sf12;
}

unfoldable pub lora_gateway_init : Parity → StopBits → LoraGatewayInit
unfolding lora_gateway_psp
lora_gateway_init default_parity default_stop_bits = record {
  serial_init = record {
    baud_rate = baud_9600;
    parity = default_parity;
    stop_bits = default_stop_bits;
  };
  psp = lora_gateway_psp;
  lora_gateway_freq_range = undef;
  lora_gateway_my_address = 0;
  lora_gateway_channel = 0;
  lora_gateway_crc_check = crc_off;
  lora_gateway_signal_inversion = iq_off;
}
