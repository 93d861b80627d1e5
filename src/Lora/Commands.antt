-- ===== src/Lora/Commands.antt =====
-- The AT requests of the driver: the waits, the command table and the functions that choose a command
-- (src/lora_gateways/dx_smart_lr02_gw.h, src/lora_gateways/dx_smart_lr02_gw.cpp). A function that may
-- return an empty action gives an Option.
use aether_gateway.Prelude.{ℕ, ◌/◌, ◌%◌, List, [], ◌∷◌, ◌++◌, Option, none, some}
use aether_gateway.Lora.Text.{Text, codes, hex2, snprintf, to_string}
use aether_gateway.Lora.Types.{
  LoraGatewayMode, mode_value, LoraGatewayLevel, level_value, LoraGatewayPower, power_value,
  LoraGatewayBandWidth, bw_125k, LoraGatewayCodingRate, coding_rate_value,
  LoraGatewaySpreadingFactor, spreading_factor_value, LoraGatewayCrcCheck, crc_check_value,
  LoraGatewayIqSignalInversion, signal_inversion_value, BaudRate, baud_1200, baud_2400, baud_4800,
  baud_9600, baud_19200, baud_38400, baud_57600, baud_115200, baud_128000, other_baud, Parity,
  no_parity, odd_parity, even_parity, other_parity, StopBits, one_stop_bit, two_stop_bits,
  other_stop_bits,
}

-- AtRequest::Wait.
pub record Wait : Type 0 where
  pub answer : Text
  pub timeout_ms : ℕ

abbrev pub wait_ok : Wait
wait_ok = record { answer = codes "OK"; timeout_ms = 1000 }

abbrev pub wait_entry_at : Wait
wait_entry_at = record { answer = codes "Entry AT"; timeout_ms = 1000 }

abbrev pub wait_exit_at : Wait
wait_exit_at = record { answer = codes "Exit AT"; timeout_ms = 1000 }

abbrev pub wait_power_on : Wait
wait_power_on = record { answer = codes "Power on"; timeout_ms = 1000 }

-- The arguments of AtSupport::MakeRequest.
pub record Request : Type 0 where
  pub command : Text
  pub waits : List Wait

abbrev pub ok_request : Text → Request
ok_request command = record { command = command; waits = wait_ok ∷ [] }

unfoldable pub address_to_string : ℕ → Text
address_to_string value =
    let high = value / 256 % 256 in
    let low = value % 256 in snprintf 7 (hex2 high ++ b',' ∷ hex2 low)

unfoldable pub channel_to_string : ℕ → Text
channel_to_string value = snprintf 5 (hex2 value)

unfoldable pub mode_request : LoraGatewayMode → Option Request
mode_request mode = some (ok_request (codes "AT+MODE" ++ to_string (mode_value mode)))

unfoldable pub level_request : LoraGatewayLevel → Option Request
level_request level = some (ok_request (codes "AT+LEVEL" ++ to_string (level_value level)))

unfoldable pub power_request : LoraGatewayPower → Option Request
power_request power = some (ok_request (codes "AT+POWE" ++ to_string (power_value power)))

-- Any other bandwidth is refused; this one is sent as 0.
unfoldable pub band_width_request : LoraGatewayBandWidth → Option Request
band_width_request bw_125k = some (ok_request (codes "AT+BW" ++ to_string 0))
band_width_request _ = none

unfoldable pub coding_rate_request : LoraGatewayCodingRate → Option Request
coding_rate_request rate = some (ok_request (codes "AT+CR" ++ to_string (coding_rate_value rate)))

unfoldable pub spreading_factor_request : LoraGatewaySpreadingFactor → Option Request
spreading_factor_request factor =
    some (ok_request (codes "AT+SF" ++ to_string (spreading_factor_value factor)))

-- baud_rate_commands_lr02.
unfoldable pub baud_rate_command : BaudRate → Option Text
baud_rate_command baud_1200 = some (codes "AT+BAUD1")
baud_rate_command baud_2400 = some (codes "AT+BAUD2")
baud_rate_command baud_4800 = some (codes "AT+BAUD3")
baud_rate_command baud_9600 = some (codes "AT+BAUD4")
baud_rate_command baud_19200 = some (codes "AT+BAUD5")
baud_rate_command baud_38400 = some (codes "AT+BAUD6")
baud_rate_command baud_57600 = some (codes "AT+BAUD7")
baud_rate_command baud_115200 = some (codes "AT+BAUD8")
baud_rate_command baud_128000 = some (codes "AT+BAUD9")
baud_rate_command (other_baud _) = none

unfoldable pub baud_rate_request : BaudRate → Option Request
unfolding baud_rate_command
baud_rate_request rate = elim (baud_rate_command rate) [
  | none ↦ none
  | some command ↦ some (ok_request command)
]

unfoldable pub parity_request : Parity → Option Request
parity_request no_parity = some (ok_request (codes "AT+PARI0"))
parity_request odd_parity = some (ok_request (codes "AT+PARI1"))
parity_request even_parity = some (ok_request (codes "AT+PARI2"))
parity_request (other_parity _) = none

unfoldable pub stop_bits_request : StopBits → Option Request
stop_bits_request one_stop_bit = some (ok_request (codes "AT+STOP1"))
stop_bits_request two_stop_bits = some (ok_request (codes "AT+STOP2"))
stop_bits_request (other_stop_bits _) = none

unfoldable pub address_request : ℕ → Request
unfolding address_to_string
address_request address = ok_request (codes "AT+MAC" ++ address_to_string address)

unfoldable pub channel_request : ℕ → Request
unfolding channel_to_string
channel_request channel = ok_request (codes "AT+CHANNEL" ++ channel_to_string channel)

unfoldable pub crc_check_request : LoraGatewayCrcCheck → Request
crc_check_request crc = ok_request (codes "AT+CRC" ++ to_string (crc_check_value crc))

unfoldable pub signal_inversion_request : LoraGatewayIqSignalInversion → Request
signal_inversion_request iq = ok_request (codes "AT+IQ" ++ to_string (signal_inversion_value iq))

-- "+++" goes into the AT mode and out of it.
abbrev pub entry_request : Request
entry_request = record { command = codes "+++"; waits = wait_entry_at ∷ [] }

abbrev pub exit_request : Request
exit_request = record { command = codes "+++"; waits = wait_exit_at ∷ wait_power_on ∷ [] }
