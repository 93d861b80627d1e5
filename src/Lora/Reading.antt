-- ===== src/Lora/Reading.antt =====
-- What a command tells the module: a reader of the driver's AT commands, written from the table of
-- commands and not from the code that prints them (src/lora_gateways/dx_smart_lr02_gw.cpp).
use mathlib.Core.Option
use aether_gateway.Prelude.{
  ℕ, zero, suc, ◌+◌, ◌-◌, ◌*◌, ◌<◌, List, [], ◌∷◌, Option, none, some, if◌then◌else◌, ◌==◌,
}
use aether_gateway.Lora.Text.{Text, codes, read_hex2, to_string, snprintf, hex2}
use aether_gateway.Lora.Types.{
  mode_value, level_value, power_value, coding_rate_value, spreading_factor_value, crc_check_value,
  signal_inversion_value, LoraGatewayMode, transparent_transmission, fixed_point_transmission,
  broadcast_transmission, LoraGatewayLevel, level0, level1, level2, level3, level4, level5, level6,
  level7, LoraGatewayPower, power0, power1, power2, power3, power4, power5, power6, power7, power8,
  power9, power10, power11, power12, power13, power14, power15, power16, power17, power18, power19,
  power20, power21, power22, LoraGatewayCodingRate, cr4_5, cr4_6, cr4_7, cr4_8,
  LoraGatewaySpreadingFactor, sf5, sf6, sf7, sf8, sf9, sf10, sf11, sf12, LoraGatewayCrcCheck,
  crc_off, crc_on, LoraGatewayIqSignalInversion, iq_off, iq_on, LoraGatewayBandWidth, bw_125k,
  BaudRate, baud_1200, baud_2400, baud_4800, baud_9600, baud_19200, baud_38400, baud_57600,
  baud_115200, baud_128000, Parity, no_parity, odd_parity, even_parity, StopBits, one_stop_bit,
  two_stop_bits,
}
use aether_gateway.Lora.Commands.{
  Request, mode_request, level_request, power_request, band_width_request, coding_rate_request,
  spreading_factor_request, baud_rate_request, parity_request, stop_bits_request, address_request,
  channel_request, crc_check_request, signal_inversion_request,
}

-- Every setting of the module that the driver has a command for.
pub data Setting : Type 0 where
  mode : LoraGatewayMode → Setting
  level : LoraGatewayLevel → Setting
  power : LoraGatewayPower → Setting
  coding_rate : LoraGatewayCodingRate → Setting
  spreading_factor : LoraGatewaySpreadingFactor → Setting
  crc_check : LoraGatewayCrcCheck → Setting
  signal_inversion : LoraGatewayIqSignalInversion → Setting
  band_width : LoraGatewayBandWidth → Setting
  baud_rate : BaudRate → Setting
  parity : Parity → Setting
  stop_bits : StopBits → Setting
  address channel : ℕ → Setting

unfoldable pub setting_request : Setting → Option Request
unfolding mode_request level_request power_request coding_rate_request spreading_factor_request
    crc_check_request signal_inversion_request band_width_request baud_rate_request parity_request
    stop_bits_request address_request channel_request mode_value level_value power_value
    coding_rate_value spreading_factor_value crc_check_value signal_inversion_value to_string
    snprintf hex2
setting_request (mode x) = mode_request x
setting_request (level x) = level_request x
setting_request (power x) = power_request x
setting_request (coding_rate x) = coding_rate_request x
setting_request (spreading_factor x) = spreading_factor_request x
setting_request (crc_check x) = some (crc_check_request x)
setting_request (signal_inversion x) = some (signal_inversion_request x)
setting_request (band_width x) = band_width_request x
setting_request (baud_rate x) = baud_rate_request x
setting_request (parity x) = parity_request x
setting_request (stop_bits x) = stop_bits_request x
setting_request (address a) = some (address_request a)
setting_request (channel c) = some (channel_request c)

-- The part of a text after a prefix.
abbrev strip : Text → Text → Option Text
strip [] t = some t
strip (p ∷ ps) [] = none
strip (p ∷ ps) (c ∷ t) = let rest = strip ps t in if p == c then rest else none

abbrev read_number : Text → Option ℕ
read_number (c ∷ []) = some (c - 48)
read_number (c ∷ d ∷ []) = some ((c - 48) * 10 + (d - 48))
read_number _ = none

abbrev get_elem? {ℓ} : {A : Type ℓ} → List A → ℕ → Option A
get_elem? [] i = none
get_elem? (x ∷ xs) zero = some x
get_elem? (x ∷ xs) (suc i) = get_elem? xs i

abbrev one_of {ℓ} : {A : Type ℓ} → (A → Setting) → ℕ → List A → Text → Option Setting
one_of make first values t = elim (read_number t) [
  | none ↦ none
  | some n ↦ Option.map make (get_elem? values (n - first))
]

abbrev pub read_address : Text → Option Setting
read_address (a ∷ b ∷ comma ∷ c ∷ d ∷ []) = elim (read_hex2 a b) [
  | none ↦ none
  | some high ↦ elim (read_hex2 c d) [
    | none ↦ none
    | some low ↦ if comma == b',' then some (address (high * 256 + low)) else none
  ]
]
read_address _ = none

abbrev read_channel : Text → Option Setting
read_channel (a ∷ b ∷ []) = Option.map channel (read_hex2 a b)
read_channel _ = none

abbrev pub Reader : Type 0
Reader = Text × (Text → Option Setting)

-- The longer of two prefixes comes first.
abbrev readers : List Reader
readers =
    (
      codes "AT+MODE",
      one_of mode 0
          (transparent_transmission ∷ fixed_point_transmission ∷ broadcast_transmission ∷ []),
    )
    ∷ (
      codes "AT+LEVEL",
      one_of level 0 (level0 ∷ level1 ∷ level2 ∷ level3 ∷ level4 ∷ level5 ∷ level6 ∷ level7 ∷ []),
    )
    ∷ (
      codes "AT+POWE",
      one_of power 0 (
          power0 ∷ power1 ∷ power2 ∷ power3 ∷ power4 ∷ power5 ∷ power6 ∷ power7 ∷ power8 ∷ power9
          ∷ power10 ∷ power11 ∷ power12 ∷ power13 ∷ power14 ∷ power15 ∷ power16 ∷ power17 ∷ power18
          ∷ power19 ∷ power20 ∷ power21 ∷ power22 ∷ []),
    )
    ∷ (codes "AT+BW", one_of band_width 0 (bw_125k ∷ []))
    ∷ (codes "AT+CRC", one_of crc_check 0 (crc_off ∷ crc_on ∷ []))
    ∷ (codes "AT+CR", one_of coding_rate 1 (cr4_5 ∷ cr4_6 ∷ cr4_7 ∷ cr4_8 ∷ []))
    ∷ (
      codes "AT+SF",
      one_of spreading_factor 5 (sf5 ∷ sf6 ∷ sf7 ∷ sf8 ∷ sf9 ∷ sf10 ∷ sf11 ∷ sf12 ∷ []),
    )
    ∷ (codes "AT+IQ", one_of signal_inversion 0 (iq_off ∷ iq_on ∷ []))
    ∷ (
      codes "AT+BAUD",
      one_of baud_rate 1 (
          baud_1200 ∷ baud_2400 ∷ baud_4800 ∷ baud_9600 ∷ baud_19200 ∷ baud_38400 ∷ baud_57600
          ∷ baud_115200 ∷ baud_128000 ∷ []),
    )
    ∷ (codes "AT+PARI", one_of parity 0 (no_parity ∷ odd_parity ∷ even_parity ∷ []))
    ∷ (codes "AT+STOP", one_of stop_bits 1 (one_stop_bit ∷ two_stop_bits ∷ []))
    ∷ (codes "AT+MAC", read_address)
    ∷ (codes "AT+CHANNEL", read_channel)
    ∷ []

unfoldable pub read_with : List Reader → Text → Option Setting
read_with [] t = none
read_with ((prefix, read) ∷ rs) t =
    let rest = read_with rs t in elim (strip prefix t) [ some value ↦ read value | none ↦ rest ]

unfoldable pub read_setting : Text → Option Setting
unfolding read_with
read_setting t = read_with readers t

-- The machine width of a setting that is a number.
abbrev pub InRange : Setting → Type 0
InRange (address a) = a < 65536
InRange (channel c) = c < 256
InRange _ = Unit
