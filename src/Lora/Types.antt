-- ===== src/Lora/Types.antt =====
-- The enumerations and records of src/lora_gateways/lora_gateway_driver_types.h, each enumeration with
-- the integer that static_cast<int> gives. All values that are sent to the module are at least 0.
use aether_gateway.Prelude.{ℕ}

-- kLoraGatewayMode.
pub data LoraGatewayMode : Type 0 where
  transparent_transmission fixed_point_transmission broadcast_transmission : LoraGatewayMode

unfoldable pub mode_value : LoraGatewayMode → ℕ
mode_value transparent_transmission = 0
mode_value fixed_point_transmission = 1
mode_value broadcast_transmission = 2

-- kLoraGatewayLevel.
pub data LoraGatewayLevel : Type 0 where
  level0 level1 level2 level3 level4 level5 level6 level7 : LoraGatewayLevel

unfoldable pub level_value : LoraGatewayLevel → ℕ
level_value level0 = 0
level_value level1 = 1
level_value level2 = 2
level_value level3 = 3
level_value level4 = 4
level_value level5 = 5
level_value level6 = 6
level_value level7 = 7

-- kLoraGatewayPower.
pub data LoraGatewayPower : Type 0 where
  power0 power1 power2 power3 power4 power5 power6 power7 power8 power9 power10 power11 power12
        power13 power14 power15 power16 power17 power18 power19 power20 power21 power22 :
      LoraGatewayPower

unfoldable pub power_value : LoraGatewayPower → ℕ
power_value power0 = 0
power_value power1 = 1
power_value power2 = 2
power_value power3 = 3
power_value power4 = 4
power_value power5 = 5
power_value power6 = 6
power_value power7 = 7
power_value power8 = 8
power_value power9 = 9
power_value power10 = 10
power_value power11 = 11
power_value power12 = 12
power_value power13 = 13
power_value power14 = 14
power_value power15 = 15
power_value power16 = 16
power_value power17 = 17
power_value power18 = 18
power_value power19 = 19
power_value power20 = 20
power_value power21 = 21
power_value power22 = 22

-- kLoraGatewayBandWidth.
pub data LoraGatewayBandWidth : Type 0 where
  bw_7k81 bw_10k42 bw_15k63 bw_20k83 bw_31k25 bw_41k67 bw_62k5 bw_125k bw_250k bw_500k :
      LoraGatewayBandWidth

unfoldable pub band_width_value : LoraGatewayBandWidth → ℕ
band_width_value bw_7k81 = 0
band_width_value bw_10k42 = 1
band_width_value bw_15k63 = 2
band_width_value bw_20k83 = 3
band_width_value bw_31k25 = 4
band_width_value bw_41k67 = 5
band_width_value bw_62k5 = 6
band_width_value bw_125k = 7
band_width_value bw_250k = 8
band_width_value bw_500k = 9

-- kLoraGatewayCodingRate.
pub data LoraGatewayCodingRate : Type 0 where
  cr4_5 cr4_6 cr4_7 cr4_8 : LoraGatewayCodingRate

unfoldable pub coding_rate_value : LoraGatewayCodingRate → ℕ
coding_rate_value cr4_5 = 1
coding_rate_value cr4_6 = 2
coding_rate_value cr4_7 = 3
coding_rate_value cr4_8 = 4

-- kLoraGatewaySpreadingFactor.
pub data LoraGatewaySpreadingFactor : Type 0 where
  sf5 sf6 sf7 sf8 sf9 sf10 sf11 sf12 : LoraGatewaySpreadingFactor

unfoldable pub spreading_factor_value : LoraGatewaySpreadingFactor → ℕ
spreading_factor_value sf5 = 5
spreading_factor_value sf6 = 6
spreading_factor_value sf7 = 7
spreading_factor_value sf8 = 8
spreading_factor_value sf9 = 9
spreading_factor_value sf10 = 10
spreading_factor_value sf11 = 11
spreading_factor_value sf12 = 12

-- kLoraGatewayCRCCheck.
pub data LoraGatewayCrcCheck : Type 0 where
  crc_off crc_on : LoraGatewayCrcCheck

unfoldable pub crc_check_value : LoraGatewayCrcCheck → ℕ
crc_check_value crc_off = 0
crc_check_value crc_on = 1

-- kLoraGatewayIQSignalInversion.
pub data LoraGatewayIqSignalInversion : Type 0 where
  iq_off iq_on : LoraGatewayIqSignalInversion

unfoldable pub signal_inversion_value : LoraGatewayIqSignalInversion → ℕ
signal_inversion_value iq_off = 0
signal_inversion_value iq_on = 1

-- kLoraModuleFreqRange.
pub data LoraModuleFreqRange : Type 0 where
  undef eu433 ch470 eu868 au915 sa923 us915 in865 as923 : LoraModuleFreqRange

-- The enumerators of the library's kBaudRate, kParity and kStopBits that the driver names, and every
-- other one.
pub data BaudRate : Type 0 where
  baud_1200 baud_2400 baud_4800 baud_9600 baud_19200 baud_38400 baud_57600 baud_115200 : BaudRate
  baud_128000 : BaudRate
  other_baud : ℕ → BaudRate

pub data Parity : Type 0 where
  no_parity odd_parity even_parity : Parity
  other_parity : ℕ → Parity

pub data StopBits : Type 0 where
  one_stop_bit two_stop_bits : StopBits
  other_stop_bits : ℕ → StopBits

-- SerialInit, as far as the driver reads it.
pub record SerialInit : Type 0 where
  pub baud_rate : BaudRate
  pub parity : Parity
  pub stop_bits : StopBits

pub record LoraGatewayPowerSaveParam : Type 0 where
  pub lora_gateway_mode : LoraGatewayMode
  pub lora_gateway_level : LoraGatewayLevel
  pub lora_gateway_power : LoraGatewayPower
  pub lora_gateway_band_width : LoraGatewayBandWidth
  pub lora_gateway_coding_rate : LoraGatewayCodingRate
  pub lora_gateway_spreading_factor : LoraGatewaySpreadingFactor

unfoldable pub default_power_save_param : LoraGatewayPowerSaveParam
default_power_save_param = record {
  lora_gateway_mode = transparent_transmission;
  lora_gateway_level = level0;
  lora_gateway_power = power22;
  lora_gateway_band_width = bw_125k;
  lora_gateway_coding_rate = cr4_6;
  lora_gateway_spreading_factor = sf12;
}

pub record LoraGatewayInit : Type 0 where
  pub serial_init : SerialInit
  pub psp : LoraGatewayPowerSaveParam
  pub lora_gateway_freq_range : LoraModuleFreqRange
  pub lora_gateway_my_address : ℕ  -- uint16
  pub lora_gateway_channel : ℕ  -- uint8
  pub lora_gateway_crc_check : LoraGatewayCrcCheck
  pub lora_gateway_signal_inversion : LoraGatewayIqSignalInversion
