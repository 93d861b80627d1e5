-- ===== src/Lora/RoundTrip.antt =====
-- The command of a setting, read back
-- (src/lora_gateways/dx_smart_lr02_gw.cpp).
use aether_gateway.Prelude.{
  ℕ, ◌+◌, ◌*◌, ◌/◌, ◌%◌, ◌≡◌, ◌<◌, refl, ◌∙◌, ap, subst, Option, [], ◌∷◌, none, some, arith,
}
use aether_gateway.Lora.Text.{read_hex2, read_hex2-hex2}
use aether_gateway.Lora.Types.{
  LoraGatewayMode, transparent_transmission, LoraGatewayLevel, level0, LoraGatewayPower, power0,
  LoraGatewayCodingRate, cr4_5, LoraGatewaySpreadingFactor, sf5, LoraGatewayCrcCheck, crc_off,
  LoraGatewayIqSignalInversion, iq_off, LoraGatewayBandWidth, bw_125k, BaudRate, other_baud, Parity,
  other_parity, StopBits, other_stop_bits,
}
use aether_gateway.Lora.Commands.{Request}
use aether_gateway.Lora.Reading.{
  Setting, mode, level, power, coding_rate, spreading_factor, crc_check, signal_inversion,
  band_width, baud_rate, parity, stop_bits, address, channel, setting_request, read_setting,
  read_address, InRange,
}

-- Reading the command of a setting, where there is one, gives the setting.
abbrev ReadsAs : Option Request → Setting → Type 0
ReadsAs none s = Unit
ReadsAs (some r) s = read_setting r.command ≡ some s

abbrev ReadsBack : Setting → Type 0
ReadsBack s = ReadsAs (setting_request s) s

mode_reads : (x : LoraGatewayMode) → ReadsBack (mode x)
unfolding setting_request read_setting
mode_reads transparent_transmission = refl
mode_reads _ = refl

level_reads : (x : LoraGatewayLevel) → ReadsBack (level x)
unfolding setting_request read_setting
level_reads level0 = refl
level_reads _ = refl

power_reads : (x : LoraGatewayPower) → ReadsBack (power x)
unfolding setting_request read_setting
power_reads power0 = refl
power_reads _ = refl

coding_rate_reads : (x : LoraGatewayCodingRate) → ReadsBack (coding_rate x)
unfolding setting_request read_setting
coding_rate_reads cr4_5 = refl
coding_rate_reads _ = refl

spreading_factor_reads : (x : LoraGatewaySpreadingFactor) → ReadsBack (spreading_factor x)
unfolding setting_request read_setting
spreading_factor_reads sf5 = refl
spreading_factor_reads _ = refl

crc_check_reads : (x : LoraGatewayCrcCheck) → ReadsBack (crc_check x)
unfolding setting_request read_setting
crc_check_reads crc_off = refl
crc_check_reads _ = refl

signal_inversion_reads : (x : LoraGatewayIqSignalInversion) → ReadsBack (signal_inversion x)
unfolding setting_request read_setting
signal_inversion_reads iq_off = refl
signal_inversion_reads _ = refl

band_width_reads : (x : LoraGatewayBandWidth) → ReadsBack (band_width x)
unfolding setting_request read_setting
band_width_reads bw_125k = refl
band_width_reads _ = tt

baud_rate_reads : (x : BaudRate) → ReadsBack (baud_rate x)
unfolding setting_request read_setting
baud_rate_reads (other_baud _) = tt
baud_rate_reads _ = refl

parity_reads : (x : Parity) → ReadsBack (parity x)
unfolding setting_request read_setting
parity_reads (other_parity _) = tt
parity_reads _ = refl

stop_bits_reads : (x : StopBits) → ReadsBack (stop_bits x)
unfolding setting_request read_setting
stop_bits_reads (other_stop_bits _) = tt
stop_bits_reads _ = refl

channel_reads : (c : ℕ) → c < 256 → ReadsBack (channel c)
unfolding setting_request read_setting
channel_reads c h = rw (read_hex2-hex2 c h)

read_address_digits :
    (x y z w high low : ℕ)
    → read_hex2 x y ≡ some high
    → read_hex2 z w ≡ some low
    → read_address (x ∷ y ∷ b',' ∷ z ∷ w ∷ []) ≡ some (address (high * 256 + low))
read_address_digits x y z w high low p q = ground arith

address_reads : (a : ℕ) → a < 65536 → ReadsBack (address a)
unfolding setting_request read_setting
address_reads a h =
    read_address_digits _ _ _ _ (a / 256 % 256) (a % 256)
      (read_hex2-hex2 (a / 256 % 256) (omega arith)) (read_hex2-hex2 (a % 256) (omega arith))
    ∙ ap (λ n. some (address n)) (omega arith)

reads : (s : Setting) → InRange s → ReadsBack s
reads (mode x) h = mode_reads x
reads (level x) h = level_reads x
reads (power x) h = power_reads x
reads (coding_rate x) h = coding_rate_reads x
reads (spreading_factor x) h = spreading_factor_reads x
reads (crc_check x) h = crc_check_reads x
reads (signal_inversion x) h = signal_inversion_reads x
reads (band_width x) h = band_width_reads x
reads (baud_rate x) h = baud_rate_reads x
reads (parity x) h = parity_reads x
reads (stop_bits x) h = stop_bits_reads x
reads (address a) h = address_reads a h
reads (channel c) h = channel_reads c h

-- Whatever setting is sent, with its number in the range of its type, the text of the command is
-- read back as that very setting: no digit is cut by the printing buffers, no two settings share a
-- command, and no command is taken for one of another kind.
pub read_setting_request :
    (s : Setting) (r : Request)
    → InRange s
    → setting_request s ≡ some r
    → read_setting r.command ≡ some s
read_setting_request s r h e = subst (λ o. ReadsAs o s) e (reads s h)
