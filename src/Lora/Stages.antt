-- ===== src/Lora/Stages.antt =====
-- The bodies of the driver's stages and jobs (src/lora_gateways/dx_smart_lr02_gw.cpp). `none` is an
-- empty action. Where the source returns a pipeline of one stage, so does the model.
use mathlib.Core.Option
use aether_gateway.Prelude.{
  true, false, not, List, [], ◌∷◌, ◌++◌, Option, none, some, if◌then◌else◌,
}
use aether_gateway.Aether.{tcp, udp, other_protocol}
use aether_gateway.Lora.Text.{codes}
use aether_gateway.Lora.Commands.{
  Request, ok_request, mode_request, level_request, power_request, band_width_request,
  coding_rate_request, spreading_factor_request, baud_rate_request, parity_request,
  stop_bits_request, address_request, channel_request, crc_check_request, signal_inversion_request,
  entry_request, exit_request,
}
use aether_gateway.Lora.Driver.{
  Driver, Stage, enter_at_mode, exit_at_mode, make_request, mode, level, power, band_width,
  coding_rate, spreading_factor, serial_port, baud_rate, parity, stop_bits, power_save_param,
  lora_net, gateway_address, gateway_channel, gateway_crc_check, gateway_signal_inversion,
  poll_connections, open_tcp, open_udp, mark_initiated, mark_started, notify, Action, pipeline,
  request, operation, open_network, done, Job, init_job, start_job, stop_job, open_network_job,
  power_save_job, address_job, channel_job, crc_check_job, signal_inversion_job, poll_job,
  read_packet_job, set_power_save_param, set_lora_gateway_address, set_lora_gateway_channel,
  set_lora_gateway_crc_check, set_lora_gateway_iq_signal_inversion, poll_handles,
}

abbrev pub one_request : Option Request → Option Action
one_request none = none
one_request (some r) = some (pipeline (make_request r ∷ []))

unfoldable pub run_enter_at_mode : Driver → Option Action × Driver
run_enter_at_mode d =
    if not d.at_mode
    then (one_request (some entry_request), record d { at_mode = true })
    else (none, d)

unfoldable pub run_exit_at_mode : Driver → Option Action × Driver
run_exit_at_mode d =
    if d.at_mode then (one_request (some exit_request), record d { at_mode = false }) else (none, d)

unfoldable pub run_stage : Stage → Driver → Option Action × Driver
unfolding run_enter_at_mode run_exit_at_mode set_power_save_param set_lora_gateway_address
    set_lora_gateway_channel set_lora_gateway_crc_check set_lora_gateway_iq_signal_inversion
run_stage enter_at_mode d = run_enter_at_mode d
run_stage exit_at_mode d = run_exit_at_mode d
run_stage (make_request r) d = (some (request r), d)
run_stage (mode m) d = (one_request (mode_request m), d)
run_stage (level l) d = (one_request (level_request l), d)
run_stage (power p) d = (one_request (power_request p), d)
run_stage (band_width bw) d = (one_request (band_width_request bw), d)
run_stage (coding_rate cr) d = (one_request (coding_rate_request cr), d)
run_stage (spreading_factor sf) d = (one_request (spreading_factor_request sf), d)
run_stage (serial_port s) d =
    (some (pipeline (baud_rate s.baud_rate ∷ parity s.parity ∷ stop_bits s.stop_bits ∷ [])), d)
run_stage (baud_rate b) d = (one_request (baud_rate_request b), d)
run_stage (parity p) d = (one_request (parity_request p), d)
run_stage (stop_bits s) d = (one_request (stop_bits_request s), d)
run_stage (power_save_param psp) d =
    let (h, d') = set_power_save_param psp d in (some (operation h), d')
run_stage (lora_net i) d = (
  some (
      pipeline (
        gateway_address i.lora_gateway_my_address
        ∷ gateway_channel i.lora_gateway_channel
        ∷ gateway_crc_check i.lora_gateway_crc_check
        ∷ gateway_signal_inversion i.lora_gateway_signal_inversion
        ∷ [])),
  d,
)
run_stage (gateway_address a) d =
    let (h, d') = set_lora_gateway_address a d in (some (operation h), d')
run_stage (gateway_channel c) d =
    let (o, d') = set_lora_gateway_channel c d in (Option.map operation o, d')
run_stage (gateway_crc_check c) d =
    let (h, d') = set_lora_gateway_crc_check c d in (some (operation h), d')
run_stage (gateway_signal_inversion iq) d =
    let (h, d') = set_lora_gateway_iq_signal_inversion iq d in (some (operation h), d')
run_stage poll_connections d =
    (some (request (ok_request (codes "#XPOLL=0" ++ poll_handles d.connections))), d)
run_stage (open_tcp h host port) d = (some (open_network h), d)
run_stage (open_udp h host port) d = (some (open_network h), d)
run_stage mark_initiated d = (some done, record d { initiated = true })
run_stage mark_started d = (some done, record d { started = true; polling = true })
run_stage (notify h) d = (some done, d)

abbrev pub in_at_mode : List Stage → List Stage
in_at_mode stages = enter_at_mode ∷ (stages ++ exit_at_mode ∷ [])

-- The pipeline that a job makes when the queue starts it.
unfoldable pub run_job : Job → Driver → Option (List Stage)
run_job (init_job i) d = some (
    enter_at_mode
    ∷ make_request (ok_request (codes "AT"))
    ∷ serial_port d.lora_gateway_init.serial_init
    ∷ power_save_param d.lora_gateway_init.psp
    ∷ lora_net d.lora_gateway_init
    ∷ exit_at_mode
    ∷ mark_initiated
    ∷ [])
run_job (start_job h) d =
    some (if d.started then notify h ∷ [] else enter_at_mode ∷ exit_at_mode ∷ mark_started ∷ [])
run_job (stop_job h) d = some (in_at_mode (make_request (ok_request (codes "AT+RESET")) ∷ []))
run_job (open_network_job h tcp host port) d = some (open_tcp h host port ∷ [])
run_job (open_network_job h udp host port) d = some (open_udp h host port ∷ [])
run_job (open_network_job h (other_protocol _) host port) d = none
run_job (power_save_job h psp) d = some (
    in_at_mode (
      mode psp.lora_gateway_mode
      ∷ level psp.lora_gateway_level
      ∷ power psp.lora_gateway_power
      ∷ band_width psp.lora_gateway_band_width
      ∷ coding_rate psp.lora_gateway_coding_rate
      ∷ spreading_factor psp.lora_gateway_spreading_factor
      ∷ []))
run_job (address_job h a) d = some (in_at_mode (make_request (address_request a) ∷ []))
run_job (channel_job h c) d = some (in_at_mode (make_request (channel_request c) ∷ []))
run_job (crc_check_job h c) d = some (in_at_mode (make_request (crc_check_request c) ∷ []))
run_job (signal_inversion_job h iq) d =
    some (in_at_mode (make_request (signal_inversion_request iq) ∷ []))
run_job poll_job d = some (poll_connections ∷ [])
run_job (read_packet_job c) d = none

-- Every stage of a list run in order, as long as each one succeeds: what they return, and the driver.
unfoldable pub run_stages : List Stage → Driver → List (Option Action) × Driver
unfolding run_stage
run_stages [] d = ([], d)
run_stages (s ∷ ss) d =
    let (a, d') = run_stage s d in let (as', d'') = run_stages ss d' in (a ∷ as', d'')
