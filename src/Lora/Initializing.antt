-- ===== src/Lora/Initializing.antt =====
-- The operation that each job of the queue is made for (src/lora_gateways/dx_smart_lr02_gw.cpp).
use aether_gateway.Prelude.{ℕ, Option, none, some}
use aether_gateway.Lora.Driver.{
  Job, init_job, power_save_job, start_job, stop_job, open_network_job, address_job, channel_job,
  crc_check_job, signal_inversion_job, poll_job, read_packet_job,
}

-- The operation that a job notifies.
abbrev pub notifies : Job → Option ℕ
notifies (init_job _) = none
notifies (start_job h) = some h
notifies (stop_job h) = some h
notifies (open_network_job h _ _ _) = some h
notifies (power_save_job h _) = some h
notifies (address_job h _) = some h
notifies (channel_job h _) = some h
notifies (crc_check_job h _) = some h
notifies (signal_inversion_job h _) = some h
notifies poll_job = none
notifies (read_packet_job _) = none
