-- ===== src/Examples/Operations.antt =====
-- A driver that has been started and stopped, and its operations.
use aether_gateway.Prelude.{
  Increasing, get_elem?, ℕ, ◌≡◌, refl, true, false, arith, List, [], ◌∷◌, none, some,
}
use aether_gateway.Aether.{UpdateStatus, tcp}
use aether_gateway.Lora.Commands.{entry_request, exit_request, address_request, channel_request}
use aether_gateway.Lora.Driver.{
  Driver, Job, init_job, power_save_job, new_driver, Stage, address_job, channel_job, stop_job,
  enter_at_mode, request, start, stop, push_operation, push,
}
use aether_gateway.Lora.Stages.{run_stage, run_job, run_stages, one_request}
use aether_gateway.Lora.Connections.{Reach, Step}
use aether_gateway.Lora.AtFlag.{failed_entry}
use aether_gateway.Lora.OpenNetwork.{open_network_promise, waiting, open_network_promise_waits}
use aether_gateway.Lora.Operations.{settle, stopped}
use aether_gateway.Lora.Operations.Waiting.{IsBehind, init_waits-IsBehind}
use aether_gateway.Lora.Handing.{run_pipelines}
use aether_gateway.Lora.Handing.Flag.{flips, run_pipelines-flips}
use aether_gateway.Lora.Operations.Settling.{settled_once, status_of}
use aether_gateway.Lora.Operations.Order.{operations}
use aether_gateway.Lora.Interface.{
  dx_smart, create_lora_gateway, DriverCall, start_call, stop_call, open_network_call,
  write_packet_call, issue_all, operations-issue_all,
}
use aether_gateway.Examples.Lora.{settings, driver}

abbrev busy : Driver
busy = (stop (start driver).1).1

busy_reached : Reach settings busy
busy_reached = Reach.next (Reach.next Reach.constructed Step.started) Step.stopped

abbrev last : ℕ
last = 2

queued : get_elem? busy.operation_queue last ≡ some (stop_job 1)
unfolding start stop push_operation push new_driver
queued = refl

settles : settle true (stop_job 1) UpdateStatus.stop ≡ some (1, stopped)
unfolding settle
settles = refl

settled_once_example :
    (last ≡ last)
    × (UpdateStatus.stop ≡ status_of stopped)
    × (UpdateStatus.stop ≡ status_of stopped)
settled_once_example =
    settled_once busy_reached last last 1 (stop_job 1) (stop_job 1) true true UpdateStatus.stop
      UpdateStatus.stop stopped stopped queued queued settles settles

failed_entry_example :
    let d = (run_stages (enter_at_mode ∷ []) driver).1 in
    (rest stages : List Stage) × (run_job (address_job 0 3) driver ≡ some (enter_at_mode ∷ rest))
    × ((run_stages (enter_at_mode ∷ []) driver).0 ≡ one_request (some entry_request) ∷ [])
    × (run_job (channel_job 1 4) d ≡ some stages)
    × (run_stages stages d ≡ (
      none ∷ some (request (channel_request 4)) ∷ one_request (some exit_request) ∷ [],
      record d { at_mode = false },
    ))
unfolding new_driver
failed_entry_example =
    failed_entry (address_job 0 3) (channel_job 1 4) (address_request 3) (channel_request 4) driver
      refl refl refl

open_network_promise_waits_example : open_network_promise tcp (b'a' ∷ []) 80 1000 ≡ waiting
open_network_promise_waits_example = open_network_promise_waits tcp (b'a' ∷ []) 80 1000

-- A user of the driver's interface.
abbrev calls : List DriverCall
calls =
    start_call
    ∷ write_packet_call 0 (1 ∷ [])
    ∷ open_network_call tcp (b'a' ∷ []) 80
    ∷ stop_call
    ∷ []

operations-issue_all_example :
    let (hs, d) = issue_all dx_smart calls (create_lora_gateway settings) in
    (operations d.operation_queue ≡ hs) × Increasing 0 hs d.next_operation
operations-issue_all_example = operations-issue_all settings calls

init_waits-IsBehind_example :
    (stages : List Stage) × (run_job (init_job settings) (start driver).1 ≡ some stages)
    × (get_elem? stages 3 ≡ some (Stage.power_save_param settings.psp))
    × IsBehind
        (init_job settings)
        (run_stage (Stage.power_save_param settings.psp) (start driver).1).0
        (run_stage (Stage.power_save_param settings.psp) (start driver).1).1.operation_queue
init_waits-IsBehind_example = init_waits-IsBehind (Reach.next Reach.constructed Step.started)

-- Init, stopped in its first stage; an address; and the power saving parameters, stopped after two.
abbrev pipelines : List (Job × ℕ)
pipelines = (init_job settings, 1) ∷ (address_job 0 3, 3) ∷ (power_save_job 1 settings.psp, 2) ∷ []

run_pipelines-flips_example :
    (run_pipelines 3 pipelines driver).1.at_mode
    ≡ flips (run_pipelines 3 pipelines driver).0 driver.at_mode
run_pipelines-flips_example = run_pipelines-flips 3 pipelines driver (omega arith)
