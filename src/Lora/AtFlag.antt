-- ===== src/Lora/AtFlag.antt =====
-- The driver's flag at_mode_ after an entry to the AT mode that went wrong
-- (src/lora_gateways/dx_smart_lr02_gw.cpp).
use aether_gateway.Prelude.{◌≡◌, true, false, List, [], ◌∷◌, none, some, arith}
use aether_gateway.Lora.Commands.{Request, entry_request, exit_request}
use aether_gateway.Lora.Driver.{
  Driver, Stage, enter_at_mode, exit_at_mode, make_request, request, Job,
}
use aether_gateway.Lora.Stages.{one_request, run_stage, run_stages, run_job}
use aether_gateway.Lora.AtMode.{command_of, command_job}

-- What the next job of one command hands to the module, where the driver takes it to be in the AT mode.
in_at_mode_already :
    (r : Request) (d : Driver)
    → d.at_mode ≡ true
    → run_stages (enter_at_mode ∷ make_request r ∷ exit_at_mode ∷ []) d ≡ (
      none ∷ some (request r) ∷ one_request (some exit_request) ∷ [],
      record d { at_mode = false },
    )
unfolding run_stages run_stage
in_at_mode_already r d on = ground arith

-- Outside the AT mode, where the pipeline of a one-command job has run its first stage and no
-- further, as it does when the module refuses "+++", the next one-command job hands over no "+++"
-- before its own command, and one after it.
pub failed_entry :
    (job next : Job) (r s : Request) (d : Driver)
    → command_of job ≡ some r
    → command_of next ≡ some s
    → d.at_mode ≡ false
    → let d' = (run_stages (enter_at_mode ∷ []) d).1 in
      (rest stages : List Stage) × (run_job job d ≡ some (enter_at_mode ∷ rest))
      × ((run_stages (enter_at_mode ∷ []) d).0 ≡ one_request (some entry_request) ∷ [])
      × (run_job next d' ≡ some stages)
      × (run_stages stages d' ≡ (
        none ∷ some (request s) ∷ one_request (some exit_request) ∷ [],
        record d' { at_mode = false },
      ))
unfolding run_stages run_stage
failed_entry job next r s d e f off =
    let (sent, on) = first_stage d off in
    (
      make_request r ∷ exit_at_mode ∷ [],
      enter_at_mode ∷ make_request s ∷ exit_at_mode ∷ [],
      command_job job r d e,
      sent,
      command_job next s _ f,
      in_at_mode_already s _ on,
    )
  where
    first_stage :
        (d : Driver)
        → d.at_mode ≡ false
        → ((run_stages (enter_at_mode ∷ []) d).0 ≡ one_request (some entry_request) ∷ [])
          × ((run_stages (enter_at_mode ∷ []) d).1.at_mode ≡ true)
    first_stage d off = (ground arith, ground arith)
