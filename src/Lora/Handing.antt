-- ===== src/Lora/Handing.antt =====
-- The requests that the driver's jobs hand to the module (src/lora_gateways/dx_smart_lr02_gw.cpp). A stage
-- that returns a pipeline is followed into it, to a depth; the pipelines themselves are the library's, and
-- run their stages in order as long as each is a success.
pub mod Flag
use aether_gateway.Prelude.{ℕ, zero, suc, List, [], ◌∷◌, ◌++◌, Option, none, some}
use aether_gateway.Lora.Commands.{Request}
use aether_gateway.Lora.Driver.{
  Driver, Stage, Action, pipeline, request, operation, open_network, done, Job,
}
use aether_gateway.Lora.Stages.{run_stage, run_job}

-- What is handed over, and the driver after it.
abbrev pub Handed : Type 0
Handed = List Request × Driver

abbrev pub each : (Stage → Driver → Handed) → List Stage → Driver → Handed
each run [] d = ([], d)
each run (s ∷ ss) d =
    let (rs, d') = run s d in let (rest, d'') = each run ss d' in (rs ++ rest, d'')

-- Only a request and a pipeline hand anything over at once; an operation's own job does so later.
abbrev pub follow : (Stage → Driver → Handed) → Option Action → Driver → Handed
follow run none d = ([], d)
follow run (some (pipeline stages)) d = each run stages d
follow run (some (request r)) d = (r ∷ [], d)
follow run (some _) d = ([], d)

abbrev pub stage_requests : ℕ → Stage → Driver → Handed
stage_requests zero s d = ([], d)
stage_requests (suc depth) s d = let (a, d') = run_stage s d in follow (stage_requests depth) a d'

abbrev pub first_stages : ℕ → List Stage → List Stage
first_stages zero ss = []
first_stages (suc n) [] = []
first_stages (suc n) (s ∷ ss) = s ∷ first_stages n ss

abbrev pub stages_of : Option (List Stage) → List Stage
stages_of none = []
stages_of (some stages) = stages

-- Jobs in order, each stopped after a number of its stages.
abbrev pub run_pipelines : ℕ → List (Job × ℕ) → Driver → Handed
run_pipelines depth [] d = ([], d)
run_pipelines depth ((job, n) ∷ jobs) d =
    let (rs, d') = each (stage_requests depth) (first_stages n (stages_of (run_job job d))) d in
    let (rest, d'') = run_pipelines depth jobs d' in (rs ++ rest, d'')
