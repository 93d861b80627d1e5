-- ===== src/Lora/Operations/Waiting.antt =====
-- What DxSmartLr02LoraGateway::Init waits for: its job stands first in the operation queue, and its stages
-- call the public setters, which push jobs of their own (src/lora_gateways/dx_smart_lr02_gw.cpp).
use aether_gateway.Prelude.{
  get_elem?, length, Bool, Bool-cases, true, false, ltb, ℕ, ◌≡◌, ◌<◌, ◌%◌, ◌==◌, ◌∙◌, refl, List,
  [], ◌∷◌, ◌++◌, Option, none, some, arith, if◌then◌else◌, inl, inr,
}
use Prim.Native.Nat.{bit_or}
use aether_gateway.Lora.Types.{LoraGatewayInit}
use aether_gateway.Lora.Driver.{
  Driver, Stage, power_save_param, Action, operation, Job, init_job, power_save_job, poll_job,
  read_packet_job, push, push_operation, new_driver, start, stop, open_network_to,
  set_power_save_param, set_lora_gateway_address, set_lora_gateway_channel,
  set_lora_gateway_crc_check, set_lora_gateway_iq_signal_inversion, poll_task, poll_event, contains,
}
use aether_gateway.Lora.Stages.{run_stage, run_job}
use aether_gateway.Lora.Initializing.{notifies}
use aether_gateway.Lora.Connections.{Step, Reach}
use aether_gateway.Lora.Operations.Order.{Reach-IsOrdered}
use aether_gateway.Lora.Operations.Settling.{same_position}

abbrev StartsWith : Job → List Job → Type 0
StartsWith first jobs = get_elem? jobs 0 ≡ some first

abbrev Starts : Job → Driver → Type 0
Starts first d = StartsWith first d.operation_queue

StartsWith-append :
    (first : Job) (xs ys : List Job) → StartsWith first xs → StartsWith first (xs ++ ys)
StartsWith-append first [] ys e = cc
StartsWith-append first (x ∷ xs) ys e = e

get_elem?-last : (xs : List Job) (x : Job) → get_elem? (xs ++ x ∷ []) (length xs) ≡ some x
get_elem?-last [] x = refl
get_elem?-last (y ∷ xs) x = get_elem?-last xs x

channel-StartsWith :
    (first : Job) (c : ℕ) (d : Driver)
    → StartsWith first d.operation_queue
    → StartsWith first (set_lora_gateway_channel c d).1.operation_queue
unfolding set_lora_gateway_channel push_operation push
channel-StartsWith first c d e = elim (Bool-cases (ltb 0x1e c)) [
  | inl b ↦ rw b e
  | inr b ↦ rw b (StartsWith-append first d.operation_queue _ e)
]

run_stage-StartsWith :
    (first : Job) (s : Stage) (d : Driver)
    → StartsWith first d.operation_queue
    → StartsWith first (run_stage s d).1.operation_queue
unfolding run_stage set_power_save_param set_lora_gateway_address set_lora_gateway_crc_check
    set_lora_gateway_iq_signal_inversion push_operation push
run_stage-StartsWith first Stage.enter_at_mode d e = ground (arith, e)
run_stage-StartsWith first Stage.exit_at_mode d e = ground (arith, e)
run_stage-StartsWith first (Stage.power_save_param psp) d e =
    StartsWith-append first d.operation_queue _ e
run_stage-StartsWith first (Stage.gateway_address a) d e =
    StartsWith-append first d.operation_queue _ e
run_stage-StartsWith first (Stage.gateway_channel c) d e = channel-StartsWith first c d e
run_stage-StartsWith first (Stage.gateway_crc_check c) d e =
    StartsWith-append first d.operation_queue _ e
run_stage-StartsWith first (Stage.gateway_signal_inversion iq) d e =
    StartsWith-append first d.operation_queue _ e
run_stage-StartsWith first _ d e = e

Step-StartsWith :
    (first : Job) {d e : Driver}
    → Step d e
    → StartsWith first d.operation_queue
    → StartsWith first e.operation_queue
unfolding start stop open_network_to set_power_save_param set_lora_gateway_address
    set_lora_gateway_crc_check set_lora_gateway_iq_signal_inversion poll_task poll_event
    push_operation push
Step-StartsWith first {d} Step.started h = StartsWith-append first d.operation_queue _ h
Step-StartsWith first {d} Step.stopped h = StartsWith-append first d.operation_queue _ h
Step-StartsWith first {d} (Step.opened p host port) h =
    StartsWith-append first d.operation_queue _ h
Step-StartsWith first {d} (Step.saved psp) h = StartsWith-append first d.operation_queue _ h
Step-StartsWith first {d} (Step.addressed a) h = StartsWith-append first d.operation_queue _ h
Step-StartsWith first {d} (Step.channelled c) h = channel-StartsWith first c d h
Step-StartsWith first {d} (Step.checked c) h = StartsWith-append first d.operation_queue _ h
Step-StartsWith first {d} (Step.inverted iq) h = StartsWith-append first d.operation_queue _ h
Step-StartsWith first {d} (Step.staged s) h = run_stage-StartsWith first s d h
Step-StartsWith first {d} Step.polled h = polled d.connections
  where
    polled : (cs : List ℕ) → Starts first (elim cs [ [] ↦ d | _ ∷ _ ↦ push poll_job d ])
    polled [] = h
    polled (c ∷ cs) = StartsWith-append first d.operation_queue _ h
Step-StartsWith first (Step.answered handle none) h = h
Step-StartsWith first {d} (Step.answered handle (some f)) h =
    answered (contains (handle % 256) d.connections) (bit_or f 1 == 0)
  where
    answered :
        (known none_set : Bool)
        → Starts first
            (if known then if none_set then d else push (read_packet_job (handle % 256)) d else d)
    answered true true = h
    answered true false = StartsWith-append first d.operation_queue _ h
    answered false _ = h

Step-lora_gateway_init : {d e : Driver} → Step d e → e.lora_gateway_init ≡ d.lora_gateway_init
unfolding start stop open_network_to set_power_save_param set_lora_gateway_address
    set_lora_gateway_channel set_lora_gateway_crc_check set_lora_gateway_iq_signal_inversion
    poll_task poll_event push_operation push run_stage
Step-lora_gateway_init Step.started = refl
Step-lora_gateway_init Step.stopped = refl
Step-lora_gateway_init (Step.opened p host port) = refl
Step-lora_gateway_init (Step.saved psp) = refl
Step-lora_gateway_init (Step.addressed a) = refl
Step-lora_gateway_init (Step.channelled c) = ground arith
Step-lora_gateway_init (Step.checked c) = refl
Step-lora_gateway_init (Step.inverted iq) = refl
Step-lora_gateway_init {d} (Step.staged s) = ground arith
Step-lora_gateway_init Step.polled = ground arith
Step-lora_gateway_init (Step.answered handle none) = refl
Step-lora_gateway_init (Step.answered handle (some f)) = ground arith

-- The driver keeps its settings, and its queue starts with Init.
Reach-starts :
    {i : LoraGatewayInit} {d : Driver}
    → Reach i d
    → (d.lora_gateway_init ≡ i) × StartsWith (init_job i) d.operation_queue
unfolding new_driver push
Reach-starts Reach.constructed = (refl, refl)
Reach-starts (Reach.next r s) =
    let (same, e) = Reach-starts r in (Step-lora_gateway_init s ∙ same, Step-StartsWith _ s e)

-- A stage returned an operation, which one job of the queue is made for: it stands behind `first`.
pub record IsBehind (first : Job) (o : Option Action) (jobs : List Job) : Type 0 where
  pub awaited : ℕ
  pub returned : o ≡ some (operation awaited)
  pub starts : get_elem? jobs 0 ≡ some first
  pub position : ℕ
  pub job : Job
  pub at : get_elem? jobs position ≡ some job
  pub tells : notifies job ≡ some awaited
  pub behind : 0 < position
  pub alone :
      (n : ℕ) (other : Job)
      → get_elem? jobs n ≡ some other
      → notifies other ≡ some awaited
      → n ≡ position

length-pos : (first : Job) (jobs : List Job) → StartsWith first jobs → 0 < length jobs
length-pos first [] e = cc
length-pos first (x ∷ jobs) e = omega arith

-- In a driver that any history reaches, the fourth stage of Init's job sets the power saving
-- parameters. What that stage returns is an operation that exactly one job of the queue then is
-- made for; the queue starts with the job of Init, and the job of the operation stands behind it.
pub init_waits-IsBehind :
    {i : LoraGatewayInit} {d : Driver}
    → Reach i d
    → (stages : List Stage) × (run_job (init_job i) d ≡ some stages)
      × (get_elem? stages 3 ≡ some (power_save_param i.psp))
      × IsBehind
          (init_job i)
          (run_stage (power_save_param i.psp) d).0
          (run_stage (power_save_param i.psp) d).1.operation_queue
unfolding run_job run_stage set_power_save_param push_operation push
init_waits-IsBehind {i} {d} r =
    let (same, e) = Reach-starts r in
    let s : Step d (run_stage (power_save_param i.psp) d).1 =
      Step.staged (power_save_param i.psp) in
    let last = get_elem?-last d.operation_queue (power_save_job d.next_operation i.psp) in
    (
      _,
      refl,
      rw same refl,
      record {
        awaited = d.next_operation;
        returned = refl;
        starts = StartsWith-append (init_job i) d.operation_queue _ e;
        position = length d.operation_queue;
        job = power_save_job d.next_operation i.psp;
        at = last;
        tells = refl;
        behind = length-pos (init_job i) d.operation_queue e;
        alone = λ n other f q.
            same_position _ 0 _ n (length d.operation_queue) d.next_operation other _
              (Reach-IsOrdered (Reach.next r s)) f last q refl;
      },
    )
