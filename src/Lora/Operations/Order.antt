-- ===== src/Lora/Operations/Order.antt =====
-- The operations of the queued jobs, in the order of the queue
-- (src/lora_gateways/dx_smart_lr02_gw.cpp).
use mathlib.Core.List.{append-nil}
use Prim.Native.Nat.{bit_or}
use aether_gateway.Prelude.{
  Increasing, Increasing-append, Bool-cases, ltb, ℕ, ◌≡◌, ◌%◌, ◌==◌, if◌then◌else◌, ◌∙◌, refl, ap,
  Bool, true, false, List, [], ◌∷◌, ◌++◌, Option, none, some, arith, inl, inr,
}
use aether_gateway.Lora.Types.{LoraGatewayInit}
use aether_gateway.Lora.Driver.{
  Driver, Stage, Job, start_job, stop_job, open_network_job, power_save_job, address_job,
  channel_job, crc_check_job, signal_inversion_job, poll_job, read_packet_job, push, push_operation,
  new_driver, start, stop, open_network_to, set_power_save_param, set_lora_gateway_address,
  set_lora_gateway_channel, set_lora_gateway_crc_check, set_lora_gateway_iq_signal_inversion,
  poll_task, poll_event, contains,
}
use aether_gateway.Lora.Stages.{run_stage}
use aether_gateway.Lora.Initializing.{notifies}
use aether_gateway.Lora.Connections.{Step, Reach}

abbrev pub cons_some : Option ℕ → List ℕ → List ℕ
cons_some none hs = hs
cons_some (some h) hs = h ∷ hs

-- The operations of the jobs, in order.
abbrev pub operations : List Job → List ℕ
operations [] = []
operations (job ∷ jobs) = cons_some (notifies job) (operations jobs)

-- They are strictly increasing, and below the next one.
abbrev pub IsOrdered : Driver → Type 0
IsOrdered d = Increasing 0 (operations d.operation_queue) d.next_operation

cons_some-append : (o : Option ℕ) (hs ks : List ℕ) → cons_some o (hs ++ ks) ≡ cons_some o hs ++ ks
cons_some-append none hs ks = refl
cons_some-append (some h) hs ks = refl

pub operations-append :
    (jobs : List Job) (job : Job)
    → operations (jobs ++ job ∷ []) ≡ operations jobs ++ cons_some (notifies job) []
operations-append [] job = refl
operations-append (j ∷ jobs) job =
    ap (cons_some (notifies j)) (operations-append jobs job)
    ∙ cons_some-append (notifies j) (operations jobs) (cons_some (notifies job) [])

-- A job without an operation, and one that has the next.
push_silent : (job : Job) (d : Driver) → notifies job ≡ none → IsOrdered d → IsOrdered (push job d)
unfolding push
push_silent job d e h =
    rw (operations-append d.operation_queue job, e, append-nil (operations d.operation_queue)) h

push_operation-IsOrdered :
    (job : ℕ → Job) (d : Driver)
    → ((h : ℕ) → notifies (job h) ≡ some h)
    → IsOrdered d
    → IsOrdered (push_operation job d).1
unfolding push_operation
push_operation-IsOrdered job d e h =
    rw (operations-append d.operation_queue (job d.next_operation), e d.next_operation)
      (Increasing-append 0 (operations d.operation_queue) d.next_operation h)

set_channel-IsOrdered :
    (c : ℕ) (d : Driver) → IsOrdered d → IsOrdered (set_lora_gateway_channel c d).1
unfolding set_lora_gateway_channel
set_channel-IsOrdered c d h = elim (Bool-cases (ltb 0x1e c)) [
  | inl e ↦ rw e h
  | inr e ↦ rw e (push_operation-IsOrdered (λ k. channel_job k c) d (λ k. refl) h)
]

run_stage-IsOrdered : (s : Stage) (d : Driver) → IsOrdered d → IsOrdered (run_stage s d).1
unfolding run_stage set_power_save_param set_lora_gateway_address set_lora_gateway_crc_check
    set_lora_gateway_iq_signal_inversion
run_stage-IsOrdered Stage.enter_at_mode d h = elim (Bool-cases d.at_mode) [
  | inl e ↦ rw e h
  | inr e ↦ rw e h
]
run_stage-IsOrdered Stage.exit_at_mode d h = elim (Bool-cases d.at_mode) [
  | inl e ↦ rw e h
  | inr e ↦ rw e h
]
run_stage-IsOrdered (Stage.power_save_param psp) d h =
    push_operation-IsOrdered (λ k. power_save_job k psp) d (λ k. refl) h
run_stage-IsOrdered (Stage.gateway_address a) d h =
    push_operation-IsOrdered (λ k. address_job k a) d (λ k. refl) h
run_stage-IsOrdered (Stage.gateway_channel c) d h = set_channel-IsOrdered c d h
run_stage-IsOrdered (Stage.gateway_crc_check c) d h =
    push_operation-IsOrdered (λ k. crc_check_job k c) d (λ k. refl) h
run_stage-IsOrdered (Stage.gateway_signal_inversion iq) d h =
    push_operation-IsOrdered (λ k. signal_inversion_job k iq) d (λ k. refl) h
run_stage-IsOrdered _ d h = h

pub Step-IsOrdered : {d e : Driver} → Step d e → IsOrdered d → IsOrdered e
unfolding start stop open_network_to set_power_save_param set_lora_gateway_address
    set_lora_gateway_crc_check set_lora_gateway_iq_signal_inversion poll_task poll_event
Step-IsOrdered {d} Step.started h = push_operation-IsOrdered start_job d (λ k. refl) h
Step-IsOrdered {d} Step.stopped h = push_operation-IsOrdered stop_job d (λ k. refl) h
Step-IsOrdered {d} (Step.opened p host port) h =
    push_operation-IsOrdered (λ k. open_network_job k p host port) d (λ k. refl) h
Step-IsOrdered {d} (Step.saved psp) h =
    push_operation-IsOrdered (λ k. power_save_job k psp) d (λ k. refl) h
Step-IsOrdered {d} (Step.addressed a) h =
    push_operation-IsOrdered (λ k. address_job k a) d (λ k. refl) h
Step-IsOrdered {d} (Step.channelled c) h = set_channel-IsOrdered c d h
Step-IsOrdered {d} (Step.checked c) h =
    push_operation-IsOrdered (λ k. crc_check_job k c) d (λ k. refl) h
Step-IsOrdered {d} (Step.inverted iq) h =
    push_operation-IsOrdered (λ k. signal_inversion_job k iq) d (λ k. refl) h
Step-IsOrdered {d} (Step.staged s) h = run_stage-IsOrdered s d h
Step-IsOrdered {d} Step.polled h = polled d.connections
  where
    polled : (cs : List ℕ) → IsOrdered (elim cs [ [] ↦ d | _ ∷ _ ↦ push poll_job d ])
    polled [] = h
    polled (c ∷ cs) = push_silent poll_job d refl h
Step-IsOrdered (Step.answered handle none) h = h
Step-IsOrdered {d} (Step.answered handle (some f)) h =
    answered (contains (handle % 256) d.connections) (bit_or f 1 == 0)
  where
    answered :
        (known none_set : Bool)
        → IsOrdered
            (if known then if none_set then d else push (read_packet_job (handle % 256)) d else d)
    answered true true = h
    answered true false = push_silent (read_packet_job (handle % 256)) d refl h
    answered false _ = h

pub Reach-IsOrdered : {i : LoraGatewayInit} {d : Driver} → Reach i d → IsOrdered d
unfolding new_driver
Reach-IsOrdered Reach.constructed = omega arith
Reach-IsOrdered (Reach.next r s) = Step-IsOrdered s (Reach-IsOrdered r)
