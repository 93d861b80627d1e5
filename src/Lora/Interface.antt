-- ===== src/Lora/Interface.antt =====
-- class ILoraGatewayDriver and LoraGatewayDriverFactory (src/lora_gateways/ilora_gateway_driver.h,
-- src/lora_gateways/lora_gateway_factory.cpp), and what DxSmartLr02LoraGateway promises through them. A
-- method returns the handle of its operation, or none for an empty ActionPtr. The event of received data, which nothing
-- emits, is left out.
use mathlib.Core.List.{append-nil, append_assoc}
use aether_gateway.Prelude.{
  ℕ, ◌≡◌, ◌∙◌, refl, sym, ap, subst, arith, Increasing, List, [], ◌∷◌, ◌++◌, Option, none, some,
}
use aether_gateway.Aether.{DataBuffer, Protocol}
use aether_gateway.Lora.Text.{Text}
use aether_gateway.Lora.Types.{LoraGatewayInit, LoraGatewayPowerSaveParam}
use aether_gateway.Lora.Driver.{
  Driver, Job, new_driver, start, stop, open_network_to, close_network, write_packet,
  set_power_save_param, power_off, push, push_operation, start_job, stop_job, open_network_job,
  power_save_job,
}
use aether_gateway.Lora.Initializing.{notifies}
use aether_gateway.Lora.Operations.Order.{
  cons_some, operations, operations-append, IsOrdered, Step-IsOrdered,
}
use aether_gateway.Lora.Connections.{Step}

pub record LoraGatewayDriver : Type 1 where
  pub D : Type 0
  pub start : D → Option ℕ × D
  pub stop : D → Option ℕ × D
  pub open_network : Protocol → Text → ℕ → D → Option ℕ × D
  pub close_network : ℕ → D → Option ℕ × D
  pub write_packet : ℕ → DataBuffer → D → Option ℕ × D
  pub set_power_save_param : LoraGatewayPowerSaveParam → D → Option ℕ × D
  pub power_off : D → Option ℕ × D

-- A method that always has an operation.
abbrev given : ℕ × Driver → Option ℕ × Driver
given (h, d) = (some h, d)

abbrev pub dx_smart : LoraGatewayDriver
dx_smart = record {
  D = Driver;
  start = λ d. given (start d);
  stop = λ d. given (stop d);
  open_network = λ protocol host port d. given (open_network_to protocol host port d);
  close_network = close_network;
  write_packet = write_packet;
  set_power_save_param = λ psp d. given (set_power_save_param psp d);
  power_off = power_off;
}

-- The factory, in the one build that there is.
unfoldable pub create_lora_gateway : LoraGatewayInit → Driver
create_lora_gateway init = new_driver init

pub data DriverCall : Type 0 where
  start_call stop_call power_off_call : DriverCall
  open_network_call : Protocol → Text → ℕ → DriverCall
  close_network_call : ℕ → DriverCall
  write_packet_call : ℕ → DataBuffer → DriverCall
  set_power_save_param_call : LoraGatewayPowerSaveParam → DriverCall

module _ (driver : LoraGatewayDriver) where
  unfoldable pub issue : DriverCall → driver.D → Option ℕ × driver.D
  issue start_call d = driver.start d
  issue stop_call d = driver.stop d
  issue power_off_call d = driver.power_off d
  issue (open_network_call protocol host port) d = driver.open_network protocol host port d
  issue (close_network_call i) d = driver.close_network i d
  issue (write_packet_call i payload) d = driver.write_packet i payload d
  issue (set_power_save_param_call psp) d = driver.set_power_save_param psp d

  -- The operations that a user of the interface gets, in order.
  unfoldable pub issue_all : List DriverCall → driver.D → List ℕ × driver.D
  unfolding issue
  issue_all [] d = ([], d)
  issue_all (c ∷ calls) d =
      let (h, d') = issue c d in let (hs, d'') = issue_all calls d' in (cons_some h hs, d'')

pushed :
    (job : ℕ → Job) (d : Driver)
    → ((h : ℕ) → notifies (job h) ≡ some h)
    → operations (push_operation job d).1.operation_queue
      ≡ operations d.operation_queue ++ cons_some (some (push_operation job d).0) []
unfolding push_operation push
pushed job d e =
    operations-append d.operation_queue (job d.next_operation) ∙ rw (e d.next_operation)

issue-operations :
    (c : DriverCall) (d : Driver)
    → let (h, d') = issue dx_smart c d in
      operations d'.operation_queue ≡ operations d.operation_queue ++ cons_some h []
unfolding issue start stop open_network_to set_power_save_param close_network write_packet power_off
issue-operations start_call d = pushed start_job d (λ h. refl)
issue-operations stop_call d = pushed stop_job d (λ h. refl)
issue-operations power_off_call d = sym (append-nil (operations d.operation_queue))
issue-operations (open_network_call protocol host port) d =
    pushed (λ h. open_network_job h protocol host port) d (λ h. refl)
issue-operations (close_network_call i) d = sym (append-nil (operations d.operation_queue))
issue-operations (write_packet_call i payload) d = sym (append-nil (operations d.operation_queue))
issue-operations (set_power_save_param_call psp) d =
    pushed (λ h. power_save_job h psp) d (λ h. refl)

cons_some-split : (h : Option ℕ) (hs : List ℕ) → cons_some h [] ++ hs ≡ cons_some h hs
cons_some-split none hs = refl
cons_some-split (some h) hs = refl

issue_all-operations :
    (calls : List DriverCall) (d : Driver)
    → let (hs, d') = issue_all dx_smart calls d in
      operations d'.operation_queue ≡ operations d.operation_queue ++ hs
unfolding issue_all
issue_all-operations [] d = sym (append-nil (operations d.operation_queue))
issue_all-operations (c ∷ calls) d =
    let (h, d') = issue dx_smart c d in
    let (hs, d'') = issue_all dx_smart calls d' in
    issue_all-operations calls d'
    ∙ ap (λ l. l ++ hs) (issue-operations c d)
    ∙ append_assoc (operations d.operation_queue) (cons_some h []) hs
    ∙ ap (λ l. operations d.operation_queue ++ l) (cons_some-split h hs)

issue-IsOrdered : (c : DriverCall) (d : Driver) → IsOrdered d → IsOrdered (issue dx_smart c d).1
unfolding issue close_network write_packet power_off
issue-IsOrdered start_call d o = Step-IsOrdered Step.started o
issue-IsOrdered stop_call d o = Step-IsOrdered Step.stopped o
issue-IsOrdered power_off_call d o = o
issue-IsOrdered (open_network_call protocol host port) d o =
    Step-IsOrdered (Step.opened protocol host port) o
issue-IsOrdered (close_network_call i) d o = o
issue-IsOrdered (write_packet_call i payload) d o = o
issue-IsOrdered (set_power_save_param_call psp) d o = Step-IsOrdered (Step.saved psp) o

issue_all-IsOrdered :
    (calls : List DriverCall) (d : Driver) → IsOrdered d → IsOrdered (issue_all dx_smart calls d).1
unfolding issue_all
issue_all-IsOrdered [] d o = o
issue_all-IsOrdered (c ∷ calls) d o =
    issue_all-IsOrdered calls (issue dx_smart c d).1 (issue-IsOrdered c d o)

-- Whatever calls a user makes of a driver that the factory created, the operations that the calls
-- return are, in order, those of the jobs in the driver's queue, each handed out and queued once:
-- their handles are strictly increasing.
pub operations-issue_all :
    (init : LoraGatewayInit) (calls : List DriverCall)
    → let (hs, d) = issue_all dx_smart calls (create_lora_gateway init) in
      (operations d.operation_queue ≡ hs) × Increasing 0 hs d.next_operation
unfolding create_lora_gateway new_driver push
operations-issue_all init calls =
    let new : IsOrdered (create_lora_gateway init) = omega arith in
    let same = issue_all-operations calls (create_lora_gateway init) in
    (
      same,
      subst
          (λ hs.
            Increasing 0 hs (issue_all dx_smart calls (create_lora_gateway init)).1.next_operation)
          same (issue_all-IsOrdered calls (create_lora_gateway init) new),
    )
