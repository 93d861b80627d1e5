-- ===== src/Lora/Handing/Flag.antt =====
-- The driver's flag at_mode_ against the "+++" that it hands to the module
-- (src/lora_gateways/dx_smart_lr02_gw.cpp).
use aether_gateway.Prelude.{
  ℕ, zero, suc, ◌≡◌, ◌<◌, ◌∙◌, refl, sym, ap, All, Bool, true, false, ◌&&◌, not, List, [], ◌∷◌,
  ◌++◌, Option, none, some, arith, ◌==◌, if◌then◌else◌,
}
use aether_gateway.Aether.{tcp, udp, other_protocol}
use aether_gateway.Lora.Text.{Text, codes}
use aether_gateway.Lora.Types.{
  BaudRate, other_baud, Parity, other_parity, StopBits, other_stop_bits, LoraGatewayBandWidth,
  bw_125k,
}
use aether_gateway.Lora.Commands.{
  Request, mode_request, level_request, power_request, band_width_request, coding_rate_request,
  spreading_factor_request, baud_rate_request, parity_request, stop_bits_request, address_request,
  channel_request, crc_check_request, signal_inversion_request,
}
use aether_gateway.Lora.Driver.{
  Driver, Stage, enter_at_mode, exit_at_mode, make_request, Job, open_network_job, start_job,
  stop_job, power_save_job, address_job, channel_job, crc_check_job, signal_inversion_job, poll_job,
  read_packet_job, init_job,
}
use aether_gateway.Lora.Stages.{one_request, run_stage, run_job}
use aether_gateway.Lora.Handing.{
  Handed, each, follow, stage_requests, first_stages, stages_of, run_pipelines,
}

abbrev text_eq : Text → Text → Bool
text_eq [] [] = true
text_eq [] (c ∷ t) = false
text_eq (b ∷ s) [] = false
text_eq (b ∷ s) (c ∷ t) = (b == c) && text_eq s t

-- "+++", to enter the AT mode or to leave it.
abbrev pub is_toggle : Request → Bool
is_toggle r = text_eq r.command (codes "+++")

-- A flag that every "+++" flips.
abbrev pub flips : List Request → Bool → Bool
flips [] b = b
flips (r ∷ rs) b = flips rs (if is_toggle r then not b else b)

flips-append : (rs ss : List Request) (b : Bool) → flips (rs ++ ss) b ≡ flips ss (flips rs b)
flips-append [] ss b = refl
flips-append (r ∷ rs) ss b = flips-append rs ss (if is_toggle r then not b else b)

-- The flag follows what is handed over.
abbrev Follows : (Driver → Handed) → Type 0
Follows run = (d : Driver) → (run d).1.at_mode ≡ flips (run d).0 d.at_mode

each-Follows :
    (run : Stage → Driver → Handed) (ss : List Stage)
    → All (λ s. Follows (run s)) ss
    → Follows (each run ss)
each-Follows run [] all d = refl
each-Follows run (s ∷ ss) (f, all) d =
    each-Follows run ss all (run s d).1
    ∙ ap (flips (each run ss (run s d).1).0) (f d)
    ∙ sym (flips-append (run s d).0 (each run ss (run s d).1).0 d.at_mode)

-- A stage that neither enters the AT mode nor leaves it, and sends no "+++" of its own.
abbrev IsPlain : Stage → Type 0
IsPlain enter_at_mode = ⊥
IsPlain exit_at_mode = ⊥
IsPlain (make_request r) = is_toggle r ≡ false
IsPlain _ = Unit

-- A stage of a job.
abbrev IsUsual : Stage → Type 0
IsUsual (make_request r) = is_toggle r ≡ false
IsUsual _ = Unit

-- The requests of a stage that may have none.
abbrev IsQuiet : Option Request → Type 0
IsQuiet none = Unit
IsQuiet (some r) = is_toggle r ≡ false

band_width_request-IsQuiet : (bw : LoraGatewayBandWidth) → IsQuiet (band_width_request bw)
unfolding band_width_request
band_width_request-IsQuiet bw_125k = refl
band_width_request-IsQuiet _ = tt

baud_rate_request-IsQuiet : (b : BaudRate) → IsQuiet (baud_rate_request b)
unfolding baud_rate_request
baud_rate_request-IsQuiet (other_baud n) = tt
baud_rate_request-IsQuiet _ = refl

parity_request-IsQuiet : (p : Parity) → IsQuiet (parity_request p)
unfolding parity_request
parity_request-IsQuiet (other_parity n) = tt
parity_request-IsQuiet _ = refl

stop_bits_request-IsQuiet : (s : StopBits) → IsQuiet (stop_bits_request s)
unfolding stop_bits_request
stop_bits_request-IsQuiet (other_stop_bits n) = tt
stop_bits_request-IsQuiet _ = refl

make_request-Follows :
    (n : ℕ) (r : Request) → is_toggle r ≡ false → Follows (stage_requests n (make_request r))
unfolding run_stage
make_request-Follows zero r e d = refl
make_request-Follows (suc n) r e d = rw e refl

one_request-Follows :
    (n : ℕ) (o : Option Request) → IsQuiet o → Follows (follow (stage_requests n) (one_request o))
one_request-Follows n none e d = refl
one_request-Follows n (some r) e d =
    each-Follows (stage_requests n) (make_request r ∷ []) (make_request-Follows n r e, tt) d

plain-Follows : (n : ℕ) (s : Stage) → IsPlain s → Follows (stage_requests n s)
unfolding run_stage mode_request level_request power_request coding_rate_request
    spreading_factor_request
plain-Follows zero s p d = refl
plain-Follows (suc n) enter_at_mode p d = absurd p
plain-Follows (suc n) exit_at_mode p d = absurd p
plain-Follows (suc n) (make_request r) p d = make_request-Follows (suc n) r p d
plain-Follows (suc n) (Stage.mode m) p d = one_request-Follows n (mode_request m) refl d
plain-Follows (suc n) (Stage.level l) p d = one_request-Follows n (level_request l) refl d
plain-Follows (suc n) (Stage.power w) p d = one_request-Follows n (power_request w) refl d
plain-Follows (suc n) (Stage.band_width bw) p d =
    one_request-Follows n (band_width_request bw) (band_width_request-IsQuiet bw) d
plain-Follows (suc n) (Stage.coding_rate c) p d =
    one_request-Follows n (coding_rate_request c) refl d
plain-Follows (suc n) (Stage.spreading_factor f) p d =
    one_request-Follows n (spreading_factor_request f) refl d
plain-Follows (suc n) (Stage.serial_port i) p d =
    each-Follows (stage_requests n)
      (Stage.baud_rate i.baud_rate ∷ Stage.parity i.parity ∷ Stage.stop_bits i.stop_bits ∷ [])
      (
        plain-Follows n (Stage.baud_rate i.baud_rate) tt,
        (
          plain-Follows n (Stage.parity i.parity) tt,
          (plain-Follows n (Stage.stop_bits i.stop_bits) tt, tt),
        ),
      )
      d
plain-Follows (suc n) (Stage.baud_rate b) p d =
    one_request-Follows n (baud_rate_request b) (baud_rate_request-IsQuiet b) d
plain-Follows (suc n) (Stage.parity b) p d =
    one_request-Follows n (parity_request b) (parity_request-IsQuiet b) d
plain-Follows (suc n) (Stage.stop_bits b) p d =
    one_request-Follows n (stop_bits_request b) (stop_bits_request-IsQuiet b) d
plain-Follows (suc n) (Stage.lora_net i) p d =
    each-Follows (stage_requests n)
      (Stage.gateway_address i.lora_gateway_my_address
        ∷ Stage.gateway_channel i.lora_gateway_channel
        ∷ Stage.gateway_crc_check i.lora_gateway_crc_check
        ∷ Stage.gateway_signal_inversion i.lora_gateway_signal_inversion
        ∷ [])
      (
        plain-Follows n (Stage.gateway_address i.lora_gateway_my_address) tt,
        (
          plain-Follows n (Stage.gateway_channel i.lora_gateway_channel) tt,
          (
            plain-Follows n (Stage.gateway_crc_check i.lora_gateway_crc_check) tt,
            (
              plain-Follows n (Stage.gateway_signal_inversion i.lora_gateway_signal_inversion) tt,
              tt,
            ),
          ),
        ),
      )
      d
plain-Follows (suc n) (Stage.gateway_channel c) p d = ground arith
plain-Follows (suc n) _ p d = refl

toggle-Follows : (n : ℕ) (s : Stage) → IsUsual s → Follows (stage_requests (suc (suc n)) s)
unfolding run_stage
toggle-Follows n enter_at_mode u d = ground arith
toggle-Follows n exit_at_mode u d = ground arith
toggle-Follows n s u d = plain-Follows (suc (suc n)) s u d

-- The stages of every job.
job-IsUsual : (job : Job) (d : Driver) → All IsUsual (stages_of (run_job job d))
unfolding run_job address_request channel_request crc_check_request signal_inversion_request
job-IsUsual (init_job i) d = (tt, (refl, (tt, (tt, (tt, (tt, (tt, tt)))))))
job-IsUsual (start_job h) d = started d.started
  where
    started :
        (b : Bool)
        → All IsUsual (
            if b
            then Stage.notify h ∷ []
            else enter_at_mode ∷ exit_at_mode ∷ Stage.mark_started ∷ [])
    started true = (tt, tt)
    started false = (tt, (tt, (tt, tt)))
job-IsUsual (stop_job h) d = (tt, (refl, (tt, tt)))
job-IsUsual (open_network_job h tcp host port) d = (tt, tt)
job-IsUsual (open_network_job h udp host port) d = (tt, tt)
job-IsUsual (open_network_job h (other_protocol _) host port) d = tt
job-IsUsual (power_save_job h psp) d = (tt, (tt, (tt, (tt, (tt, (tt, (tt, (tt, tt))))))))
job-IsUsual (address_job h a) d = (tt, (refl, (tt, tt)))
job-IsUsual (channel_job h c) d = (tt, (refl, (tt, tt)))
job-IsUsual (crc_check_job h c) d = (tt, (refl, (tt, tt)))
job-IsUsual (signal_inversion_job h iq) d = (tt, (refl, (tt, tt)))
job-IsUsual poll_job d = (tt, tt)
job-IsUsual (read_packet_job c) d = tt

first_stages-Follows :
    (depth n : ℕ) (ss : List Stage)
    → 1 < depth
    → All IsUsual ss
    → All (λ s. Follows (stage_requests depth s)) (first_stages n ss)
first_stages-Follows zero n ss lt all = absurd (omega arith)
first_stages-Follows (suc zero) n ss lt all = absurd (omega arith)
first_stages-Follows (suc (suc depth)) zero ss lt all = tt
first_stages-Follows (suc (suc depth)) (suc n) [] lt all = tt
first_stages-Follows (suc (suc depth)) (suc n) (s ∷ ss) lt (u, all) =
    (toggle-Follows depth s u, first_stages-Follows (suc (suc depth)) n ss lt all)

-- Whatever jobs run in order, each one's pipeline stopped after any number of its stages, with the
-- pipelines that stages return followed to any depth from two on: the driver's flag of the AT mode
-- at the end is the one it had at the start, flipped once for each "+++" among the requests that
-- the stages handed over.
pub run_pipelines-flips :
    (depth : ℕ) (jobs : List (Job × ℕ)) (d : Driver)
    → 1 < depth
    → (run_pipelines depth jobs d).1.at_mode ≡ flips (run_pipelines depth jobs d).0 d.at_mode
run_pipelines-flips depth [] d lt = refl
run_pipelines-flips depth ((job, n) ∷ jobs) d lt =
    let ss = first_stages n (stages_of (run_job job d)) in
    let r = each (stage_requests depth) ss d in
    run_pipelines-flips depth jobs r.1 lt
    ∙ ap (flips (run_pipelines depth jobs r.1).0) (
        each-Follows (stage_requests depth) ss
          (first_stages-Follows depth n (stages_of (run_job job d)) lt (job-IsUsual job d)) d)
    ∙ sym (flips-append r.0 (run_pipelines depth jobs r.1).0 d.at_mode)
