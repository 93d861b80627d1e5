-- ===== src/Simulator/AliceBob/Loop.antt =====
-- When the update loop of Alice and Bob ends (simulator/tests/sim-alice-bob/sim-alice-bob.cpp).
use aether_gateway.Prelude.{
  ℕ, zero, suc, ◌≡◌, ◌≢◌, ◌<◌, ◌∙◌, refl, sym, ap, Bool, true, false, List, [], ◌++◌, none, some,
  All, arith, if◌then◌else◌, ◌||◌, ◌==◌, Bool-cases, inl, inr,
}
use aether_gateway.Server.{AetherApp}
use aether_gateway.Simulator.AliceBob.Talk.{
  on_events-append, on_events-IsAlone, IsUnselected, new_test-IsAlone,
}
use aether_gateway.Simulator.AliceBob.{
  Event, new_test, on_events, Apps, update_apps, turn, run, exit_status,
}

module _ (gateway_app client_app : AetherApp) (events : ℕ → client_app.S → List Event) where
  abbrev State : Type 0
  State = Apps gateway_app client_app events

  abbrev pub IsRunning : State → Type 0
  IsRunning s = (gateway_app.is_exited s.gateway ≡ false) × (client_app.is_exited s.client ≡ false)

  -- Neither application exits by its own work.
  pub record GoesOn : Type 0 where
    pub gateway_update :
        (t : ℕ) (s : gateway_app.S)
        → gateway_app.is_exited s ≡ false
        → gateway_app.is_exited (gateway_app.update t s).1 ≡ false
    pub gateway_wait :
        (t : ℕ) (s : gateway_app.S)
        → gateway_app.is_exited s ≡ false
        → gateway_app.is_exited (gateway_app.wait_until t s) ≡ false
    pub client_update :
        (t : ℕ) (s : client_app.S)
        → client_app.is_exited s ≡ false
        → client_app.is_exited (client_app.update t s).1 ≡ false

  -- The first turns, as long as nobody exits: the applications, and all that was called back.
  abbrev pub after : ℕ → State → State
  after zero s = s
  after (suc n) s = after n (update_apps gateway_app client_app events s)

  abbrev pub delivered : ℕ → State → List Event
  delivered zero s = []
  delivered (suc n) s =
      events (client_app.now s.client) s.client
      ++ delivered n (update_apps gateway_app client_app events s)

  pub after-delivered : (n : ℕ) (s : State) → (after n s).test ≡ on_events (delivered n s) s.test
  unfolding update_apps on_events
  after-delivered zero s = refl
  after-delivered (suc n) s =
      after-delivered n (update_apps gateway_app client_app events s)
      ∙ sym (on_events-append (events (client_app.now s.client) s.client) _ s.test)

  IsRunning-on :
      (s : State) → GoesOn → IsRunning s → IsRunning (update_apps gateway_app client_app events s)
  unfolding update_apps
  IsRunning-on s on (g, c) = (on.gateway_wait _ _ (on.gateway_update _ _ g), on.client_update _ _ c)

  turn_on :
      (s : State)
      → (update_apps gateway_app client_app events s).test.received_messages ≢ 2
      → turn gateway_app client_app events s ≡ update_apps gateway_app client_app events s
  unfolding turn
  turn_on s ne =
      elim (Bool-cases
        ((update_apps gateway_app client_app events s).test.received_messages == 2)) [
          | inl e ↦ absurd (ground arith)
          | inr e ↦ rw e refl
        ]

  run_on :
      (fuel : ℕ) (s : State)
      → IsRunning s
      → run gateway_app client_app events (suc fuel) s
        ≡ run gateway_app client_app events fuel (turn gateway_app client_app events s)
  unfolding run
  run_on fuel s (g, c) = rw (g, c) refl

  -- The messages that the first turns have counted.
  abbrev pub count : ℕ → State → ℕ
  count n s = (after n s).test.received_messages

  out_of_fuel : (s : State) → run gateway_app client_app events zero s ≡ none
  unfolding run
  out_of_fuel s = refl

  pub run_waits :
      (fuel : ℕ) (s : State)
      → GoesOn
      → IsRunning s
      → ((k : ℕ) → k < fuel → count (suc k) s ≢ 2)
      → run gateway_app client_app events (suc fuel) s ≡ none
  run_waits zero s on i never = run_on zero s i ∙ out_of_fuel (turn gateway_app client_app events s)
  run_waits (suc fuel) s on i never =
      run_on (suc fuel) s i
      ∙ ap (run gateway_app client_app events (suc fuel)) (turn_on s (never 0 (omega arith)))
      ∙ run_waits fuel (update_apps gateway_app client_app events s) on (IsRunning-on s on i)
          (λ k lt. never (suc k) (omega arith))

  run_exited :
      (fuel : ℕ) (s : State)
      → run gateway_app client_app events
          (suc fuel)
          (record s { client = client_app.exit 0 s.client })
        ≡ some 0
  unfolding run exit_status
  run_exited fuel s = branch (gateway_app.is_exited s.gateway)
    where
      branch :
          (g : Bool)
          → (if g || client_app.is_exited (client_app.exit 0 s.client)
              then some (
                  exit_status gateway_app client_app events
                    (record s { client = client_app.exit 0 s.client }))
              else run gateway_app client_app events fuel (
                  turn gateway_app client_app events
                    (record s { client = client_app.exit 0 s.client })))
            ≡ some 0
      branch true =
          rw (client_app.is_exited-exit 0 s.client, client_app.exit_code-exit 0 s.client) refl
      branch false =
          rw (client_app.is_exited-exit 0 s.client, client_app.exit_code-exit 0 s.client) refl

  turn_two :
      (s : State)
      → count 1 s ≡ 2
      → let s' = update_apps gateway_app client_app events s in
        turn gateway_app client_app events s ≡ record s' { client = client_app.exit 0 s'.client }
  unfolding turn
  turn_two s e = elim (Bool-cases (count 1 s == 2)) [
    | inl q ↦ rw q refl
    | inr q ↦ absurd (ground arith)
  ]

  -- Where neither application exits by itself, the update loop of the test goes on through each
  -- turn that does not end with a count of two messages, and ends with code 0 in the turn after the
  -- first that does.
  pub run_ends :
      (n fuel : ℕ) (s : State)
      → GoesOn
      → IsRunning s
      → ((k : ℕ) → k < n → count (suc k) s ≢ 2)
      → count (suc n) s ≡ 2
      → suc n < fuel
      → (run gateway_app client_app events (suc n) s ≡ none)
        × (run gateway_app client_app events fuel s ≡ some 0)
  run_ends n fuel s on i never two enough =
      (run_waits n s on i never, ends n fuel s i never two enough)
    where
      ends :
          (n fuel : ℕ) (s : State)
          → IsRunning s
          → ((k : ℕ) → k < n → count (suc k) s ≢ 2)
          → count (suc n) s ≡ 2
          → suc n < fuel
          → run gateway_app client_app events fuel s ≡ some 0
      ends n zero s i never two enough = absurd (omega arith)
      ends n (suc zero) s i never two enough = absurd (omega arith)
      ends zero (suc (suc fuel)) s i never two enough =
          run_on (suc fuel) s i
          ∙ ap (run gateway_app client_app events (suc fuel)) (turn_two s two)
          ∙ run_exited fuel (update_apps gateway_app client_app events s)
      ends (suc n) (suc (suc fuel)) s i never two enough =
          run_on (suc fuel) s i
          ∙ ap (run gateway_app client_app events (suc fuel)) (turn_on s (never 0 (omega arith)))
          ∙ ends n (suc fuel) (update_apps gateway_app client_app events s) (IsRunning-on s on i)
              (λ k lt. never (suc k) (omega arith)) two (omega arith)

  -- Where neither application exits by itself and no turn brings the result of Bob's selection, as
  -- when that selection fails, the update loop of the test never ends, whatever else the turns
  -- bring.
  pub unselected_never_ends :
      (s : State)
      → GoesOn
      → IsRunning s
      → s.test ≡ new_test
      → ((n : ℕ) → All IsUnselected (delivered n s))
      → (fuel : ℕ) → run gateway_app client_app events fuel s ≡ none
  unselected_never_ends s on i e unselected zero = out_of_fuel s
  unselected_never_ends s on i e unselected (suc fuel) =
      run_waits fuel s on i (λ k _ two. apart k two)
    where
      apart : (k : ℕ) → count (suc k) s ≢ 2
      apart k two =
          let t = on_events (delivered (suc k) s) new_test in
          let alone =
            on_events-IsAlone (delivered (suc k) s) new_test (unselected (suc k))
              new_test-IsAlone in
          let same : (after (suc k) s).test ≡ t =
            after-delivered (suc k) s ∙ ap (on_events (delivered (suc k) s)) e in
          absurd (omega (arith, sym (ap (λ t. t.received_messages) same) ∙ two, alone.silent))
