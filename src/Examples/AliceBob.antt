-- ===== src/Examples/AliceBob.antt =====
-- Alice and Bob over a client application that calls back what a script says.
use aether_gateway.Prelude.{
  ℕ, zero, suc, ◌≡◌, refl, true, false, List, [], ◌∷◌, ◌++◌, Option, none, some, All,
}
use aether_gateway.Server.{AetherApp}
use aether_gateway.Simulator.AliceBob.{
  Event, alice_selected, bob_selected, comm, alice_data, bob_data, Test, new_test, on_events, Apps,
  update_apps, run,
}
use aether_gateway.Simulator.AliceBob.Talk.{IsUnselected}
use aether_gateway.Simulator.AliceBob.Loop.{GoesOn, delivered, unselected_never_ends}
use aether_gateway.Examples.Server.{application}

record Script : Type 0 where
  turns : List (List Event)
  code : Option ℕ

abbrev next_events : List (List Event) → List Event
next_events [] = []
next_events (es ∷ ess) = es

abbrev rest : List (List Event) → List (List Event)
rest [] = []
rest (es ∷ ess) = ess

abbrev scripted : AetherApp
scripted = record {
  S = Script;
  is_exited = λ s. elim s.code [ none ↦ false | some _ ↦ true ];
  exit = λ code s. record s { code = some code };
  exit_code = λ s. elim s.code [ none ↦ 1 | some code ↦ code ];
  now = λ s. 0;
  update = λ t s. (t, record s { turns = rest s.turns });
  wait_until = λ t s. s;
  is_exited-exit = λ code s. refl;
  exit_code-exit = λ code s. refl;
}

abbrev events : ℕ → Script → List Event
events t s = next_events s.turns

goes_on : GoesOn application scripted events
goes_on = record {
  gateway_update = λ t s e. e;
  gateway_wait = λ t s e. e;
  client_update = λ t s e. e;
}

abbrev begin : List (List Event) → Apps application scripted events
begin turns = record {
  gateway = none;
  client = record { turns = turns; code = none };
  test = new_test;
}

-- Both are selected in the first turn, Bob hears Alice in the second, and Alice hears Bob in the third.
abbrev selections : List Event
selections = alice_selected 1 ∷ comm ∷ bob_selected 2 ∷ []

abbrev talk : Apps application scripted events
talk =
    begin ((selections ++ comm ∷ []) ∷ (bob_data (3 ∷ []) ∷ []) ∷ (alice_data (4 ∷ []) ∷ []) ∷ [])

-- Bob's selection fails, and nothing tells the test.
abbrev alone : Apps application scripted events
alone = begin ((alice_selected 1 ∷ comm ∷ []) ∷ (comm ∷ []) ∷ [])

silence :
    (n : ℕ) (t : Test)
    → All IsUnselected (delivered application scripted events n (record (begin []) { test = t }))
unfolding update_apps
silence zero t = tt
silence (suc n) t = silence n (on_events [] t)

unselected : (n : ℕ) → All IsUnselected (delivered application scripted events n alone)
unfolding update_apps
unselected zero = tt
unselected (suc zero) = (tt, (tt, tt))
unselected (suc (suc n)) = (tt, (tt, (tt, silence n _)))

unselected_never_ends_example : run application scripted events 100 alone ≡ none
unselected_never_ends_example =
    unselected_never_ends application scripted events alone goes_on (refl, refl) refl unselected 100
