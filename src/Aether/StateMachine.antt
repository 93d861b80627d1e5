-- ===== src/Aether/StateMachine.antt =====
-- ae::StateMachine<State>, which RequestServerStreamGetAction and GwSimTransportBuildAction hold:
-- a current state, and a mark that says whether it changed since it was last acquired.
use aether_gateway.Prelude.{◌≡◌, ◌≢◌, refl, Bool, true, false}

pub record StateMachine (S : Type 0) : Type 1 where
  pub M : Type 0
  pub start : S → M
  pub current : M → S
  pub changed : M → Bool
  -- `Acquire`: the state, and the machine with the mark cleared.
  pub acquire : M → S × M
  -- Assignment.
  pub set : S → M → M
  pub current-start : (s : S) → current (start s) ≡ s
  pub changed-start : (s : S) → changed (start s) ≡ true
  pub acquire_state : (m : M) → (acquire m).0 ≡ current m
  pub current-acquire : (m : M) → current (acquire m).1 ≡ current m
  pub changed-acquire : (m : M) → changed (acquire m).1 ≡ false
  pub current-set : (s : S) (m : M) → current (set s m) ≡ s
  pub changed-set : (s : S) (m : M) → s ≢ current m → changed (set s m) ≡ true

-- A state and a flag do all that is asked.
abbrev pub flagged : (S : Type 0) → StateMachine S
flagged S = record {
  M = S × Bool;
  start = λ s. (s, true);
  current = λ m. m.0;
  changed = λ m. m.1;
  acquire = λ m. (m.0, (m.0, false));
  set = λ s m. (s, true);
  current-start = λ s. refl;
  changed-start = λ s. refl;
  acquire_state = λ m. refl;
  current-acquire = λ m. refl;
  changed-acquire = λ m. refl;
  current-set = λ s m. refl;
  changed-set = λ s m _. refl;
}
