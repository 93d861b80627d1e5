-- ===== src/Examples/Server.antt =====
-- An application that only remembers its exit code.
use aether_gateway.Prelude.{ℕ, ◌≡◌, refl, true, false, Option, none, some}
use aether_gateway.Server.{AetherApp, serve}
use aether_gateway.Server.Loop.{serve_ends}

abbrev pub application : AetherApp
application = record {
  S = Option ℕ;
  is_exited = λ s. elim s [ none ↦ false | some _ ↦ true ];
  exit = λ code s. some code;
  exit_code = λ s. elim s [ none ↦ 1 | some code ↦ code ];
  now = λ s. 0;
  update = λ t s. (t, s);
  wait_until = λ t s. s;
  is_exited-exit = λ code s. refl;
  exit_code-exit = λ code s. refl;
}

serve_ends_example : serve application 2 none ≡ some 0
serve_ends_example = serve_ends application 0 none
