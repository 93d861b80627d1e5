-- ===== src/Server/Loop.antt =====
-- The application loop of AetherGatewayServer (src/gateway_server.cpp).
use aether_gateway.Prelude.{ℕ, suc, ◌≡◌, ◌∙◌, ap, true, some, Bool-cases, inl, inr, if◌then◌else◌}
use aether_gateway.Server.{AetherApp, serve}

module _ (app : AetherApp) where
  open app use {S, is_exited, exit, exit_code}

  exited : (fuel : ℕ) (s : S) → is_exited s ≡ true → serve app (suc fuel) s ≡ some (exit_code s)
  unfolding serve
  exited fuel s e = rw (e, serve)

  -- The application loop ends in its second test at the latest: with the exit code of an
  -- application that has exited, and with code 0 for any other.
  pub serve_ends :
      (fuel : ℕ) (s : S)
      → serve app (suc (suc fuel)) s ≡ some (if is_exited s then exit_code s else 0)
  unfolding serve
  serve_ends fuel s = elim (Bool-cases (is_exited s)) [
    | inl e ↦ rw (e, serve)
    | inr e ↦
        rw (e, serve)
          (exited fuel (exit 0 s) (app.is_exited-exit 0 s) ∙ ap some (app.exit_code-exit 0 s))
  ]
