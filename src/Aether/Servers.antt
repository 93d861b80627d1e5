-- ===== src/Aether/Servers.antt =====
-- Servers as the aether client library keeps them: Aether::GetServer and AddServer, the making and
-- registering of a Server object, and the servers of a Cloud (libs/aether is a submodule).
use aether_gateway.Prelude.{ℕ, ◌≡◌, ◌≢◌, List, [], ◌∷◌, ◌++◌, Option, none, some}
use aether_gateway.Aether.{Endpoint}

-- A Server::ptr: the object, and the two members that the gateway reads.
pub record Server : Type 0 where
  pub object : ℕ
  pub server_id : ℕ
  pub endpoints : List Endpoint

pub record AetherServers : Type 1 where
  pub A : Type 0
  pub get_server : ℕ → A → Option Server
  pub add_server : Server → A → A
  -- domain_->CreateObj<Server>(server_id, endpoints).
  pub create_server : ℕ → List Endpoint → A → Server × A
  -- server->Register(adapter_registry).
  pub register_server : Server → A → A
  -- gateway_cloud().AddServer(server), and what the cloud holds.
  pub cloud_add_server : Server → A → A
  pub cloud : A → List Server
  pub get_server_id : (id : ℕ) (a : A) (s : Server) → get_server id a ≡ some s → s.server_id ≡ id
  pub get-add_self :
      (s : Server) (a : A)
      → get_server s.server_id a ≡ none
      → get_server s.server_id (add_server s a) ≡ some s
  pub get-add_other :
      (s : Server) (a : A) (j : ℕ)
      → s.server_id ≢ j
      → get_server j (add_server s a) ≡ get_server j a
  pub created_id : (id : ℕ) (es : List Endpoint) (a : A) → (create_server id es a).0.server_id ≡ id
  pub created_endpoints :
      (id : ℕ) (es : List Endpoint) (a : A) → (create_server id es a).0.endpoints ≡ es
  pub get-create :
      (id : ℕ) (es : List Endpoint) (a : A) (j : ℕ)
      → get_server j (create_server id es a).1 ≡ get_server j a
  pub get-register :
      (s : Server) (a : A) (j : ℕ) → get_server j (register_server s a) ≡ get_server j a
  pub get-cloud_add :
      (s : Server) (a : A) (j : ℕ) → get_server j (cloud_add_server s a) ≡ get_server j a
  pub cloud-add : (s : Server) (a : A) → cloud (add_server s a) ≡ cloud a
  pub cloud-create :
      (id : ℕ) (es : List Endpoint) (a : A) → cloud (create_server id es a).1 ≡ cloud a
  pub cloud-register : (s : Server) (a : A) → cloud (register_server s a) ≡ cloud a
  pub cloud-cloud_add : (s : Server) (a : A) → cloud (cloud_add_server s a) ≡ cloud a ++ s ∷ []
