-- ===== src/Examples/Servers.antt =====
-- The library's servers as two lists: those known by an id, and those of the cloud.
use aether_gateway.Prelude.{
  ℕ, ◌+◌, ◌≡◌, refl, List, [], ◌∷◌, ◌++◌, Option, none, some, arith, ◌==◌, ==_iff, if◌then◌else◌,
}
use aether_gateway.Aether.Servers.{Server, AetherServers}

pub record Registry : Type 0 where
  pub known : List Server
  pub in_cloud : List Server
  pub next_object : ℕ

abbrev lookup : ℕ → List Server → Option Server
lookup id [] = none
lookup id (s ∷ ss) = let rest = lookup id ss in if s.server_id == id then some s else rest

pub lookup_id : (id : ℕ) (ss : List Server) (s : Server) → lookup id ss ≡ some s → s.server_id ≡ id
lookup_id id [] s e = cc
lookup_id id (x ∷ ss) s e = ground (arith, lookup_id id ss s)

abbrev pub servers : AetherServers
servers = record {
  A = Registry;
  get_server = λ id a. lookup id a.known;
  add_server = λ s a. record a { known = s ∷ a.known };
  create_server = λ id es a. (
    record { object = a.next_object; server_id = id; endpoints = es },
    record a { next_object = a.next_object + 1 },
  );
  register_server = λ s a. a;
  cloud_add_server = λ s a. record a { in_cloud = a.in_cloud ++ s ∷ [] };
  cloud = λ a. a.in_cloud;
  get_server_id = λ id a s e. lookup_id id a.known s e;
  get-add_self = λ s a e. rw ((==_iff s.server_id s.server_id).1 refl);
  get-add_other = λ s a j ne. ground arith;
  created_id = λ id es a. refl;
  created_endpoints = λ id es a. refl;
  get-create = λ id es a j. refl;
  get-register = λ s a j. refl;
  get-cloud_add = λ s a j. refl;
  cloud-add = λ s a. refl;
  cloud-create = λ id es a. refl;
  cloud-register = λ s a. refl;
  cloud-cloud_add = λ s a. refl;
}

-- A gateway that knows server 5, and nothing else.
abbrev pub server_five : Server
server_five = record { object = 0; server_id = 5; endpoints = [] }

abbrev pub registry : Registry
registry = record { known = server_five ∷ []; in_cloud = []; next_object = 1 }
