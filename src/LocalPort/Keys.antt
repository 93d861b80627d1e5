-- ===== src/LocalPort/Keys.antt =====
-- LocalPort::Key and LocalPort::ServeKind (libs/gateway/local_port.h), the key's constructor and
-- its operator< (libs/gateway/local_port.cpp).
use aether_gateway.Prelude.{ℕ, ◌%◌, ◌^◌, ◌≡◌, ◌↔◌, Bool, true, false, ◌&&◌, ◌||◌, not, arith, ltb}
use aether_gateway.Aether.{ServerEndpoints}
use aether_gateway.Map.{Order, equiv}

-- std::variant<ServerId, ServerEndpoints>.
pub data ServeKind : Type 0 where
  by_id : ℕ → ServeKind
  by_endpoints : ServerEndpoints → ServeKind

pub record Key : Type 0 where
  pub device_id : ℕ  -- uint8
  pub client_id : ℕ
  pub server_identity : ℕ  -- uint32

-- The visitor of the constructor: the id, or the hash of the endpoints, cast to 32 bits. An id is the
-- library's and a natural number here; how wide it is the source does not show.
unfoldable pub server_identity : (ServerEndpoints → ℕ) → ServeKind → ℕ
server_identity hash (by_id server) = server % 2 ^ 32
server_identity hash (by_endpoints endpoints) = hash endpoints % 2 ^ 32

unfoldable pub make_key : (ServerEndpoints → ℕ) → ℕ → ℕ → ServeKind → Key
make_key hash did cid server = record {
  device_id = did;
  client_id = cid;
  server_identity = server_identity hash server;
}

-- The comparison of two std::tuple: by the first component that differs.
unfoldable pub key_lt : Key → Key → Bool
key_lt a b =
    ltb a.device_id b.device_id
    || (not (ltb b.device_id a.device_id)
        && (ltb a.client_id b.client_id
            || (not (ltb b.client_id a.client_id) && ltb a.server_identity b.server_identity)))

pub key_lt_irrefl : (a : Key) → key_lt a a ≡ false
unfolding key_lt
key_lt_irrefl a = ground arith

pub key_lt_connected : (a b : Key) → key_lt a b ≡ false → key_lt b a ≡ false → a ≡ b
unfolding key_lt
key_lt_connected a b p q = ground arith

-- operator< of two keys is transitive and asymmetric.
pub key_lt_trans :
    (a b c : Key)
    → key_lt a b ≡ true
    → key_lt b c ≡ true
    → (key_lt a c ≡ true) × (key_lt b a ≡ false)
unfolding key_lt
key_lt_trans a b c p q = (ground arith, ground arith)

instance abbrev pub key_order : Order Key
key_order = record { lt = key_lt; lt_irrefl = key_lt_irrefl; lt_connected = key_lt_connected }

-- Two keys are one entry of the map exactly when device, client and server identity all agree.
pub equiv-key_iff :
    (a b : Key)
    → (equiv a b ≡ true) ↔ (
        (a.device_id ≡ b.device_id)
        × (a.client_id ≡ b.client_id)
        × (a.server_identity ≡ b.server_identity))
unfolding key_lt
equiv-key_iff a b = (λ h. ground arith, λ h. ground arith)
