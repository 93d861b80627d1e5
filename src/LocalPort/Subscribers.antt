-- ===== src/LocalPort/Subscribers.antt =====
-- The subscriptions that LocalPort::OpenStream pushes (libs/gateway/local_port.cpp).
use mathlib.Core.List.{append-nil}
use aether_gateway.Prelude.{ℕ, ◌≡◌, ◌≢◌, refl, List, [], ◌∷◌, ◌++◌, arith, ==_iff}
use aether_gateway.LocalPort.Keys.{Key}
use aether_gateway.LocalPort.{Subscribed, subscribers}

pub subscribers-append :
    (h : ℕ) (xs ys : List Subscribed)
    → subscribers h (xs ++ ys) ≡ subscribers h xs ++ subscribers h ys
unfolding subscribers
subscribers-append h [] ys = refl
subscribers-append h (x ∷ xs) ys = ground (arith, subscribers-append h xs ys)

-- A key that subscribes to a stream of its own.
pub subscribers-add_self :
    (h : ℕ) (key : Key) (xs : List Subscribed)
    → subscribers h xs ≡ []
    → subscribers h (xs ++ record { stream = h; key = key } ∷ []) ≡ key ∷ []
unfolding subscribers
subscribers-add_self h key xs e = rw (subscribers-append h xs _, e, (==_iff h h).1 refl)

pub subscribers-add_other :
    (h j : ℕ) (key : Key) (xs : List Subscribed)
    → h ≢ j
    → subscribers j (xs ++ record { stream = h; key = key } ∷ []) ≡ subscribers j xs
unfolding subscribers
subscribers-add_other h j key xs ne = ground (
  arith,
  subscribers-append j xs (record { stream = h; key = key } ∷ []),
  append-nil (subscribers j xs),
)
