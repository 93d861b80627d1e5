-- ===== src/LocalPort/Interface.antt =====
-- What LocalPort needs of the streams that it opens: class GwStream (libs/gateway/gw_stream.h) with
-- the gateway behind it. A stream is named by a handle, the number of its creation, so that the name
-- of a destroyed stream is never used again.
use aether_gateway.Prelude.{ℕ, ◌≡◌, ◌≢◌, ◌≤◌, ◌<◌, List, [], ◌∷◌, ◌++◌, Option, none, some}
use aether_gateway.Aether.{DataBuffer, LinkState}
use aether_gateway.LocalPort.Keys.{ServeKind}

pub record GwStreams : Type 1 where
  -- The gateway, its streams and the clock.
  pub World : Type 0
  pub now : World → ℕ
  -- Handles from here on are not used yet.
  pub fresh : World → ℕ
  -- std::make_unique<GwStream>(gateway, server).
  pub make : ServeKind → World → ℕ × World
  -- The end of the unique_ptr.
  pub destroy : ℕ → World → World
  pub write : ℕ → DataBuffer → World → World
  pub link_state : ℕ → World → LinkState
  -- The server that a stream was made for, while the stream exists.
  pub serves : World → ℕ → Option ServeKind
  -- What has been written to a stream, oldest first.
  pub written : World → ℕ → List DataBuffer
  pub fresh-make : (s : ServeKind) (w : World) → fresh w ≤ (make s w).0
  pub fresh-make_grows : (s : ServeKind) (w : World) → (make s w).0 < fresh (make s w).1
  pub fresh-destroy : (h : ℕ) (w : World) → fresh w ≤ fresh (destroy h w)
  pub fresh-write : (h : ℕ) (d : DataBuffer) (w : World) → fresh w ≤ fresh (write h d w)
  pub serves-make_self : (s : ServeKind) (w : World) → serves (make s w).1 (make s w).0 ≡ some s
  pub serves-make_other :
      (s : ServeKind) (w : World) (j : ℕ) → j ≢ (make s w).0 → serves (make s w).1 j ≡ serves w j
  pub serves-destroy_self : (h : ℕ) (w : World) → serves (destroy h w) h ≡ none
  pub serves-destroy_other :
      (h : ℕ) (w : World) (j : ℕ) → j ≢ h → serves (destroy h w) j ≡ serves w j
  pub serves-write :
      (h : ℕ) (d : DataBuffer) (w : World) (j : ℕ) → serves (write h d w) j ≡ serves w j
  pub written-make_self : (s : ServeKind) (w : World) → written (make s w).1 (make s w).0 ≡ []
  pub written-make_other :
      (s : ServeKind) (w : World) (j : ℕ) → j ≢ (make s w).0 → written (make s w).1 j ≡ written w j
  pub written-write_self :
      (h : ℕ) (d : DataBuffer) (w : World) (s : ServeKind)
      → serves w h ≡ some s
      → written (write h d w) h ≡ written w h ++ d ∷ []
  pub written-destroy_other :
      (h : ℕ) (w : World) (j : ℕ) → j ≢ h → written (destroy h w) j ≡ written w j
  pub written-write_other :
      (h : ℕ) (d : DataBuffer) (w : World) (j : ℕ) → j ≢ h → written (write h d w) j ≡ written w j
