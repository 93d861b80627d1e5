-- ===== src/Aether/BufferStream.antt =====
-- ae::BufferStream<DataBuffer>, which GwStream and ServerStream keep and forward to: it takes writes
-- before and after it is tied to the stream below it.
use aether_gateway.Prelude.{ℕ, ◌≡◌, refl, List, [], ◌∷◌, ◌++◌}
use aether_gateway.Aether.{DataBuffer, LinkState, other_state}

pub record BufferStream : Type 1 where
  pub B : Type 0
  pub empty : B
  pub write : DataBuffer → B → B
  -- Tie(buffer, stream).
  pub tie : ℕ → B → B
  pub restream : B → B
  pub link_state : B → LinkState
  -- What has been written, oldest first.
  pub written : B → List DataBuffer
  pub written-empty : written empty ≡ []
  pub written-write : (d : DataBuffer) (b : B) → written (write d b) ≡ written b ++ d ∷ []
  pub written-tie : (h : ℕ) (b : B) → written (tie h b) ≡ written b
  pub written-restream : (b : B) → written (restream b) ≡ written b

-- A buffer that remembers what was written.
abbrev pub log_stream : BufferStream
log_stream = record {
  B = List DataBuffer;
  empty = [];
  write = λ d b. b ++ d ∷ [];
  tie = λ h b. b;
  restream = λ b. b;
  link_state = λ b. other_state 0;
  written = λ b. b;
  written-empty = refl;
  written-write = λ d b. refl;
  written-tie = λ h b. refl;
  written-restream = λ b. refl;
}
