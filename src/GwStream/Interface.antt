-- ===== src/GwStream/Interface.antt =====
-- What LocalPort asks of its streams, filled by GwStream with the manager behind it
-- (libs/gateway/gw_stream.cpp).
use mathlib.Core.Option
use aether_gateway.Prelude.{
  ℕ, ◌≡◌, ◌≢◌, ◌≤◌, ◌<◌, ◌∙◌, refl, sym, ap, true, false, Bool, List, [], ◌∷◌, ◌++◌, Option, none,
  some, arith, if◌then◌else◌, ◌||◌,
}
use aether_gateway.Map.{Map, find, erase, nat_order, equiv}
use aether_gateway.Map.Laws.{
  find-erase, find-erase_other, find-modify, find-modify_other, equiv_refl, equiv_of_ne,
}
use aether_gateway.Aether.{DataBuffer}
use aether_gateway.Aether.StateMachine.{StateMachine}
use aether_gateway.Aether.Servers.{AetherServers}
use aether_gateway.Aether.BufferStream.{BufferStream}
use aether_gateway.LocalPort.Keys.{ServeKind}
use aether_gateway.LocalPort.Interface.{GwStreams}
use aether_gateway.ServerStreams.{RequestState, let_go}
use aether_gateway.GwStream.{
  GwStream, World, new_gw_stream, delete_gw_stream, write, link_state, release, held_by_actions,
  held_by_streams, stream_of,
}

module _ (aether : AetherServers) (sm : StateMachine RequestState) (bs : BufferStream) where
  abbrev pub W : Type 0
  W = World aether sm bs

  abbrev pub G : Type 0
  G = GwStream aether sm bs

  abbrev buffered : DataBuffer → G → G
  buffered d s = record s { buffer_stream = bs.write d s.buffer_stream }

  abbrev pub server_in : Option G → Option ServeKind
  server_in none = none
  server_in (some s) = some s.server

  abbrev pub written_in : Option G → List DataBuffer
  written_in none = []
  written_in (some s) = bs.written s.buffer_stream

  abbrev pub serves : W → ℕ → Option ServeKind
  serves w h = server_in (find h w.gw_streams)

  abbrev pub written : W → ℕ → List DataBuffer
  written w h = written_in (find h w.gw_streams)

  abbrev pub make : ServeKind → W → ℕ × W
  make server w = new_gw_stream aether sm bs server w

  pub fresh-make : (s : ServeKind) (w : W) → w.next_handle ≤ (make s w).0
  unfolding new_gw_stream
  fresh-make s w = omega arith

  pub fresh-make_grows : (s : ServeKind) (w : W) → (make s w).0 < (make s w).1.next_handle
  unfolding new_gw_stream
  fresh-make_grows s w = omega arith

  find_made :
      (h j : ℕ) (s : G) (m : Map ℕ G)
      → h ≢ j
      → (find h ((h, s) ∷ m) ≡ some s) × (find j ((h, s) ∷ m) ≡ find j m)
  unfolding find
  find_made h j s m ne = (rw (equiv_refl h), rw (equiv_of_ne h j ne))

  pub find_made_self : (h : ℕ) (s : G) (m : Map ℕ G) → find h ((h, s) ∷ m) ≡ some s
  unfolding find
  find_made_self h s m = rw (equiv_refl h)

  pub serves-make_self : (s : ServeKind) (w : W) → serves (make s w).1 (make s w).0 ≡ some s
  unfolding new_gw_stream
  serves-make_self s w = ap server_in (find_made_self w.next_handle _ w.gw_streams)

  pub serves-make_other :
      (s : ServeKind) (w : W) (j : ℕ) → j ≢ (make s w).0 → serves (make s w).1 j ≡ serves w j
  unfolding new_gw_stream
  serves-make_other s w j ne =
      ap server_in (find_made w.next_handle j _ w.gw_streams (λ e. ne (sym e))).1

  pub written-make_self : (s : ServeKind) (w : W) → written (make s w).1 (make s w).0 ≡ []
  unfolding new_gw_stream
  written-make_self s w =
      ap written_in (find_made_self w.next_handle _ w.gw_streams) ∙ bs.written-empty

  pub written-make_other :
      (s : ServeKind) (w : W) (j : ℕ) → j ≢ (make s w).0 → written (make s w).1 j ≡ written w j
  unfolding new_gw_stream
  written-make_other s w j ne =
      ap written_in (find_made w.next_handle j _ w.gw_streams (λ e. ne (sym e))).1

  -- Letting a server stream go changes the manager alone.
  pub release_keeps :
      (k : Option ℕ) (w : W)
      → ((release aether sm bs k w).gw_streams ≡ w.gw_streams)
        × ((release aether sm bs k w).next_handle ≡ w.next_handle)
  unfolding release
  release_keeps none w = (refl, refl)
  release_keeps (some k) w =
      branch
        (held_by_actions aether sm bs k w.actions || held_by_streams aether sm bs k w.gw_streams)
    where
      branch :
          (held : Bool)
          → ((if held then w else record w { manager = let_go aether k w.manager }).gw_streams
              ≡ w.gw_streams)
            × ((if held then w else record w { manager = let_go aether k w.manager }).next_handle
                ≡ w.next_handle)
      branch true = (refl, refl)
      branch false = (refl, refl)

  streams_after_delete :
      (h : ℕ) (w : W) → (delete_gw_stream aether sm bs h w).gw_streams ≡ erase h w.gw_streams
  unfolding delete_gw_stream
  streams_after_delete h w =
      (release_keeps (stream_of aether sm bs (find h w.gw_streams))
        (record w { gw_streams = erase h w.gw_streams })).0

  pub fresh-delete :
      (h : ℕ) (w : W) → w.next_handle ≤ (delete_gw_stream aether sm bs h w).next_handle
  unfolding delete_gw_stream
  fresh-delete h w = omega (
    arith,
    (release_keeps (stream_of aether sm bs (find h w.gw_streams))
        (record w { gw_streams = erase h w.gw_streams })).1,
  )

  pub serves-delete_self : (h : ℕ) (w : W) → serves (delete_gw_stream aether sm bs h w) h ≡ none
  serves-delete_self h w = rw (streams_after_delete h w, find-erase h h w.gw_streams, equiv_refl h)

  pub serves-delete_other :
      (h : ℕ) (w : W) (j : ℕ) → j ≢ h → serves (delete_gw_stream aether sm bs h w) j ≡ serves w j
  serves-delete_other h w j ne =
      rw (streams_after_delete h w)
        (ap server_in (find-erase_other j h w.gw_streams (λ e. ne (sym e))))

  pub written-delete_other :
      (h : ℕ) (w : W) (j : ℕ) → j ≢ h → written (delete_gw_stream aether sm bs h w) j ≡ written w j
  written-delete_other h w j ne =
      rw (streams_after_delete h w)
        (ap written_in (find-erase_other j h w.gw_streams (λ e. ne (sym e))))

  pub fresh-write :
      (h : ℕ) (d : DataBuffer) (w : W) → w.next_handle ≤ (write aether sm bs h d w).next_handle
  unfolding write
  fresh-write h d w = omega arith

  -- A write at a handle, as `find` sees it.
  find_written :
      (h j : ℕ) (d : DataBuffer) (w : W)
      → find j (write aether sm bs h d w).gw_streams
        ≡ (if equiv h j then Option.map (buffered d) (find j w.gw_streams) else find j w.gw_streams)
  unfolding write
  find_written h j d w = find-modify j h _ w.gw_streams

  pub serves-write :
      (h : ℕ) (d : DataBuffer) (w : W) (j : ℕ) → serves (write aether sm bs h d w) j ≡ serves w j
  serves-write h d w j =
      ap server_in (find_written h j d w) ∙ kept (equiv h j) (find j w.gw_streams)
    where
      kept :
          (same : Bool) (o : Option G)
          → server_in (if same then Option.map (buffered d) o else o) ≡ server_in o
      kept true none = refl
      kept true (some s) = refl
      kept false o = refl

  pub written-write_self :
      (h : ℕ) (d : DataBuffer) (w : W) (server : ServeKind)
      → serves w h ≡ some server
      → written (write aether sm bs h d w) h ≡ written w h ++ d ∷ []
  written-write_self h d w server e =
      ap written_in (find_written h h d w) ∙ rw (equiv_refl h) (appended (find h w.gw_streams) e)
    where
      appended :
          (o : Option G)
          → server_in o ≡ some server
          → written_in (Option.map (buffered d) o) ≡ written_in o ++ d ∷ []
      appended none e = cc
      appended (some s) e = bs.written-write d s.buffer_stream

  pub written-write_other :
      (h : ℕ) (d : DataBuffer) (w : W) (j : ℕ)
      → j ≢ h
      → written (write aether sm bs h d w) j ≡ written w j
  unfolding write
  written-write_other h d w j ne =
      ap written_in (find-modify_other j h _ w.gw_streams (λ e. ne (sym e)))

-- The streams of a gateway.
abbrev pub gateway_streams : AetherServers → StateMachine RequestState → BufferStream → GwStreams
gateway_streams aether sm bs = record {
  World = World aether sm bs;
  now = λ w. w.clock;
  fresh = λ w. w.next_handle;
  make = new_gw_stream aether sm bs;
  destroy = delete_gw_stream aether sm bs;
  write = write aether sm bs;
  link_state = link_state aether sm bs;
  serves = serves aether sm bs;
  written = written aether sm bs;
  fresh-make = fresh-make aether sm bs;
  fresh-make_grows = fresh-make_grows aether sm bs;
  fresh-destroy = fresh-delete aether sm bs;
  fresh-write = fresh-write aether sm bs;
  serves-make_self = serves-make_self aether sm bs;
  serves-make_other = serves-make_other aether sm bs;
  serves-destroy_self = serves-delete_self aether sm bs;
  serves-destroy_other = serves-delete_other aether sm bs;
  serves-write = serves-write aether sm bs;
  written-make_self = written-make_self aether sm bs;
  written-make_other = written-make_other aether sm bs;
  written-write_self = written-write_self aether sm bs;
  written-destroy_other = written-delete_other aether sm bs;
  written-write_other = written-write_other aether sm bs;
}
