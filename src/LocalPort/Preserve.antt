-- ===== src/LocalPort/Preserve.antt =====
-- The operations of LocalPort and its invariant (libs/gateway/local_port.cpp).
use aether_gateway.Prelude.{
  ℕ, ◌≡◌, ◌≢◌, sym, ◌∙◌, some, arith, ◌⊎◌, inl, inr, Option-cases, Bool-cases,
}
use aether_gateway.Map.{find, erase}
use aether_gateway.Map.Laws.{find-emplace-some, find-erase-some}
use aether_gateway.Aether.{DataBuffer, ServerEndpoints}
use aether_gateway.LocalPort.Keys.{ServeKind, Key, server_identity, key_order}
use aether_gateway.LocalPort.Interface.{GwStreams}
use aether_gateway.LocalPort.{
  LocalPort, StreamStore, add_stream, open_stream, stream_state, is_link_error,
}
use aether_gateway.LocalPort.Subscribers.{subscribers-add_self, subscribers-add_other}
use aether_gateway.LocalPort.Invariant.{
  IsStored, IsValid, stored-lt-fresh, stream-injective, touch-IsValid,
}

module _ (g : GwStreams) (hash : ServerEndpoints → ℕ) where
  open g use {World, make, destroy, link_state}

  -- An entry outlives the making of another stream.
  add_stream_old :
      (key : Key) (server : ServeKind) (p : LocalPort) (w : World) (k : Key) (st : StreamStore)
      → IsValid g hash p w
      → find k p.stream_store ≡ some st
      → IsStored g hash (add_stream g key server p w).1 (add_stream g key server p w).2 k st
  unfolding add_stream
  add_stream_old key server p w k st v e =
      let s = v.stored k st e in
      let lt = stored-lt-fresh g hash p w k st v e in
      let le = g.fresh-make server w in
      let ne : (make server w).0 ≢ st.stream = omega arith in
      record {
        served = g.serves-make_other server w st.stream (omega arith) ∙ s.served;
        keyed = s.keyed;
        routed = subscribers-add_other _ _ key _ ne ∙ s.routed;
        watched = subscribers-add_other _ _ key _ ne ∙ s.watched;
      }

  -- So is the new entry.
  add_stream_new :
      (key : Key) (server : ServeKind) (p : LocalPort) (w : World)
      → IsValid g hash p w
      → server_identity hash server ≡ key.server_identity
      → IsStored g hash
          (add_stream g key server p w).1
          (add_stream g key server p w).2
          key
          (record { last_used = 0; server = server; stream = (make server w).0 })
  unfolding add_stream
  add_stream_new key server p w v same = record {
    served = g.serves-make_self server w;
    keyed = same;
    routed = subscribers-add_self _ key _ (v.unheard _ (g.fresh-make server w));
    watched = subscribers-add_self _ key _ (v.unwatched _ (g.fresh-make server w));
  }

  add_stream_found :
      (key k : Key) (server : ServeKind) (p : LocalPort) (w : World) (st : StreamStore)
      → find k (add_stream g key server p w).1.stream_store ≡ some st
      → (find k p.stream_store ≡ some st)
        ⊎ ((key ≡ k) × (st ≡ record { last_used = 0; server = server; stream = (make server w).0 }))
  unfolding add_stream
  add_stream_found key k server p w st e = find-emplace-some k key _ st p.stream_store e

  pub add_stream-IsValid :
      (key : Key) (server : ServeKind) (p : LocalPort) (w : World)
      → IsValid g hash p w
      → server_identity hash server ≡ key.server_identity
      → IsValid g hash (add_stream g key server p w).1 (add_stream g key server p w).2
  unfolding add_stream
  add_stream-IsValid key server p w v same =
      let grows = g.fresh-make_grows server w in
      let le = g.fresh-make server w in
      record {
        stored = λ k st e. elim (add_stream_found key k server p w st e) [
          | inl f ↦ add_stream_old key server p w k st v f
          | inr (q, r) ↦ rw (r, ← q) (add_stream_new key server p w v same)
        ];
        unheard = λ h le'.
            subscribers-add_other _ h key p.out_data_subs (omega arith) ∙ v.unheard h (omega arith);
        unwatched = λ h le'.
            subscribers-add_other _ h key p.update_stream_subs (omega arith)
            ∙ v.unwatched h (omega arith);
      }

  pub open_stream-IsValid :
      (key : Key) (server : ServeKind) (p : LocalPort) (w : World)
      → IsValid g hash p w
      → server_identity hash server ≡ key.server_identity
      → IsValid g hash (open_stream g key server p w).1 (open_stream g key server p w).2
  unfolding open_stream
  open_stream-IsValid key server p w v same = elim (Option-cases (find key p.stream_store)) [
    | inr (st, e) ↦ rw (e, open_stream) (touch-IsValid g hash key w p w v)
    | inl e ↦
        rw (e, open_stream)
          (touch-IsValid g hash key _ _ _ (add_stream-IsValid key server p w v same))
  ]

  pub write-IsValid :
      (h : ℕ) (d : DataBuffer) (p : LocalPort) (w : World)
      → IsValid g hash p w
      → IsValid g hash p (g.write h d w)
  write-IsValid h d p w v =
      let le = g.fresh-write h d w in
      record {
        stored = λ k st e.
            let s = v.stored k st e in
            record {
              served = g.serves-write h d w st.stream ∙ s.served;
              keyed = s.keyed;
              routed = s.routed;
              watched = s.watched;
            };
        unheard = λ j le'. v.unheard j (omega arith);
        unwatched = λ j le'. v.unwatched j (omega arith);
      }

  -- The entry of a broken link goes, and its stream with it.
  drop-IsValid :
      (key : Key) (p : LocalPort) (w : World) (st : StreamStore)
      → IsValid g hash p w
      → find key p.stream_store ≡ some st
      → IsValid g hash (record p { stream_store = erase key p.stream_store }) (destroy st.stream w)
  drop-IsValid key p w st v e =
      let le = g.fresh-destroy st.stream w in
      record {
        stored = λ k su f. drop_stored k su f;
        unheard = λ j le'. v.unheard j (omega arith);
        unwatched = λ j le'. v.unwatched j (omega arith);
      }
    where
      drop_stored :
          (k : Key) (su : StreamStore)
          → find k (erase key p.stream_store) ≡ some su
          → IsStored g hash
              (record p { stream_store = erase key p.stream_store })
              (destroy st.stream w)
              k
              su
      drop_stored k su f =
          let (ne, old) = find-erase-some k key su p.stream_store f in
          let s = v.stored k su old in
          record {
            served =
                g.serves-destroy_other st.stream w su.stream
                  (λ q. ne (stream-injective g hash p w key k st su v e old (sym q)))
                ∙ s.served;
            keyed = s.keyed;
            routed = s.routed;
            watched = s.watched;
          }

  pub stream_state-IsValid :
      (key : Key) (p : LocalPort) (w : World)
      → IsValid g hash p w
      → IsValid g hash (stream_state g key p w).0 (stream_state g key p w).1
  unfolding stream_state
  stream_state-IsValid key p w v = elim (Option-cases (find key p.stream_store)) [
    | inl e ↦ rw (e, stream_state) v
    | inr (st, e) ↦ elim (Bool-cases (is_link_error (link_state st.stream w))) [
      | inl bad ↦ rw (e, stream_state, bad) (drop-IsValid key p w st v e)
      | inr good ↦ rw (e, stream_state, good) v
    ]
  ]
