-- ===== src/ServerStreams/Building.antt =====
-- ServerStreamManager::BuildServer (libs/gateway/server_stream_manager.cpp).
use aether_gateway.Prelude.{
  ℕ, ◌≡◌, ◌≢◌, ◌∙◌, ap, sym, false, [], ◌∷◌, ◌++◌, none, some, arith, inl, inr, Option-cases, ◌==◌,
  ℕ_discrete,
}
use aether_gateway.Aether.{ServerEndpoints}
use aether_gateway.Aether.Servers.{Server, AetherServers}
use aether_gateway.ServerStreams.{build_server}

module _ (aether : AetherServers) where
  open aether use {
    A, get_server, add_server, create_server, register_server, cloud_add_server, cloud,
  }

  nonzero : (id : ℕ) → id ≢ 0 → (id == 0) ≡ false
  nonzero id ne = ground arith

  -- A server that the application knows by its id is used as it is: nothing is made, registered or
  -- added, whatever endpoints came with it.
  pub build_server_known :
      (id : ℕ) (es : ServerEndpoints) (a : A) (s : Server)
      → id ≢ 0
      → get_server id a ≡ some s
      → build_server aether id es a ≡ (s, a)
  unfolding build_server
  build_server_known id es a s ne e = rw (nonzero id ne, e)

  -- What stands in the library's state before the server is added under its id.
  abbrev made : ℕ → ServerEndpoints → A → A
  made id es a =
      let (server, a') = create_server id es.endpoints a in
      cloud_add_server server (register_server server a')

  get-made :
      (id : ℕ) (es : ServerEndpoints) (a : A) (j : ℕ) → get_server j (made id es a) ≡ get_server j a
  get-made id es a j =
      aether.get-cloud_add _ _ j ∙ aether.get-register _ _ j ∙ aether.get-create id es.endpoints a j

  cloud-made :
      (id : ℕ) (es : ServerEndpoints) (a : A)
      → cloud (made id es a) ≡ cloud a ++ (create_server id es.endpoints a).0 ∷ []
  cloud-made id es a =
      aether.cloud-cloud_add _ _
      ∙ ap (λ l. l ++ (create_server id es.endpoints a).0 ∷ [])
          (aether.cloud-register _ _ ∙ aether.cloud-create id es.endpoints a)

  build_server_unknown :
      (id : ℕ) (es : ServerEndpoints) (a : A)
      → id ≢ 0
      → get_server id a ≡ none
      → build_server aether id es a ≡ (
        (create_server id es.endpoints a).0,
        add_server (create_server id es.endpoints a).0 (made id es a),
      )
  unfolding build_server
  build_server_unknown id es a ne e = rw (nonzero id ne, e) (rw (nonzero id ne))

  -- BuildServer for an id that is not 0 and not known makes the server from the endpoints and adds
  -- it once to the gateway's cloud; it is known under its id from then on, and the other ids keep
  -- their servers.
  pub build_server_new :
      (id : ℕ) (es : ServerEndpoints) (a : A)
      → id ≢ 0
      → get_server id a ≡ none
      → let (s, a') = build_server aether id es a in
        (s.server_id ≡ id)
        × (s.endpoints ≡ es.endpoints)
        × (cloud a' ≡ cloud a ++ s ∷ [])
        × (get_server id a' ≡ some s)
        × ((j : ℕ) → id ≢ j → get_server j a' ≡ get_server j a)
  build_server_new id es a ne e =
      let q = build_server_unknown id es a ne e in
      let i = aether.created_id id es.endpoints a in
      let s = (create_server id es.endpoints a).0 in
      (
        rw q i,
        rw q (aether.created_endpoints id es.endpoints a),
        rw q (aether.cloud-add _ _ ∙ cloud-made id es a),
        rw q (
            ap (λ j. get_server j (add_server s (made id es a))) (sym i)
            ∙ aether.get-add_self s (made id es a)
                (get-made id es a s.server_id ∙ ap (λ j. get_server j a) i ∙ e)),
        λ j ne'.
            rw q
              (aether.get-add_other s (made id es a) j (λ r. ne' (sym i ∙ r)) ∙ get-made id es a j),
      )

  -- BuildServer for an id that is not 0, called again for that id with any endpoints, gives the
  -- same server and changes nothing.
  pub build_server_twice :
      (id : ℕ) (es fs : ServerEndpoints) (a : A)
      → id ≢ 0
      → let (s, a') = build_server aether id es a in build_server aether id fs a' ≡ (s, a')
  build_server_twice id es fs a ne = elim (Option-cases (get_server id a)) [
    | inl e ↦ build_server_known id fs _ _ ne (build_server_new id es a ne e).3
    | inr (s, e) ↦ rw (build_server_known id es a s ne e) (build_server_known id fs a s ne e)
  ]

  -- Endpoints that come with no id make a server of their own each time: it has id 0 and these
  -- endpoints, joins the gateway's cloud, and is not known under any id that was not known before.
  pub build_server_by_endpoints :
      (es : ServerEndpoints) (a : A)
      → let (s, a') = build_server aether 0 es a in
        (s.server_id ≡ 0)
        × (s.endpoints ≡ es.endpoints)
        × (cloud a' ≡ cloud a ++ s ∷ [])
        × ((j : ℕ) → get_server j a' ≡ get_server j a)
  unfolding build_server
  build_server_by_endpoints es a = (
    aether.created_id 0 es.endpoints a,
    aether.created_endpoints 0 es.endpoints a,
    cloud-made 0 es a,
    λ j. get-made 0 es a j,
  )

  -- Whatever branch it takes, BuildServer returns a server with the id asked for.
  pub build_server_id :
      (id : ℕ) (es : ServerEndpoints) (a : A) → (build_server aether id es a).0.server_id ≡ id
  build_server_id id es a = elim (ℕ_discrete id 0) [
    | yes z ↦ rw z (build_server_by_endpoints es a).0
    | no ne ↦ elim (Option-cases (get_server id a)) [
      | inl e ↦ (build_server_new id es a ne e).0
      | inr (s, e) ↦ rw (build_server_known id es a s ne e) (aether.get_server_id id a s e)
    ]
  ]
