-- ===== src/Gateway/Accessors.antt =====
-- The accessors of Gateway always return the same objects (libs/gateway/gateway.cpp).
use aether_gateway.Prelude.{
  get_elem?, All-get_elem?, ℕ, ◌+◌, ◌≡◌, ◌<◌, ◌↔◌, ◌⊎◌, ◌∙◌, subst, refl, sym, ap, List, [], ◌∷◌,
  Option, none, some, arith, All, Option-cases, inl, inr,
}
use aether_gateway.Gateway.{
  Gateway, new_gateway, get_server_stream_manager, get_local_port, get_gateway_cloud, Accessor,
  of_manager, of_port, of_cloud, access, accesses,
}

-- What an accessor would return without making anything.
abbrev object_of : Accessor → Gateway → Option ℕ
object_of of_manager gw = gw.server_stream_manager
object_of of_port gw = gw.local_port
object_of of_cloud gw = some gw.gateway_cloud

record IsDistinct (gw : Gateway) : Type 0 where
  pub below : (a : Accessor) (x : ℕ) → object_of a gw ≡ some x → x < gw.next_object
  pub one : (a b : Accessor) (x : ℕ) → object_of a gw ≡ some x → object_of b gw ≡ some x → a ≡ b

-- After an access, the object stands, and the others are as they were.
record IsAccessed (a : Accessor) (gw : Gateway) (r : ℕ × Gateway) : Type 0 where
  pub stands : object_of a r.1 ≡ some r.0
  pub kept : (b : Accessor) (x : ℕ) → object_of b gw ≡ some x → object_of b r.1 ≡ some x
  pub distinct : IsDistinct r.1

-- The object is there already, or is the next one.
standing :
    (a : Accessor) (gw : Gateway) (x : ℕ)
    → IsDistinct gw
    → object_of a gw ≡ some x
    → IsAccessed a gw (x, gw)
standing a gw x d e = record { stands = e; kept = λ b y f. f; distinct = d }

made :
    (a : Accessor) (gw gw' : Gateway)
    → IsDistinct gw
    → object_of a gw ≡ none
    → object_of a gw' ≡ some gw.next_object
    → ((b : Accessor) → (a ≡ b) ⊎ (object_of b gw' ≡ object_of b gw))
    → gw'.next_object ≡ gw.next_object + 1
    → IsAccessed a gw (gw.next_object, gw')
made a gw gw' d absent stands others next = record {
  stands = stands;
  kept = λ b x e. elim (others b) [
    | inl q ↦ absurd (cc (absent, ap (λ c. object_of c gw) q, e))
    | inr q ↦ q ∙ e
  ];
  distinct = record { below = below; one = one };
}
  where
    below : (b : Accessor) (x : ℕ) → object_of b gw' ≡ some x → x < gw'.next_object
    below b x e = elim (others b) [
      | inl q ↦
          let same : some x ≡ some gw.next_object =
            sym e ∙ ap (λ c. object_of c gw') (sym q) ∙ stands in
          let eq : x ≡ gw.next_object = cc same in omega (arith, next, eq)
      | inr q ↦ omega (arith, next, d.below b x (sym q ∙ e))
    ]

    one : (b c : Accessor) (x : ℕ) → object_of b gw' ≡ some x → object_of c gw' ≡ some x → b ≡ c
    one b c x e f = elim (others b) [
      | inl q ↦ elim (others c) [
        | inl r ↦ sym q ∙ r
        | inr r ↦ absurd (clash c x (ap (λ o. object_of o gw') q ∙ e) (sym r ∙ f))
      ]
      | inr q ↦ elim (others c) [
        | inl r ↦ absurd (clash b x (ap (λ o. object_of o gw') r ∙ f) (sym q ∙ e))
        | inr r ↦ d.one b c x (sym q ∙ e) (sym r ∙ f)
      ]
    ]
      where
        clash : (c : Accessor) (x : ℕ) → object_of a gw' ≡ some x → object_of c gw ≡ some x → ⊥
        clash c x e f =
            let eq : x ≡ gw.next_object = cc (e, stands) in omega (arith, eq, d.below c x f)

manager_made :
    (gw : Gateway)
    → gw.server_stream_manager ≡ none
    → access of_manager gw ≡ (
      gw.next_object,
      record gw { next_object = gw.next_object + 1; server_stream_manager = some gw.next_object },
    )
unfolding access get_server_stream_manager
manager_made gw e = rw (e, access)

manager_stands :
    (gw : Gateway) (x : ℕ) → gw.server_stream_manager ≡ some x → access of_manager gw ≡ (x, gw)
unfolding access get_server_stream_manager
manager_stands gw x e = rw (e, access)

port_made :
    (gw : Gateway)
    → gw.local_port ≡ none
    → access of_port gw ≡ (
      gw.next_object,
      record gw { next_object = gw.next_object + 1; local_port = some gw.next_object },
    )
unfolding access get_local_port
port_made gw e = rw (e, access)

port_stands : (gw : Gateway) (x : ℕ) → gw.local_port ≡ some x → access of_port gw ≡ (x, gw)
unfolding access get_local_port
port_stands gw x e = rw (e, access)

access-IsAccessed : (a : Accessor) (gw : Gateway) → IsDistinct gw → IsAccessed a gw (access a gw)
unfolding access get_gateway_cloud
access-IsAccessed of_cloud gw d = standing of_cloud gw gw.gateway_cloud d refl
access-IsAccessed of_manager gw d = elim (Option-cases gw.server_stream_manager) [
  | inr (x, e) ↦
      subst (IsAccessed of_manager gw) (sym (manager_stands gw x e)) (standing of_manager gw x d e)
  | inl e ↦
      subst (IsAccessed of_manager gw) (sym (manager_made gw e))
        (made of_manager gw _ d e refl others refl)
]
  where
    others :
        (b : Accessor)
        → (of_manager ≡ b)
          ⊎ (object_of b (record gw {
            next_object = gw.next_object + 1;
            server_stream_manager = some gw.next_object;
          })
              ≡ object_of b gw)
    others of_manager = inl refl
    others of_port = inr refl
    others of_cloud = inr refl
access-IsAccessed of_port gw d = elim (Option-cases gw.local_port) [
  | inr (x, e) ↦
      subst (IsAccessed of_port gw) (sym (port_stands gw x e)) (standing of_port gw x d e)
  | inl e ↦
      subst (IsAccessed of_port gw) (sym (port_made gw e)) (made of_port gw _ d e refl others refl)
]
  where
    others :
        (b : Accessor)
        → (of_port ≡ b)
          ⊎ (object_of b
                (record gw { next_object = gw.next_object + 1; local_port = some gw.next_object })
              ≡ object_of b gw)
    others of_manager = inr refl
    others of_port = inl refl
    others of_cloud = inr refl

-- What stands before the calls stands after them, and what they return stands too.
record IsRun (gw : Gateway) (r : List (Accessor × ℕ) × Gateway) : Type 0 where
  pub kept : (b : Accessor) (x : ℕ) → object_of b gw ≡ some x → object_of b r.1 ≡ some x
  pub returned : All (λ e. object_of e.0 r.1 ≡ some e.1) r.0
  pub distinct : IsDistinct r.1

accesses-IsRun :
    (calls : List Accessor) (gw : Gateway) → IsDistinct gw → IsRun gw (accesses calls gw)
unfolding accesses
accesses-IsRun [] gw d = record { kept = λ b x e. e; returned = tt; distinct = d }
accesses-IsRun (a ∷ calls) gw d =
    let i = access-IsAccessed a gw d in
    let r = accesses-IsRun calls (access a gw).1 i.distinct in
    record {
      kept = λ b x e. r.kept b x (i.kept b x e);
      returned = (r.kept a (access a gw).0 i.stands, r.returned);
      distinct = r.distinct;
    }

new_gateway-IsDistinct : (aether client next : ℕ) → IsDistinct (new_gateway aether client next)
unfolding new_gateway
new_gateway-IsDistinct aether client next = record { below = below; one = one }
  where
    below :
        (a : Accessor) (x : ℕ)
        → object_of a (new_gateway aether client next) ≡ some x
        → x < next + 1
    below of_manager x e = cc
    below of_port x e = cc
    below of_cloud x e = let eq : next ≡ x = cc e in omega (arith, eq)

    one :
        (a b : Accessor) (x : ℕ)
        → object_of a (new_gateway aether client next) ≡ some x
        → object_of b (new_gateway aether client next) ≡ some x
        → a ≡ b
    one of_manager b x e f = cc
    one of_port b x e f = cc
    one of_cloud of_manager x e f = cc
    one of_cloud of_port x e f = cc
    one of_cloud of_cloud x e f = refl

-- Of a new gateway, in whatever order its accessors are called, two calls return the same object
-- exactly when they are calls of the same accessor: the manager, the port and the cloud are each
-- made once.
pub accesses_agree :
    (aether client next m n x y : ℕ) (calls : List Accessor) (a b : Accessor)
    → let (returned, gw) = accesses calls (new_gateway aether client next) in
      get_elem? returned m ≡ some (a, x) → get_elem? returned n ≡ some (b, y) → (a ≡ b) ↔ (x ≡ y)
accesses_agree aether client next m n x y calls a b e f =
    let gw = (accesses calls (new_gateway aether client next)).1 in
    let returned = (accesses calls (new_gateway aether client next)).0 in
    let r =
      accesses-IsRun calls (new_gateway aether client next)
        (new_gateway-IsDistinct aether client next) in
    let first =
      All-get_elem? (λ (p : Accessor × ℕ). object_of p.0 gw ≡ some p.1) returned m (a, x) r.returned
        e in
    let second =
      All-get_elem? (λ (p : Accessor × ℕ). object_of p.0 gw ≡ some p.1) returned n (b, y) r.returned
        f in
    (
      λ q. cc (sym first ∙ ap (λ c. object_of c gw) q ∙ second),
      λ q. r.distinct.one a b x first (second ∙ ap some (sym q)),
    )
