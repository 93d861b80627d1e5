-- ===== src/Simulator/AliceBob/Talk.antt =====
-- What Alice and Bob say to each other (simulator/tests/sim-alice-bob/sim-alice-bob.cpp).
use aether_gateway.Prelude.{
  ℕ, ◌+◌, ◌≡◌, ◌≤◌, ◌∙◌, refl, sym, subst, ◌⊎◌, inl, inr, List, [], ◌∷◌, ◌++◌, none, some, All,
  arith,
}
use aether_gateway.Aether.{DataBuffer}
use aether_gateway.Simulator.AliceBob.{
  Event, alice_selected, bob_selected, comm, alice_data, bob_data, Test, new_test, alice_message,
  bob_message, on_event, on_events,
}

pub on_events-append :
    (es fs : List Event) (t : Test) → on_events (es ++ fs) t ≡ on_events fs (on_events es t)
unfolding on_events
on_events-append [] fs t = refl
on_events-append (e ∷ es) fs t = on_events-append es fs (on_event e t)

-- A handler counts one message at most.
on_event-grows : (e : Event) (t : Test) → t.received_messages ≤ (on_event e t).received_messages
unfolding on_event
on_event-grows e t = ground arith

pub on_events-grows :
    (es : List Event) (t : Test) → t.received_messages ≤ (on_events es t).received_messages
unfolding on_events
on_events-grows [] t = omega arith
on_events-grows (e ∷ es) t = omega (arith, on_event-grows e t, on_events-grows es (on_event e t))

-- An event that brings no message.
abbrev pub IsQuiet : Event → Type 0
IsQuiet (alice_data _) = ⊥
IsQuiet (bob_data _) = ⊥
IsQuiet _ = Unit

on_event-quiet :
    (e : Event) (t : Test) → IsQuiet e → (on_event e t).received_messages ≡ t.received_messages
unfolding on_event
on_event-quiet e t q = ground arith

pub on_events-quiet :
    (es : List Event) (t : Test)
    → All IsQuiet es
    → (on_events es t).received_messages ≡ t.received_messages
unfolding on_events
on_events-quiet [] t all = refl
on_events-quiet (e ∷ es) t (q, all) = on_events-quiet es (on_event e t) all ∙ on_event-quiet e t q

-- An event other than Bob's selection.
abbrev pub IsUnselected : Event → Type 0
IsUnselected (bob_selected _) = ⊥
IsUnselected _ = Unit

-- Nobody has streams, since Bob is not there.
pub record IsAlone (t : Test) : Type 0 where
  pub silent : t.received_messages ≡ 0
  pub nobody : t.bob ≡ none
  pub unmade_alice : t.alice_stream ≡ none
  pub unmade_bob : t.bob_stream ≡ none

pub new_test-IsAlone : IsAlone new_test
unfolding new_test
new_test-IsAlone = record { silent = refl; nobody = refl; unmade_alice = refl; unmade_bob = refl }

-- Without Bob, nothing but Alice's selection changes anything.
on_event_alone :
    (e : Event) (t : Test)
    → IsUnselected e
    → IsAlone t
    → ((uid : ℕ) × (e ≡ alice_selected uid)) ⊎ (on_event e t ≡ t)
unfolding on_event
on_event_alone (alice_selected uid) t u i = inl (uid, refl)
on_event_alone (bob_selected uid) t u i = absurd u
on_event_alone comm t u i = inr (ground (arith, i.nobody))
on_event_alone (alice_data m) t u i = inr (ground (arith, i.unmade_alice))
on_event_alone (bob_data m) t u i = inr (ground (arith, i.unmade_bob))

on_event-IsAlone : (e : Event) (t : Test) → IsUnselected e → IsAlone t → IsAlone (on_event e t)
unfolding on_event
on_event-IsAlone e t u i = elim (on_event_alone e t u i) [
  | inr same ↦ subst IsAlone (sym same) i
  | inl (uid, q) ↦ rw q (record {
    silent = i.silent;
    nobody = i.nobody;
    unmade_alice = i.unmade_alice;
    unmade_bob = i.unmade_bob;
  })
]

pub on_events-IsAlone :
    (es : List Event) (t : Test) → All IsUnselected es → IsAlone t → IsAlone (on_events es t)
unfolding on_events
on_events-IsAlone [] t all i = i
on_events-IsAlone (e ∷ es) t (u, all) i =
    on_events-IsAlone es (on_event e t) all (on_event-IsAlone e t u i)

-- Alice has written to Bob, and Bob these answers.
pub record IsTalk (a b : ℕ) (answers : List DataBuffer) (t : Test) : Type 0 where
  pub from_alice :
      t.alice_stream ≡ some (record { owner = a; peer = b; written = alice_message ∷ [] })
  pub from_bob : t.bob_stream ≡ some (record { owner = b; peer = a; written = answers })

pub on_comm-IsTalk :
    (a b : ℕ) (t : Test) → t.alice ≡ some a → t.bob ≡ some b → IsTalk a b [] (on_event comm t)
unfolding on_event
on_comm-IsTalk a b t e f = record { from_alice = rw (e, f) refl; from_bob = rw (e, f) refl }

pub on_comm_quiet : (t : Test) → (on_event comm t).received_messages ≡ t.received_messages
on_comm_quiet t = on_event-quiet comm t tt

pub on_bob_data-IsTalk :
    (a b : ℕ) (m : DataBuffer) (t : Test)
    → IsTalk a b [] t
    → IsTalk a b (bob_message ∷ []) (on_event (bob_data m) t)
      × ((on_event (bob_data m) t).received_messages ≡ t.received_messages + 1)
unfolding on_event
on_bob_data-IsTalk a b m t i = (
  record { from_alice = rw i.from_bob i.from_alice; from_bob = rw i.from_bob refl },
  rw i.from_bob refl,
)

pub on_alice_data-IsTalk :
    (a b : ℕ) (answers : List DataBuffer) (m : DataBuffer) (t : Test)
    → IsTalk a b answers t
    → IsTalk a b answers (on_event (alice_data m) t)
      × ((on_event (alice_data m) t).received_messages ≡ t.received_messages + 1)
unfolding on_event
on_alice_data-IsTalk a b answers m t i = (
  record { from_alice = rw i.from_alice refl; from_bob = rw i.from_alice i.from_bob },
  rw i.from_alice refl,
)
