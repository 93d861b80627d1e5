-- ===== src/Map/Laws.antt =====
-- What `find` sees after each operation of a map.
use mathlib.Core.Option
use aether_gateway.Prelude.{
  ◌≡◌, ◌≢◌, ◌⊎◌, some, refl, Bool, true, false, [], ◌∷◌, none, some, arith, if◌then◌else◌, inl, inr,
  Bool-cases, Option-cases,
}
use aether_gateway.Map.{Order, Map, equiv, find, emplace, erase, modify, erase_if}

module _ {ℓ} {K : Type ℓ} ⦃o : Order K⦄ where
  pub equiv_refl : (a : K) → equiv a a ≡ true
  equiv_refl a = rw (o.lt_irrefl a)

  pub eq_of_equiv : (a b : K) → equiv a b ≡ true → a ≡ b
  eq_of_equiv a b h = o.lt_connected a b (ground arith) (ground arith)

  pub ne_of_equiv : (a b : K) → equiv a b ≡ false → a ≢ b
  ne_of_equiv a b h e = ground (arith, equiv_refl a)

  pub equiv_of_ne : (a b : K) → a ≢ b → equiv a b ≡ false
  equiv_of_ne a b h = ground (arith, eq_of_equiv a b)

  pub equiv_sym : (a b : K) → equiv a b ≡ equiv b a
  equiv_sym a b = ground arith

module _ {ℓ κ} {K : Type ℓ} {V : Type κ} ⦃o : Order K⦄ where
  pub find-emplace :
      (j k : K) (v : V) (m : Map K V)
      → find j (emplace k v m)
        ≡ elim (find j m) [ some w ↦ some w | none ↦ if equiv k j then some v else none ]
  unfolding find emplace
  find-emplace j k v m = ground (arith, eq_of_equiv k j)

  pub find-emplace-some :
      (j k : K) (v w : V) (m : Map K V)
      → find j (emplace k v m) ≡ some w
      → (find j m ≡ some w) ⊎ ((k ≡ j) × (w ≡ v))
  find-emplace-some j k v w m h = elim (Option-cases (find j m)) [
    | inl e ↦ inr (
      ground (arith, find-emplace j k v m, eq_of_equiv k j),
      ground (arith, find-emplace j k v m),
    )
    | inr (u, e) ↦ inl (ground (arith, find-emplace j k v m))
  ]

  pub find-erase :
      (j k : K) (m : Map K V) → find j (erase k m) ≡ (if equiv k j then none else find j m)
  unfolding find erase
  find-erase j k [] = ground arith
  find-erase j k ((i, v) ∷ m) =
      ground
        (arith, find-erase j k m, eq_of_equiv i k, eq_of_equiv i j, eq_of_equiv k j, equiv_refl k)

  pub find-erase-some :
      (j k : K) (v : V) (m : Map K V) → find j (erase k m) ≡ some v → (k ≢ j) × (find j m ≡ some v)
  find-erase-some j k v m h = elim (Bool-cases (equiv k j)) [
    | inl e ↦ ground (arith, find-erase j k m)
    | inr e ↦ (ne_of_equiv k j e, ground (arith, find-erase j k m))
  ]

  pub find-modify :
      (j k : K) (f : V → V) (m : Map K V)
      → find j (modify k f m) ≡ (if equiv k j then Option.map f (find j m) else find j m)
  unfolding find modify
  find-modify j k f [] = ground arith
  find-modify j k f ((i, v) ∷ m) =
      ground (
        arith,
        find-modify j k f m,
        eq_of_equiv i k,
        eq_of_equiv i j,
        eq_of_equiv k j,
        equiv_refl k,
      )

  pub find-cons-some :
      (j k : K) (v u : V) (m : Map K V)
      → find j ((k, v) ∷ m) ≡ some u
      → ((k ≡ j) × (u ≡ v)) ⊎ ((k ≢ j) × (find j m ≡ some u))
  unfolding find
  find-cons-some j k v u m h = elim (Bool-cases (equiv k j)) [
    | inl e ↦ inl (eq_of_equiv k j e, ground (arith, h, e))
    | inr e ↦ inr (ne_of_equiv k j e, ground (arith, h, e))
  ]

  pub find-modify-some :
      (j k : K) (f : V → V) (t : V) (m : Map K V)
      → find j (modify k f m) ≡ some t
      → (s : V) × (find j m ≡ some s) × ((t ≡ s) ⊎ ((k ≡ j) × (t ≡ f s)))
  find-modify-some j k f t m h = elim (Option-cases (find j m)) [
    | inl e ↦ absurd (ground (arith, find-modify j k f m))
    | inr (s, e) ↦ (
      s,
      e,
      elim (Bool-cases (equiv k j)) [
        | inl q ↦ inr (eq_of_equiv k j q, ground (arith, find-modify j k f m))
        | inr q ↦ inl (ground (arith, find-modify j k f m))
      ],
    )
  ]

  pub find-emplace_other :
      (j k : K) (v : V) (m : Map K V) → k ≢ j → find j (emplace k v m) ≡ find j m
  find-emplace_other j k v m ne = ground (arith, find-emplace j k v m, equiv_of_ne k j ne)

  pub find-modify_other :
      (j k : K) (f : V → V) (m : Map K V) → k ≢ j → find j (modify k f m) ≡ find j m
  find-modify_other j k f m ne = ground (arith, find-modify j k f m, equiv_of_ne k j ne)

  pub find-erase_other : (j k : K) (m : Map K V) → k ≢ j → find j (erase k m) ≡ find j m
  find-erase_other j k m ne = ground (arith, find-erase j k m, equiv_of_ne k j ne)

  -- No key stands twice.
  abbrev pub Distinct : Map K V → Type κ
  Distinct [] = Unit
  Distinct ((k, v) ∷ m) = (find k m ≡ none) × Distinct m

  pub emplace-Distinct : (k : K) (v : V) (m : Map K V) → Distinct m → Distinct (emplace k v m)
  unfolding emplace
  emplace-Distinct k v m d = elim (Option-cases (find k m)) [
    | inl e ↦ rw (e, emplace) (e, d)
    | inr (w, e) ↦ rw (e, emplace) d
  ]

  pub erase-Distinct : (k : K) (m : Map K V) → Distinct m → Distinct (erase k m)
  unfolding erase
  erase-Distinct k [] d = tt
  erase-Distinct k ((i, v) ∷ m) d = elim (Bool-cases (equiv i k)) [
    | inl e ↦ rw e (erase-Distinct k m d.1)
    | inr e ↦ rw e (ground (arith, find-erase i k m, d.0), erase-Distinct k m d.1)
  ]

  pub modify-Distinct : (k : K) (f : V → V) (m : Map K V) → Distinct m → Distinct (modify k f m)
  unfolding modify
  modify-Distinct k f [] d = tt
  modify-Distinct k f ((i, v) ∷ m) d = elim (Bool-cases (equiv i k)) [
    | inl e ↦ rw e d
    | inr e ↦ rw e (ground (arith, find-modify i k f m, d.0), modify-Distinct k f m d.1)
  ]

  -- What a purge leaves does not pass the test.
  pub erase_if_left :
      (p : V → Bool) (k : K) (v : V) (m : Map K V) → find k (erase_if p m) ≡ some v → p v ≡ false
  unfolding find erase_if
  erase_if_left p k v [] h = ground arith
  erase_if_left p k v ((i, w) ∷ m) h = ground (arith, erase_if_left p k v m)

  erase_if_missing :
      (p : V → Bool) (k : K) (m : Map K V) → find k m ≡ none → find k (erase_if p m) ≡ none
  unfolding find erase_if
  erase_if_missing p k [] h = refl
  erase_if_missing p k ((i, w) ∷ m) h = ground (arith, erase_if_missing p k m)

  pub find-erase_if :
      (p : V → Bool) (k : K) (m : Map K V)
      → Distinct m
      → find k (erase_if p m)
        ≡ elim (find k m) [ none ↦ none | some v ↦ if p v then none else some v ]
  unfolding find erase_if
  find-erase_if p k [] d = refl
  find-erase_if p k ((i, w) ∷ m) d =
      ground (arith, find-erase_if p k m d.1, eq_of_equiv i k, erase_if_missing p i m d.0)

  pub erase_if-Distinct : (p : V → Bool) (m : Map K V) → Distinct m → Distinct (erase_if p m)
  unfolding erase_if
  erase_if-Distinct p [] d = tt
  erase_if-Distinct p ((i, w) ∷ m) d = elim (Bool-cases (p w)) [
    | inl e ↦ rw e (erase_if-Distinct p m d.1)
    | inr e ↦ rw e (erase_if_missing p i m d.0, erase_if-Distinct p m d.1)
  ]
