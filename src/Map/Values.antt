-- ===== src/Map/Values.antt =====
-- What holds of every value of a map, after each operation.
use aether_gateway.Prelude.{Bool, List, [], ◌∷◌, Option, none, some, All, inl, inr, Bool-cases}
use aether_gateway.Map.{Order, Map, equiv, find, emplace, erase, modify, erase_if}

abbrev pub AllValues {ℓ κ ι} : {K : Type ℓ} {V : Type κ} → (V → Type ι) → Map K V → Type ι
AllValues P m = All (λ e. P e.1) m

-- At the value of an option, if it has one.
abbrev pub AtValue {κ ι} : {V : Type κ} → (V → Type ι) → Option V → Type ι
AtValue P none = Unit
AtValue P (some v) = P v

module _ {ℓ κ ι} {K : Type ℓ} {V : Type κ} ⦃o : Order K⦄ (P : V → Type ι) where
  pub AllValues-find : (k : K) (m : Map K V) → AllValues P m → AtValue P (find k m)
  unfolding find
  AllValues-find k [] all = tt
  AllValues-find k ((j, u) ∷ m) (p, all) = elim (Bool-cases (equiv j k)) [
    | inl e ↦ rw e p
    | inr e ↦ rw e (AllValues-find k m all)
  ]

  pub AllValues-emplace :
      (k : K) (v : V) (m : Map K V) → P v → AllValues P m → AllValues P (emplace k v m)
  unfolding emplace
  AllValues-emplace k v m p all = branch (find k m)
    where
      branch : (f : Option V) → AllValues P (elim f [ none ↦ (k, v) ∷ m | some _ ↦ m ])
      branch none = (p, all)
      branch (some u) = all

  pub AllValues-erase : (k : K) (m : Map K V) → AllValues P m → AllValues P (erase k m)
  unfolding erase
  AllValues-erase k [] all = tt
  AllValues-erase k ((j, v) ∷ m) (p, all) = elim (Bool-cases (equiv j k)) [
    | inl e ↦ rw e (AllValues-erase k m all)
    | inr e ↦ rw e (p, AllValues-erase k m all)
  ]

  pub AllValues-erase_if :
      (test : V → Bool) (m : Map K V) → AllValues P m → AllValues P (erase_if test m)
  unfolding erase_if
  AllValues-erase_if test [] all = tt
  AllValues-erase_if test ((j, v) ∷ m) (p, all) = elim (Bool-cases (test v)) [
    | inl e ↦ rw e (AllValues-erase_if test m all)
    | inr e ↦ rw e (p, AllValues-erase_if test m all)
  ]

  pub AllValues-modify :
      (k : K) (f : V → V) (m : Map K V)
      → ((v : V) → P v → P (f v))
      → AllValues P m
      → AllValues P (modify k f m)
  unfolding modify
  AllValues-modify k f [] keep all = tt
  AllValues-modify k f ((j, v) ∷ m) keep (p, all) = elim (Bool-cases (equiv j k)) [
    | inl e ↦ rw e (keep v p, all)
    | inr e ↦ rw e (p, AllValues-modify k f m keep all)
  ]

module _ {ℓ ι κ} {A : Type ℓ} {P : A → Type ι} {Q : A → Type κ} where
  pub All-map : ((x : A) → P x → Q x) → (xs : List A) → All P xs → All Q xs
  All-map f [] all = tt
  All-map f (x ∷ xs) (p, all) = (f x p, All-map f xs all)
