-- ===== src/Map.antt =====
-- std::map: a search tree is seen through its comparison alone. Two keys are the same entry when
-- neither is below the other, which is how `find`, `emplace`, `insert` and `erase` decide it. The
-- program never depends on the order in which a map is walked, so the entries are a plain list.
pub mod Laws
pub mod Values
use aether_gateway.Prelude.{
  ℕ, ◌≡◌, refl, ◌&&◌, not, Bool, true, false, List, [], ◌∷◌, Option, none, some, arith, ltb,
  if◌then◌else◌,
}

-- What the map asks of `operator<`: irreflexive, and equivalent keys are equal.
pub record Order {ℓ} (K : Type ℓ) : Type ℓ where
  pub lt : K → K → Bool
  pub lt_irrefl : (a : K) → lt a a ≡ false
  pub lt_connected : (a b : K) → lt a b ≡ false → lt b a ≡ false → a ≡ b

pub ltb_irrefl : (a : ℕ) → ltb a a ≡ false
ltb_irrefl a = ground arith

pub ltb_connected : (a b : ℕ) → ltb a b ≡ false → ltb b a ≡ false → a ≡ b
ltb_connected a b p q = ground arith

instance abbrev pub nat_order : Order ℕ
nat_order = record { lt = ltb; lt_irrefl = ltb_irrefl; lt_connected = ltb_connected }

abbrev pub Map {ℓ κ} : Type ℓ → Type κ → Type (ℓ ⊔ κ)
Map K V = List (K × V)

module _ {ℓ} {K : Type ℓ} ⦃o : Order K⦄ where
  abbrev pub equiv : K → K → Bool
  equiv a b = not (o.lt a b) && not (o.lt b a)

module _ {ℓ κ} {K : Type ℓ} {V : Type κ} ⦃o : Order K⦄ where
  unfoldable pub find : K → Map K V → Option V
  find k [] = none
  find k ((j, v) ∷ m) = if equiv j k then some v else find k m

  -- An entry that is there already is kept.
  unfoldable pub emplace : K → V → Map K V → Map K V
  unfolding find
  emplace k v m = elim (find k m) [ none ↦ (k, v) ∷ m | some _ ↦ m ]

  unfoldable pub erase : K → Map K V → Map K V
  erase k [] = []
  erase k ((j, v) ∷ m) = if equiv j k then erase k m else (j, v) ∷ erase k m

  -- A write through the iterator that `find` returned.
  unfoldable pub modify : K → (V → V) → Map K V → Map K V
  modify k f [] = []
  modify k f ((j, v) ∷ m) = if equiv j k then (j, f v) ∷ m else (j, v) ∷ modify k f m

  -- The loop that erases while it walks.
  unfoldable pub erase_if : (V → Bool) → Map K V → Map K V
  erase_if p [] = []
  erase_if p ((j, v) ∷ m) = if p v then erase_if p m else (j, v) ∷ erase_if p m
