-- ===== src/Prelude/Lists.antt =====
-- Lists measured by native numbers, under the library's names.
use Prim.Native.Nat.{ℕ, zero, suc, ◌+◌, ◌≤◌}
use mathlib.Core.Path.{◌≡◌, subst}
use mathlib.Core.Option.{Option, none, some}
use mathlib.Core.List.{List, [], ◌∷◌, ◌++◌}
use native.Mathlib.Omega.{arith}

module _ {ℓ} {A : Type ℓ} where
  abbrev pub length : List A → ℕ
  length [] = 0
  length (x ∷ xs) = suc (length xs)

  pub length-append : (xs ys : List A) → length (xs ++ ys) ≡ length xs + length ys
  length-append [] ys = omega arith
  length-append (x ∷ xs) ys = omega (arith, length-append xs ys)

abbrev pub get_elem? {ℓ} : {A : Type ℓ} → List A → ℕ → Option A
get_elem? [] i = none
get_elem? (x ∷ xs) zero = some x
get_elem? (x ∷ xs) (suc i) = get_elem? xs i

-- A predicate at every element.
abbrev pub All {ℓ κ} : {A : Type ℓ} → (A → Type κ) → List A → Type κ
All P [] = Unit
All P (x ∷ xs) = P x × All P xs

-- Strictly increasing, from `lo` on, below `hi`.
abbrev pub Increasing : ℕ → List ℕ → ℕ → Type 0
Increasing lo [] hi = lo ≤ hi
Increasing lo (i ∷ is) hi = (lo ≤ i) × Increasing (i + 1) is hi

-- The bound itself may come next.
pub Increasing-append :
    (lo : ℕ) (is : List ℕ) (hi : ℕ) → Increasing lo is hi → Increasing lo (is ++ hi ∷ []) (hi + 1)
Increasing-append lo [] hi h = (h, omega arith)
Increasing-append lo (i ∷ is) hi h = (h.0, Increasing-append (i + 1) is hi h.1)

pub Increasing-le : (lo : ℕ) (is : List ℕ) (hi : ℕ) → Increasing lo is hi → lo ≤ hi
Increasing-le lo [] hi h = h
Increasing-le lo (i ∷ is) hi h = omega (arith, Increasing-le (i + 1) is hi h.1)

abbrev AtSome : {A : Type 0} → (A → Type 0) → Option A → Type 0
AtSome P none = Unit
AtSome P (some x) = P x

pub All-get_elem? :
    {A : Type 0} (P : A → Type 0) (xs : List A) (n : ℕ) (x : A)
    → All P xs
    → get_elem? xs n ≡ some x
    → P x
All-get_elem? P [] n x all e = cc
All-get_elem? P (y ∷ ys) zero x (p, all) e = subst (AtSome P) e p
All-get_elem? P (y ∷ ys) (suc n) x (p, all) e = All-get_elem? P ys n x all e
