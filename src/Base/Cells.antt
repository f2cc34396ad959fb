-- ===== src/Base/Cells.antt =====
-- Which element stands at an index of a changed or extended array.
use Prim.Native.Nat.{ℕ, zero, suc, ◌<◌}
use mathlib.Core.Path.{◌≡◌, refl, ap}
use mathlib.Core.Logic.{◌≢◌, ◌⊎◌, inl, inr}
use mathlib.Core.List.{List, [], ◌∷◌, ◌++◌}
use mathlib.Core.Option.{some}
use native.Mathlib.Omega.{arith}
use index_zoo.Base.Lists.{length, get_elem?, set}

module _ {ℓ} {A : Type ℓ} where
  pub get_elem?-some : (xs : List A) (i : ℕ) → i < length xs → (x : A) × (get_elem? xs i ≡ some x)
  get_elem?-some [] i h = elim h [ ]
  get_elem?-some (x ∷ xs) zero h = (x, refl)
  get_elem?-some (x ∷ xs) (suc i) h = get_elem?-some xs i (omega arith)

  pub get_elem?-lt : (xs : List A) (i : ℕ) (x : A) → get_elem? xs i ≡ some x → i < length xs
  get_elem?-lt [] i x h = cc
  get_elem?-lt (y ∷ ys) zero x h = omega arith
  get_elem?-lt (y ∷ ys) (suc i) x h = omega (arith, get_elem?-lt ys i x h)

  pub get_elem?-singleton :
      (x : A) (i : ℕ) (y : A) → get_elem? (x ∷ []) i ≡ some y → (i ≡ 0) × (y ≡ x)
  get_elem?-singleton x zero y h = (refl, cc)
  get_elem?-singleton x (suc i) y h = cc

  pub get_elem?-set_cases :
      (xs : List A) (j : ℕ) (v : A) (i : ℕ) (x : A)
      → get_elem? (set xs j v) i ≡ some x
      → ((i ≡ j) × (x ≡ v)) ⊎ ((i ≢ j) × (get_elem? xs i ≡ some x))
  get_elem?-set_cases [] j v i x h = cc
  get_elem?-set_cases (y ∷ ys) zero v zero x h = inl (refl, cc)
  get_elem?-set_cases (y ∷ ys) zero v (suc i) x h = inr (omega arith, h)
  get_elem?-set_cases (y ∷ ys) (suc j) v zero x h = inr (omega arith, h)
  get_elem?-set_cases (y ∷ ys) (suc j) v (suc i) x h = elim (get_elem?-set_cases ys j v i x h) [
    | inl p ↦ inl (ap suc p.0, p.1)
    | inr p ↦ inr (λ e. p.0 (omega arith), p.1)
  ]

  pub get_elem?-append_cases :
      (xs : List A) (y : A) (i : ℕ) (x : A)
      → get_elem? (xs ++ y ∷ []) i ≡ some x
      → ((i ≡ length xs) × (x ≡ y)) ⊎ ((i < length xs) × (get_elem? xs i ≡ some x))
  get_elem?-append_cases [] y zero x h = inl (refl, cc)
  get_elem?-append_cases [] y (suc i) x h = cc
  get_elem?-append_cases (z ∷ zs) y zero x h = inr (omega arith, h)
  get_elem?-append_cases (z ∷ zs) y (suc i) x h = elim (get_elem?-append_cases zs y i x h) [
    | inl p ↦ inl (ap suc p.0, p.1)
    | inr p ↦ inr (omega arith, p.1)
  ]

  pub get_elem?-append_left :
      (xs ys : List A) (i : ℕ) → i < length xs → get_elem? (xs ++ ys) i ≡ get_elem? xs i
  get_elem?-append_left [] ys i h = elim h [ ]
  get_elem?-append_left (x ∷ xs) ys zero h = refl
  get_elem?-append_left (x ∷ xs) ys (suc i) h = get_elem?-append_left xs ys i (omega arith)

  pub get_elem?-append_length :
      (xs : List A) (y : A) → get_elem? (xs ++ y ∷ []) (length xs) ≡ some y
  get_elem?-append_length [] y = refl
  get_elem?-append_length (x ∷ xs) y = get_elem?-append_length xs y

  pub set-set : (xs : List A) (i : ℕ) (v w : A) → set (set xs i v) i w ≡ set xs i w
  set-set [] i v w = refl
  set-set (x ∷ xs) zero v w = refl
  set-set (x ∷ xs) (suc i) v w = ap (λ l. x ∷ l) (set-set xs i v w)
