-- ===== src/Base/Select.antt =====
-- A selection whose elements stand together in the array.
use Prim.Native.Nat.{ℕ, zero, suc, ◌+◌, ◌≤◌, ◌<◌}
use mathlib.Core.Path.{◌≡◌, refl, ap}
use mathlib.Core.Bool.{Bool, true, false}
use mathlib.Core.List.{List, [], ◌∷◌}
use mathlib.Core.Option.{some}
use native.Mathlib.Omega.{arith}
use index_zoo.Base.Lists.{get_elem?, select, take, drop}

-- The elements that pass stand together.
module _ {ℓ} {A : Type ℓ} (p : A → Bool) where
  select_head :
      (c : List A) (m : ℕ)
      → ((j : ℕ) (x : A) → get_elem? c j ≡ some x → j < m → p x ≡ true)
      → ((j : ℕ) (x : A) → get_elem? c j ≡ some x → m ≤ j → p x ≡ false)
      → select p c ≡ take m c
  select_head [] zero hit miss = refl
  select_head [] (suc m) hit miss = refl
  select_head (x ∷ c) zero hit miss = rw (miss 0 x refl (omega arith)) (
      select_head c zero (λ j y e h. absurd (omega arith))
        (λ j y e h. miss (suc j) y e (omega arith)))
  select_head (x ∷ c) (suc m) hit miss = rw (hit 0 x refl (omega arith)) (
      ap (λ l. x ∷ l)
        (select_head c m (λ j y e h. hit (suc j) y e (omega arith))
          (λ j y e h. miss (suc j) y e (omega arith))))

  pub select_middle :
      (c : List A) (l m : ℕ)
      → ((j : ℕ) (x : A) → get_elem? c j ≡ some x → j < l → p x ≡ false)
      → ((j : ℕ) (x : A) → get_elem? c j ≡ some x → l ≤ j → j < l + m → p x ≡ true)
      → ((j : ℕ) (x : A) → get_elem? c j ≡ some x → l + m ≤ j → p x ≡ false)
      → select p c ≡ take m (drop l c)
  select_middle c zero m before hit miss =
      select_head c m (λ j y e h. hit j y e (omega arith) (omega arith))
        (λ j y e h. miss j y e (omega arith))
  select_middle [] (suc l) zero before hit miss = refl
  select_middle [] (suc l) (suc m) before hit miss = refl
  select_middle (x ∷ c) (suc l) m before hit miss = rw (before 0 x refl (omega arith)) (
      select_middle c l m (λ j y e h. before (suc j) y e (omega arith))
        (λ j y e from to. hit (suc j) y e (omega arith) (omega arith))
        (λ j y e h. miss (suc j) y e (omega arith)))

  -- What fails before an index can be dropped.
  pub select-drop :
      (l : ℕ) (c : List A)
      → ((j : ℕ) (x : A) → get_elem? c j ≡ some x → j < l → p x ≡ false)
      → select p c ≡ select p (drop l c)
  select-drop zero c miss = refl
  select-drop (suc l) [] miss = refl
  select-drop (suc l) (x ∷ c) miss =
      rw (miss 0 x refl (omega arith)) (select-drop l c (λ j y e h. miss (suc j) y e (omega arith)))

  -- Nothing is selected where everything from an index on fails.
  pub select-drop_none :
      (l : ℕ) (c : List A)
      → ((j : ℕ) (x : A) → get_elem? c j ≡ some x → l ≤ j → p x ≡ false)
      → select p (drop l c) ≡ []
  select-drop_none zero [] miss = refl
  select-drop_none zero (x ∷ c) miss =
      rw (miss 0 x refl (omega arith))
        (select-drop_none zero c (λ j y e h. miss (suc j) y e (omega arith)))
  select-drop_none (suc l) [] miss = refl
  select-drop_none (suc l) (x ∷ c) miss =
      select-drop_none l c (λ j y e h. miss (suc j) y e (omega arith))
