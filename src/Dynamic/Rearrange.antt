-- ===== src/Dynamic/Rearrange.antt =====
-- Collections of keys with offsets in another order (src/base_index.h leaves it open).
use mathlib.Core.List.Perm
use mathlib.Core.List.{filter_map}
use mathlib.Core.Option.{Option-elim}
use index_zoo.Base.{
  ℕ, ◌≡◌, refl, ap, [], ◌∷◌, Option, some, none, Bool, if◌then◌else◌, Bool-cases, inl, inr, Perm,
  select,
}
use index_zoo.Dynamic.Keys.{Keys}
use index_zoo.Dynamic.Spec.{Entries, values, offsets_for, offsets_for-select, without}

module _ (keys : Keys) where
  open keys use {Key, equals}

  offset_if : (Key × ℕ → Bool) → Key × ℕ → Option ℕ
  offset_if p x = if p x then some x.1 else none

  values-filter_map :
      (p : Key × ℕ → Bool) (m : Entries keys)
      → values keys (select p m) ≡ filter_map (offset_if p) m
  unfolding filter_map Option-elim offset_if
  values-filter_map p [] = refl
  values-filter_map p (x ∷ m) = elim (Bool-cases (p x)) [
    | inl hit ↦ rw hit (ap (λ l. x.1 ∷ l) (values-filter_map p m))
    | inr miss ↦ rw miss (values-filter_map p m)
  ]

  -- A selection from another order has the same offsets.
  pub values-Perm :
      (p : Key × ℕ → Bool) (m n : Entries keys)
      → Perm m n
      → Perm (values keys (select p m)) (values keys (select p n))
  values-Perm p m n h =
      rw (values-filter_map p m, values-filter_map p n) (Perm.filter_map (offset_if p) h)

  pub offsets_for-Perm :
      (k : Key) (m n : Entries keys) → Perm m n → Perm (offsets_for keys k m) (offsets_for keys k n)
  offsets_for-Perm k m n h =
      rw (offsets_for-select keys k m, offsets_for-select keys k n)
        (values-Perm (λ x. equals x.0 k) m n h)

  keep_if : Key → Key × ℕ → Option (Key × ℕ)
  keep_if k x = if equals x.0 k then none else some x

  without-filter_map : (k : Key) (m : Entries keys) → without keys k m ≡ filter_map (keep_if k) m
  unfolding filter_map Option-elim keep_if
  without-filter_map k [] = refl
  without-filter_map k ((j, v) ∷ m) = elim (Bool-cases (equals j k)) [
    | inl hit ↦ rw hit (without-filter_map k m)
    | inr miss ↦ rw miss (ap (λ l. (j, v) ∷ l) (without-filter_map k m))
  ]

  pub without-Perm :
      (k : Key) (m n : Entries keys) → Perm m n → Perm (without keys k m) (without keys k n)
  without-Perm k m n p =
      rw (without-filter_map k m, without-filter_map k n) (Perm.filter_map (keep_if k) p)
