-- ===== src/Static/Reorganize/Matching.antt =====
-- What `base_reorganize` of src/base_static_index.h leaves of the tuples with one key.
use mathlib.Core.List.Perm
use mathlib.Core.List.{filter_map}
use mathlib.Core.Path.{subst}
use mathlib.Core.Option.{Option-elim}
use index_zoo.Base.{
  arith, ℕ, zero, suc, ◌≡◌, ◌≢◌, refl, ap, List, [], ◌∷◌, get_elem?, Option, some, none, done, Perm,
  ◌==◌, if◌then◌else◌, Bool-cases, inl, inr,
}
use index_zoo.Table.Generic.{GenericDataTable}
use index_zoo.Table.Iterator.{IteratorEntry}
use index_zoo.Table.Iterator.Order.{entries_from}
use index_zoo.Static.Entry.{KeyOffsetPair, matching}
use index_zoo.Static.Reorganize.Sorted.{pairs_of, Sorts}

offset_if : ℕ → KeyOffsetPair → Option ℕ
offset_if key x = if x.key == key then some x.offset else none

matching-filter_map :
    (key : ℕ) (c : List KeyOffsetPair) → matching key c ≡ filter_map (offset_if key) c
unfolding filter_map Option-elim offset_if
matching-filter_map key [] = refl
matching-filter_map key (x ∷ c) = elim (Bool-cases (x.key == key)) [
  | inl hit ↦ rw hit (ap (λ l. x.offset ∷ l) (matching-filter_map key c))
  | inr miss ↦ rw miss (matching-filter_map key c)
]

matching-Perm :
    (key : ℕ) (c d : List KeyOffsetPair) → Perm c d → Perm (matching key c) (matching key d)
matching-Perm key c d p =
    rw (matching-filter_map key c, matching-filter_map key d) (Perm.filter_map (offset_if key) p)

-- A pair with the key makes the selection non-empty.
pub matching-some :
    (key : ℕ) (c : List KeyOffsetPair) (i : ℕ) (x : KeyOffsetPair)
    → get_elem? c i ≡ some x
    → x.key ≡ key
    → matching key c ≢ []
matching-some key [] i x e same = cc
matching-some key (y ∷ c) zero x e same = ground arith
matching-some key (y ∷ c) (suc i) x e same = ground (arith, matching-some key c i x e same)

-- The array has the same offsets for a key as the table.
pub Sorts-matching :
    (t : GenericDataTable) (n : ℕ) (c : List KeyOffsetPair) (s : Sorts t n c)
    (entries : List IteratorEntry) (all : entries_from t 0 n ≡ done entries) (key : ℕ)
    → Perm (matching key c) (matching key (pairs_of entries))
Sorts-matching t n c s entries all key =
    let same_entries : s.entries ≡ entries = cc (s.all, all) in
    subst (λ l. Perm (matching key c) (matching key (pairs_of l))) same_entries
      (matching-Perm key c (pairs_of s.entries) s.same)
