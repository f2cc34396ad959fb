-- ===== src/Static/Interpolation/Lookup.antt =====
-- A lookup in an interpolation index over a table: `reorganize` and then `find` of
-- src/static_index/interpolation_index.h.
use mathlib.Core.List.Perm
use index_zoo.Base.{
  arith, ℕ, ◌+◌, ◌-◌, ◌/◌, ◌^◌, ◌<◌, ◌≤◌, ◌≡◌, ◌≢◌, refl, sym, List, [], ◌++◌, length, get_elem?,
  some, done, Returns, Returns-bind, Returns-map, ◌>>=◌, Perm, ◌⊎◌, inl, inr,
}
use index_zoo.Table.Offset.{word}
use index_zoo.Table.Generic.{GenericDataTable, size}
use index_zoo.Table.Generic.Valid.{IsValid}
use index_zoo.Table.Iterator.{IteratorEntry}
use index_zoo.Table.Iterator.Order.{entries_from}
use index_zoo.Static.Entry.{KeyOffsetPair, matching, key_in_bounds}
use index_zoo.Static.Entry.Absent.{present_or_absent, matching-absent}
use index_zoo.Static.Sorting.{Sorter}
use index_zoo.Static.Reorganize.Sorted.{pairs_of, Sorts}
use index_zoo.Static.Reorganize.Matching.{matching-some, Sorts-matching}
use index_zoo.Static.Interpolation.{Interpolate, InterpolationIndex, new_index, find}
use index_zoo.Static.Interpolation.Segments.{reorganize}
use index_zoo.Static.Interpolation.Built.{IsExactAtEnd, width}
use index_zoo.Static.Interpolation.Laws.{find-matching}
use index_zoo.Static.Interpolation.Reorganize.{Reorganized, segments-Reorganized}

-- One segment, or two keys that are at least as far apart as there are segments.
abbrev pub IsSpread : ℕ → List KeyOffsetPair → Type 0
IsSpread num c =
    (num ≡ 1)
    ⊎ ((i : ℕ) × (j : ℕ) × (x : KeyOffsetPair) × (y : KeyOffsetPair) × (get_elem? c i ≡ some x)
        × (get_elem? c j ≡ some y)
        × (x.key + num ≤ y.key))

div-pos : (a b : ℕ) → 0 < b → b ≤ a → 0 < a / b
div-pos a b some_b h = grind arith

module _ (t : GenericDataTable) (n : ℕ) (entries : List IteratorEntry)
    (all : entries_from t 0 n ≡ done entries) where
  -- A key of the table is in the array, and the other way round.
  from_table :
      (c : List KeyOffsetPair)
      → Sorts t n c
      → (i : ℕ) (x : KeyOffsetPair) → get_elem? (pairs_of entries) i ≡ some x
      → (j : ℕ) × (y : KeyOffsetPair) × (get_elem? c j ≡ some y) × (y.key ≡ x.key)
  from_table c s i x at_i = elim (present_or_absent x.key c) [
    | inl found ↦ found
    | inr absent ↦
        let none_there : matching x.key c ≡ [] = matching-absent x.key c absent in
        absurd (
          matching-some x.key (pairs_of entries) i x at_i refl
            (sym (Perm.nil-eq (rw none_there at (Sorts-matching t n c s entries all x.key)))))
  ]

  to_table :
      (c : List KeyOffsetPair)
      → Sorts t n c
      → (i : ℕ) (x : KeyOffsetPair) → get_elem? c i ≡ some x
      → (j : ℕ) × (y : KeyOffsetPair) × (get_elem? (pairs_of entries) j ≡ some y) × (y.key ≡ x.key)
  to_table c s i x at_i = elim (present_or_absent x.key (pairs_of entries)) [
    | inl found ↦ found
    | inr absent ↦
        let none_there : matching x.key (pairs_of entries) ≡ [] =
          matching-absent x.key (pairs_of entries) absent in
        absurd (
          matching-some x.key c i x at_i refl (
            sym (
              Perm.nil-eq
                (rw none_there at (Perm.symm (Sorts-matching t n c s entries all x.key))))))
  ]

module _ (std : Sorter) (num n : ℕ) (t : GenericDataTable) (v : IsValid t)
    (counted : size t ≡ done n) (held : 0 < n) (some_segment : 1 ≤ num)
    (entries : List IteratorEntry) (all : entries_from t 0 n ≡ done entries)
    (interpolate : Interpolate) (exact : IsExactAtEnd interpolate) (small : n < 2 ^ 53)
    (short : (i : ℕ) (x : KeyOffsetPair) → get_elem? (pairs_of entries) i ≡ some x → x.key < word)
    (spread : IsSpread num (pairs_of entries)) (key : ℕ) (out : List ℕ) where
  short_max : (index : InterpolationIndex) → Reorganized t n num index → index.key_max < word
  short_max index r =
      let b = r.built.bounds in
      let (j, y, at_j, same) =
        to_table t n entries all index.container r.sorts (length index.container - 1) b.last
          b.at_last in
      omega (arith, short j y at_j, b.max_is)

  wide :
      (index : InterpolationIndex)
      → Reorganized t n num index
      → index.key_min ≢ index.key_max
      → 0 < width index
  wide index r differ =
      div-pos (index.key_max - index.key_min) index.num_segments (r.built.some_segment)
        (enough spread)
    where
      in_bounds :
          (i : ℕ) (x : KeyOffsetPair)
          → get_elem? (pairs_of entries) i ≡ some x
          → (index.key_min ≤ x.key) × (x.key ≤ index.key_max)
      in_bounds i x at_i =
          let (j, y, at_j, same) = from_table t n entries all index.container r.sorts i x at_i in
          let (lo, hi) =
            key_in_bounds index.container index.key_min index.key_max j y r.built.sorted
              r.built.bounds at_j in
          (omega arith, omega arith)

      ordered : index.key_min ≤ index.key_max
      ordered =
          let b = r.built.bounds in
          omega (
            arith,
            key_in_bounds index.container index.key_min index.key_max 0 b.first r.built.sorted b
                b.at_first,
            b.min_is,
          )

      enough : IsSpread num (pairs_of entries) → index.num_segments ≤ index.key_max - index.key_min
      enough (inl one) = omega (arith, r.same_segments, ordered)
      enough (inr (i, j, x, y, at_i, at_j, far)) =
          let (lo, lo') = in_bounds i x at_i in
          let (hi', hi) = in_bounds j y at_j in omega (arith, r.same_segments)

  -- For any sort with the laws of `std::sort`, any arithmetic with doubles that is exact at the
  -- end of a segment, and a valid table of `n` tuples with 64-bit keys, 0 < n < 2^53, where there is
  -- one segment or two keys are at least as far apart as there are segments: in the index that
  -- `reorganize` builds from a new one, the lookup of any key ends normally and adds the offsets of
  -- exactly the tuples with the key, each once.
  pub segments_find :
      Returns
        ((new_index num >>= λ fresh. reorganize std fresh t) >>= λ index.
          find interpolate index key out)
        (λ r. Perm r (out ++ matching key (pairs_of entries)))
  segments_find =
      Returns-bind (Reorganized t n num) (λ r. Perm r (out ++ matching key (pairs_of entries)))
        (new_index num >>= λ fresh. reorganize std fresh t)
        (λ index. find interpolate index key out)
        (segments-Reorganized std num n t v counted held some_segment)
        (λ index r.
          Returns-map (find interpolate index key out)
            (λ res p.
              Perm.trans p
                (Perm.append_left out (Sorts-matching t n index.container r.sorts entries all key)))
            (find-matching interpolate index r.built key out exact (omega (arith, r.sorts.count_is))
              (short_max index r) (wide index r)))
