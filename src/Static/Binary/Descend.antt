-- ===== src/Static/Binary/Descend.antt =====
-- `find_inner_layers` of src/static_index/binary_index.h narrows the search to a range outside of
-- which the key does not stand.
use index_zoo.Base.{
  arith, ℕ, zero, suc, ◌+◌, ◌-◌, ◌*◌, ◌/◌, ◌^◌, ◌<◌, ◌≤◌, ◌≡◌, refl, inl, inr, List, get_elem?,
  some, false, ◌==◌, done, Returns, pos, before_pos, midpoint_lem, to_int, to_size, pos-minus-one,
  dec_lt,
}
use index_zoo.Static.Entry.{KeyOffsetPair, IsSorted, IsSorted-le}
use index_zoo.Static.Find.Range.{Narrows, exact, within}
use index_zoo.Static.Binary.{BinaryIndex, next_base, find_inner_layers_internal}
use index_zoo.Static.Binary.Place.{
  HasLayers, IsPlace, place_cell, place_some, child_left, child_right,
}
use index_zoo.Static.Binary.Heap.{Below, Right}

module _ (index : BinaryIndex) (has : HasLayers index) (key : ℕ) where
  abbrev c : List KeyOffsetPair
  c = index.container

  -- Every index that holds the key lies between `b` and `e`.
  abbrev Covers : ℕ → ℕ → Type 0
  Covers b e =
      (i : ℕ) (x : KeyOffsetPair) → get_elem? c i ≡ some x → x.key ≡ key → (b ≤ i) × (i < e)

  module _ (fuel k p b e base dst layer : ℕ) (at : IsPlace index (suc k) p b (suc e) base dst layer)
      (x : KeyOffsetPair) (in_cell : get_elem? index.inner_nodes p ≡ some (some x.key)) where
    order : b ≤ e
    order = omega (arith, place_some index has k p b (suc e) base dst layer at)

    sum_small : b + e < 2 ^ 31
    sum_small = omega (arith, order, at.inside, has.small)

    cell_is : get_elem? index.inner_nodes (base + dst) ≡ some (some x.key)
    cell_is = rw at.position in_cell

    same_base : to_size (to_int (next_base base)) ≡ next_base base
    same_base = ground (
      arith,
      at.position,
      place_cell index has k p b (suc e) base dst layer at,
      has.fewer,
      has.small,
    )

    go_on : (index.num_layers == layer) ≡ false
    go_on = ground (arith, at.layers)

    step_found :
        x.key ≡ key
        → find_inner_layers_internal (suc fuel) index key (pos b) (pos e) base dst layer
          ≡ done (pos ((b + e) / 2), pos ((b + e) / 2))
    unfolding find_inner_layers_internal
    step_found same = ground (arith, go_on, midpoint_lem b e sum_small order, cell_is, same)

    step_left :
        key < x.key
        → find_inner_layers_internal (suc fuel) index key (pos b) (pos e) base dst layer
          ≡ find_inner_layers_internal fuel index key
              (pos b)
              (before_pos ((b + e) / 2))
              (next_base base)
              (dst * 2)
              (layer + 1)
    unfolding find_inner_layers_internal
    step_left less = ground (
      arith,
      go_on,
      midpoint_lem b e sum_small order,
      cell_is,
      less,
      same_base,
      pos-minus-one ((b + e) / 2),
    )

    step_right :
        x.key < key
        → find_inner_layers_internal (suc fuel) index key (pos b) (pos e) base dst layer
          ≡ find_inner_layers_internal fuel index key
              (pos ((b + e) / 2 + 1))
              (pos e)
              (next_base base)
              (dst * 2 + 1)
              (layer + 1)
    unfolding find_inner_layers_internal
    step_right more =
        ground (arith, go_on, midpoint_lem b e sum_small order, cell_is, more, same_base)

  last_layer :
      (fuel p b e base dst layer : ℕ)
      → IsPlace index 0 p b e base dst layer
      → find_inner_layers_internal (suc fuel) index key (pos b) (before_pos e) base dst layer
        ≡ done (pos b, before_pos e)
  unfolding find_inner_layers_internal
  last_layer fuel p b e base dst layer at = ground (arith, at.layers)

  module _ (sorted : IsSorted c) where
    pub Covers-left :
        (b e m : ℕ) (x : KeyOffsetPair)
        → get_elem? c m ≡ some x
        → key < x.key
        → Covers b e
        → Covers b m
    Covers-left b e m x at_m less covers i y at_i same =
        let (lo, hi) = covers i y at_i same in
        (
          lo,
          elim (dec_lt i m) [
            | yes below ↦ below
            | no above ↦
                absurd (omega (arith, IsSorted-le c m i x y sorted (omega arith) at_m at_i))
          ],
        )

    pub Covers-right :
        (b e m : ℕ) (x : KeyOffsetPair)
        → get_elem? c m ≡ some x
        → x.key < key
        → Covers b e
        → Covers (m + 1) e
    Covers-right b e m x at_m more covers i y at_i same =
        let (lo, hi) = covers i y at_i same in
        (
          elim (dec_lt m i) [
            | yes above ↦ omega arith
            | no below ↦
                absurd (omega (arith, IsSorted-le c i m y x sorted (omega arith) at_i at_m))
          ],
          hi,
        )

    pub descend-Narrows :
        (fuel k p b e base dst layer : ℕ)
        → IsPlace index k p b e base dst layer
        → k < fuel
        → ((q : ℕ) → Below k p q → Right c index.inner_nodes q)
        → Covers b e
        → Returns
            (find_inner_layers_internal fuel index key (pos b) (before_pos e) base dst layer)
            (Narrows c key)
    descend-Narrows zero k p b e base dst layer at enough right covers = elim enough [ ]
    descend-Narrows (suc fuel) zero p b e base dst layer at enough right covers =
        rw (last_layer fuel p b e base dst layer at)
          (within b e (omega (arith, at.order, at.inside)) (inl at.inside) covers)
    descend-Narrows (suc fuel) (suc k) p b zero base dst layer at enough right covers =
        absurd (omega (arith, place_some index has k p b 0 base dst layer at))
    descend-Narrows (suc fuel) (suc k) p b (suc e) base dst layer at enough right covers =
        let here = right p (inl refl) in
        let mid : (b + suc e - 1) / 2 ≡ (b + e) / 2 = omega arith in
        let at_mid : get_elem? c ((b + e) / 2) ≡ some here.pair =
          rw mid at (rw at.span at (here.at_middle)) in
        elim (dec_lt key here.pair.key) [
          | yes less ↦ rw (step_left fuel k p b e base dst layer at here.pair here.in_cell less) (
              descend-Narrows fuel k (2 * p + 1) b ((b + e) / 2) (next_base base) (dst * 2)
                (layer + 1) (rw mid at (child_left index has k p b (suc e) base dst layer at))
                (omega arith) (λ q below. right q (inr (inl below)))
                (Covers-left b (suc e) ((b + e) / 2) here.pair at_mid less covers))
          | no not_less ↦ elim (dec_lt here.pair.key key) [
            | yes more ↦
                rw (step_right fuel k p b e base dst layer at here.pair here.in_cell more) (
                  descend-Narrows fuel k (2 * p + 2) ((b + e) / 2 + 1) (suc e) (next_base base)
                    (dst * 2 + 1) (layer + 1)
                    (rw mid at (child_right index has k p b (suc e) base dst layer at))
                    (omega arith) (λ q below. right q (inr (inr below)))
                    (Covers-right b (suc e) ((b + e) / 2) here.pair at_mid more covers))
            | no not_more ↦
                rw (step_found fuel k p b e base dst layer at here.pair here.in_cell (omega arith))
                  (exact ((b + e) / 2) here.pair at_mid (omega arith))
          ]
        ]
