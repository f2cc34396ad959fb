-- ===== src/Static/Binary/Narrow.antt =====
-- `find_inner_layers` of src/static_index/binary_index.h on an index that `reorganize` has built.
use index_zoo.Base.{
  arith, ℕ, suc, ◌+◌, ◌-◌, ◌/◌, ◌%◌, ◌<◌, ◌≤◌, ◌≡◌, refl, sym, ◌∙◌, inl, inr, List, length,
  get_elem?, get_elem?-lt, some, done, Returns, pos, before_pos, midpoint_lem, to_int, to_int_small,
  to_int_last, pos-minus-one, dec_lt,
}
use mathlib.Core.Path.{subst, ap₂}
use native.Mathlib.Numerals.{add-one}
use index_zoo.Table.Offset.{word}
use index_zoo.Static.Entry.{KeyOffsetPair, IsSorted, IsBounds}
use index_zoo.Static.Search.{InReach}
use index_zoo.Static.Find.Range.{Narrows, exact}
use index_zoo.Static.Binary.{BinaryIndex, find_inner_layers, find_inner_layers_internal}
use index_zoo.Static.Binary.Place.{HasLayers, root-IsPlace, child_left, child_right}
use index_zoo.Static.Binary.Heap.{range_of-root, Below, Right}
use index_zoo.Static.Binary.Descend.{descend-Narrows, Covers-left, Covers-right}

-- What `reorganize` leaves: a sorted array, its first and its last key, and in every cell of the
-- layers the key in the middle of the cell's range.
pub record IsBuilt (index : BinaryIndex) : Type 0 where
  pub layers : HasLayers index
  pub sorted : IsSorted index.container
  pub bounds : IsBounds index.container index.key_min index.key_max
  pub right : (q : ℕ) → Below index.num_layers 0 q → Right index.container index.inner_nodes q

module _ (index : BinaryIndex) (built : IsBuilt index) (key : ℕ) where
  abbrev c : List KeyOffsetPair
  c = index.container

  some_pair : 0 < length c
  some_pair = omega (arith, built.layers.fewer)

  pub no_layers :
      index.num_layers ≡ 0 → find_inner_layers index key ≡ done (pos 0, before_pos (length c + 1))
  unfolding find_inner_layers
  no_layers none_at_all =
      rw (add-one (length c))
        (ground (arith, none_at_all, to_int_small (length c), built.layers.small))

  pub whole_reach : key ≤ index.key_max → InReach c key 0 (length c + 1)
  whole_reach h = inr (
    refl,
    (built.bounds.last, built.bounds.at_last, omega (arith, built.bounds.max_is), some_pair),
  )

  module _ (k : ℕ) (layers : index.num_layers ≡ suc k) (x : KeyOffsetPair)
      (at_mid : get_elem? c ((length c - 1) / 2) ≡ some x)
      (in_cell : get_elem? index.inner_nodes 0 ≡ some (some x.key)) where
    end_int : to_int ((length c + word - 1) % word) ≡ pos (length c - 1)
    end_int = ground (arith, some_pair, built.layers.small)

    root_found :
        x.key ≡ key
        → find_inner_layers index key ≡ done (pos ((length c - 1) / 2), pos ((length c - 1) / 2))
    unfolding find_inner_layers
    root_found same =
        rw end_int
          (ground (arith, layers, midpoint_lem 0 (length c - 1), built.layers.small, in_cell, same))

    root_left :
        key < x.key
        → find_inner_layers index key
          ≡ find_inner_layers_internal index.num_layers index key
              (pos 0)
              (before_pos ((length c - 1) / 2))
              1
              0
              1
    unfolding find_inner_layers
    root_left less = rw end_int (
        ground (
          arith,
          layers,
          midpoint_lem 0 (length c - 1),
          built.layers.small,
          in_cell,
          less,
          pos-minus-one ((length c - 1) / 2),
        ))

    root-Right :
        x.key < key
        → find_inner_layers index key
          ≡ find_inner_layers_internal index.num_layers index key
              (pos ((length c - 1) / 2 + 1))
              (before_pos (length c))
              1
              1
              1
    unfolding find_inner_layers
    root-Right more =
        rw (end_int, end_is)
          (ground (arith, layers, midpoint_lem 0 (length c - 1), built.layers.small, in_cell, more))
      where
        end_is : before_pos (length c) ≡ pos (length c - 1)
        end_is =
            sym (to_int_last (length c) some_pair (omega (arith, built.layers.small)))
            ∙ to_int_small (length c - 1) (omega (arith, built.layers.small))

  -- On an index that `reorganize` has built with at least one layer `find_inner_layers` ends
  -- normally for every key. It gives either one index, which holds the key, or a range in which
  -- every index that holds the key lies.
  pub layers-Narrows :
      (k : ℕ) → index.num_layers ≡ suc k → Returns (find_inner_layers index key) (Narrows c key)
  layers-Narrows k layers =
      let place = root-IsPlace index built.layers k layers in
      let here = built.right 0 (subst (λ l. Below l 0 0) (sym layers) (inl refl)) in
      let whole : get_elem? c ((0 + length c - 1) / 2) ≡ some here.pair =
        rw (range_of-root (length c)) at (here.at_middle) in
      let from_zero : (0 + length c - 1) / 2 ≡ (length c - 1) / 2 = omega arith in
      let at_mid : get_elem? c ((length c - 1) / 2) ≡ some here.pair = rw from_zero at whole in
      elim (dec_lt key here.pair.key) [
        | yes less ↦ rw (root_left k layers here.pair at_mid here.in_cell less) (
            descend-Narrows index built.layers key built.sorted index.num_layers k 1 0
              ((length c - 1) / 2) 1 0 1
              (rw from_zero at (child_left index built.layers k 0 0 (length c) 0 0 0 place))
              (omega (arith, layers))
              (λ q below. built.right q (subst (λ l. Below l 0 q) (sym layers) (inr (inl below))))
              (Covers-left index built.layers key built.sorted 0 (length c) ((length c - 1) / 2)
                here.pair at_mid less all))
        | no not_less ↦ elim (dec_lt here.pair.key key) [
          | yes more ↦ rw (root-Right k layers here.pair at_mid here.in_cell more) (
              descend-Narrows index built.layers key built.sorted index.num_layers k 2
                ((length c - 1) / 2 + 1) (length c) 1 1 1
                (rw from_zero at (child_right index built.layers k 0 0 (length c) 0 0 0 place))
                (omega (arith, layers))
                (λ q below. built.right q (subst (λ l. Below l 0 q) (sym layers) (inr (inr below))))
                (Covers-right index built.layers key built.sorted 0 (length c) ((length c - 1) / 2)
                  here.pair at_mid more all))
          | no not_more ↦
              rw (root_found k layers here.pair at_mid here.in_cell (omega arith))
                (exact ((length c - 1) / 2) here.pair at_mid (omega arith))
        ]
      ]
    where
      all :
          (i : ℕ) (x : KeyOffsetPair)
          → get_elem? c i ≡ some x
          → x.key ≡ key
          → (0 ≤ i) × (i < length c)
      all i x at_i same = (omega arith, get_elem?-lt c i x at_i)

  at_leaf :
      index.num_layers ≡ 1
      → find_inner_layers_internal 1 index key (pos 0) (pos 0) 1 0 1 ≡ done (pos 0, pos 0)
  unfolding find_inner_layers_internal
  at_leaf one_layer = ground (arith, one_layer)

  -- Under one layer over three pairs the search to the left of the middle pair has one index.
  pub left_of_three :
      (y : KeyOffsetPair)
      → index.num_layers ≡ 1
      → length c ≡ 3
      → get_elem? c 1 ≡ some y
      → key < y.key
      → find_inner_layers index key ≡ done (pos 0, pos 0)
  left_of_three y layers three at_1 less =
      root_left 0 layers y at_mid in_cell less
      ∙ ap₂ (λ f e. find_inner_layers_internal f index key (pos 0) (before_pos e) 1 0 1) layers
          middle_is
      ∙ at_leaf layers
    where
      here : Right c index.inner_nodes 0
      here = built.right 0 (subst (λ l. Below l 0 0) (sym layers) (inl refl))

      middle_is : (length c - 1) / 2 ≡ 1
      middle_is = omega arith

      at_mid : get_elem? c ((length c - 1) / 2) ≡ some y
      at_mid = rw middle_is at_1

      same : here.pair ≡ y
      same =
          let whole : get_elem? c ((0 + length c - 1) / 2) ≡ some here.pair =
            rw (range_of-root (length c)) at (here.at_middle) in
          let one : (0 + length c - 1) / 2 ≡ 1 = omega arith in
          let at_one : get_elem? c 1 ≡ some here.pair = rw one at whole in cc (at_one, at_1)

      in_cell : get_elem? index.inner_nodes 0 ≡ some (some y.key)
      in_cell = rw (← same) (here.in_cell)
