-- ===== src/Static/Binary/Root.antt =====
-- `construct_inner_layers` of src/static_index/binary_index.h: the root and its two subtrees.
use index_zoo.Base.{
  arith, ℕ, suc, ◌+◌, ◌-◌, ◌/◌, ◌%◌, ◌<◌, ◌≡◌, ◌≢◌, sym, ◌∙◌, List, length, set, get_elem?,
  length-set, Option, some, done, Returns, Returns-map, Returns-bind, ◌>>=◌, write_cell,
  write_cell_lem, pos, before_pos, to_int, to_int_before, to_int_last, to_int_small, ℕ_discrete,
}
use mathlib.Core.Path.{subst}
use index_zoo.Table.Offset.{word}
use index_zoo.Static.Entry.{KeyOffsetPair}
use index_zoo.Static.Binary.{BinaryIndex, construct_inner_layers_internal, construct_inner_layers}
use index_zoo.Static.Binary.Place.{
  HasLayers, IsPlace, place_cell, root-IsPlace, child_left, child_right,
}
use index_zoo.Static.Binary.Build.{Filled, construct-Filled, root-Right, Filled-join, Filled-last}
use index_zoo.Static.Binary.Heap.{middle, range_of, range_of-root, Right}

module _ (index : BinaryIndex) (has : HasLayers index) (k : ℕ) (layers : index.num_layers ≡ suc k)
    (sized : length index.inner_nodes ≡ index.inner_node_count) where
  abbrev c : List KeyOffsetPair
  c = index.container

  root : IsPlace index (suc k) 0 0 (length c) 0 0 0
  root = root-IsPlace index has k layers

  module _ (x : KeyOffsetPair) (at_mid : get_elem? c ((length c - 1) / 2) ≡ some x) where
    written : List (Option ℕ)
    written = set index.inner_nodes 0 (some x.key)

    some_pair : 0 < length c
    some_pair = omega (arith, has.fewer)

    write_root : write_cell index.inner_nodes 0 x.key ≡ done (set index.inner_nodes 0 (some x.key))
    write_root =
        write_cell_lem index.inner_nodes 0 x.key
          (omega (arith, sized, place_cell index has k 0 0 (length c) 0 0 0 root))

    end_is : (length c + word - 1) % word ≡ length c - 1
    end_is = omega (arith, some_pair, has.small)

    one_layer : k ≡ 0 → construct_inner_layers index ≡ done (set index.inner_nodes 0 (some x.key))
    unfolding construct_inner_layers
    one_layer single = rw end_is (ground (arith, at_mid, write_root, layers, single))

    more_layers :
        k ≢ 0
        → construct_inner_layers index ≡ (
            construct_inner_layers_internal index.num_layers index
              (set index.inner_nodes 0 (some x.key))
              (pos 0)
              (before_pos ((length c - 1) / 2))
              1
              0
              1
            >>= λ left.
                construct_inner_layers_internal index.num_layers index left
                  (pos ((length c - 1) / 2 + 1))
                  (before_pos (length c))
                  1
                  1
                  1)
    unfolding construct_inner_layers
    more_layers several = rw end_is (
        ground (
          arith,
          at_mid,
          write_root,
          layers,
          several,
          to_int_before ((length c - 1) / 2),
          to_int_small ((length c - 1) / 2 + 1),
          end_int,
          has.small,
          some_pair,
        ))
      where
        end_int : to_int (length c - 1) ≡ before_pos (length c)
        end_int = to_int_last (length c) some_pair (omega (arith, has.small))

    from_zero : (0 + length c - 1) / 2 ≡ (length c - 1) / 2
    from_zero = omega arith

    subtree :
        (p b e dst : ℕ) (nodes : List (Option ℕ))
        → IsPlace index k p b e 1 dst 1
        → k ≢ 0
        → length nodes ≡ index.inner_node_count
        → Returns
            (construct_inner_layers_internal index.num_layers index nodes
              (pos b)
              (before_pos e)
              1
              dst
              1)
            (Filled index has k p nodes)
    subtree p b e dst nodes at several fits =
        let pred_k : k ≡ suc (k - 1) = omega arith in
        subst
          (λ m.
            Returns
              (construct_inner_layers_internal index.num_layers index nodes (pos b) (before_pos e) 1
                dst 1)
              (Filled index has m p nodes))
          (sym pred_k)
          (construct-Filled index has index.num_layers (k - 1) p b e 1 dst 1 nodes
            (subst (λ m. IsPlace index m p b e 1 dst 1) pred_k at) fits (omega (arith, layers)))

    -- After `construct_inner_layers` every cell of the `num_layers` layers holds the key in the
    -- middle of its range.
    pub construct-Right :
        Returns (construct_inner_layers index) (Filled index has (suc k) 0 index.inner_nodes)
    construct-Right = elim (ℕ_discrete k 0) [
      | yes single ↦ rw (one_layer single) (
          let last : Filled index has 1 0 index.inner_nodes (set index.inner_nodes 0 (some x.key)) =
            Filled-last index has 0 index.inner_nodes x at_root in_nodes here in
          rw single last)
      | no several ↦ rw (more_layers several) (
          Returns-bind (Filled index has k 1 (set index.inner_nodes 0 (some x.key)))
            (Filled index has (suc k) 0 index.inner_nodes)
            (construct_inner_layers_internal index.num_layers index
              (set index.inner_nodes 0 (some x.key)) (pos 0) (before_pos ((length c - 1) / 2)) 1 0
              1)
            (λ left.
              construct_inner_layers_internal index.num_layers index left
                (pos ((length c - 1) / 2 + 1)) (before_pos (length c)) 1 1 1)
            (subtree 1 0 ((length c - 1) / 2) 0 (set index.inner_nodes 0 (some x.key))
              (rw from_zero at (child_left index has k 0 0 (length c) 0 0 0 root)) several
              (length-set index.inner_nodes 0 (some x.key) ∙ sized))
            (λ left l.
              Returns-map
                (construct_inner_layers_internal index.num_layers index left
                  (pos ((length c - 1) / 2 + 1)) (before_pos (length c)) 1 1 1)
                (λ right r.
                  Filled-join index has k 0 index.inner_nodes left right x at_root in_nodes here l
                    r)
                (subtree 2 ((length c - 1) / 2 + 1) (length c) 1 left
                  (rw from_zero at (child_right index has k 0 0 (length c) 0 0 0 root)) several
                  (l.same_length ∙ length-set index.inner_nodes 0 (some x.key) ∙ sized))))
    ]
      where
        in_nodes : 0 < length index.inner_nodes
        in_nodes = omega (arith, sized, place_cell index has k 0 0 (length c) 0 0 0 root)

        at_root : get_elem? c (middle (range_of (length c) 0)) ≡ some x
        at_root = rw (range_of-root (length c)) (rw from_zero at_mid)

        here : Right c (set index.inner_nodes 0 (some x.key)) 0
        here =
            root-Right index has index.inner_nodes sized k 0 0 (length c) 0 0 0 root x
              (rw from_zero at_mid)
