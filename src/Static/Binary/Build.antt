-- ===== src/Static/Binary/Build.antt =====
-- `construct_inner_layers` of src/static_index/binary_index.h fills every cell, and fills it with
-- the key in the middle of the cell's range.
use index_zoo.Base.{
  arith, ℕ, zero, suc, ◌+◌, ◌-◌, ◌*◌, ◌/◌, ◌%◌, ◌^◌, ◌<◌, ◌≤◌, ◌≡◌, ◌≢◌, ◌∙◌, inl, inr, List,
  length, set, get_elem?, get_elem?-some, get_elem?-set_self, length-set, Option, some, true, false,
  done, Returns, Returns-map, Returns-bind, ◌>>=◌, write_cell, write_cell_lem, pos, before_pos,
  ltb_ℤ, midpoint_lem, to_int_before, to_int_small, ltb, lt→ltb,
}
use index_zoo.Table.Offset.{word}
use index_zoo.Static.Entry.{KeyOffsetPair}
use index_zoo.Static.Binary.{BinaryIndex, next_base, construct_inner_layers_internal}
use index_zoo.Static.Binary.Place.{
  HasLayers, IsPlace, place_cell, place_some, child_left, child_right,
}
use index_zoo.Static.Binary.Heap.{middle, range_of, Below, Right, set-Right}

module _ (index : BinaryIndex) (has : HasLayers index) where
  abbrev c : List KeyOffsetPair
  c = index.container

  -- From the cells `before` to `after`: right cells stay right, and all cells of `k` layers from
  -- position `p` down are right.
  pub record Filled (k p : ℕ) (before after : List (Option ℕ)) : Type 0 where
    pub same_length : length after ≡ length before
    pub keeps : (q : ℕ) → Right c before q → Right c after q
    pub fills : (q : ℕ) → Below k p q → Right c after q

  module _ (nodes : List (Option ℕ)) (sized : length nodes ≡ index.inner_node_count) where
    module _ (k p b e base dst layer : ℕ) (at : IsPlace index (suc k) p b e base dst layer) where
      pub pair_at_middle : (x : KeyOffsetPair) × (get_elem? c ((b + e - 1) / 2) ≡ some x)
      pair_at_middle =
          get_elem?-some c ((b + e - 1) / 2)
            (omega (arith, at.inside, place_some index has k p b e base dst layer at))

      in_nodes : p < length nodes
      in_nodes = omega (arith, sized, place_cell index has k p b e base dst layer at)

      pub root-Right :
          (x : KeyOffsetPair)
          → get_elem? c ((b + e - 1) / 2) ≡ some x
          → Right c (set nodes p (some x.key)) p
      root-Right x at_mid = record {
        pair = x;
        at_middle = rw at.span at_mid;
        in_cell = get_elem?-set_self nodes p (some x.key) in_nodes;
      }

    module _ (fuel k p b e base dst layer : ℕ)
        (at : IsPlace index (suc k) p b (suc e) base dst layer) (x : KeyOffsetPair)
        (at_mid : get_elem? c ((b + e) / 2) ≡ some x) where
      order : b ≤ e
      order = omega (arith, place_some index has k p b (suc e) base dst layer at)

      sum_small : b + e < 2 ^ 31
      sum_small = omega (arith, order, at.inside, has.small)

      not_empty : ltb_ℤ (pos e) (pos b) ≡ false
      not_empty = ground (arith, order)

      cell_ok : ltb (base + dst) index.inner_node_count ≡ true
      cell_ok =
          lt→ltb (base + dst) index.inner_node_count
            (omega (arith, at.position, place_cell index has k p b (suc e) base dst layer at))

      write_ok : write_cell nodes (base + dst) x.key ≡ done (set nodes p (some x.key))
      write_ok = rw at.position (
          write_cell_lem nodes p x.key
            (omega (arith, sized, place_cell index has k p b (suc e) base dst layer at)))

      step_last :
          index.num_layers ≡ layer + 1
          → construct_inner_layers_internal (suc fuel) index nodes (pos b) (pos e) base dst layer
            ≡ done (set nodes p (some x.key))
      unfolding construct_inner_layers_internal
      step_last last =
          ground
            (arith, not_empty, midpoint_lem b e sum_small order, cell_ok, at_mid, write_ok, last)

      step_more :
          index.num_layers ≢ layer + 1
          → construct_inner_layers_internal (suc fuel) index nodes (pos b) (pos e) base dst layer
            ≡ (construct_inner_layers_internal fuel index
                  (set nodes p (some x.key))
                  (pos b)
                  (before_pos ((b + e) / 2))
                  (next_base base)
                  (dst * 2)
                  (layer + 1)
                >>= λ left.
                    construct_inner_layers_internal fuel index left
                      (pos ((b + e) / 2 + 1))
                      (pos e)
                      (next_base base)
                      (dst * 2 + 1)
                      (layer + 1))
      unfolding construct_inner_layers_internal
      step_more more = ground (
        arith,
        not_empty,
        midpoint_lem b e sum_small order,
        cell_ok,
        at_mid,
        write_ok,
        more,
        to_int_before ((b + e) / 2),
        to_int_small (((b + e) / 2 + 1) % word),
      )

  -- The two children complete what the write at their parent began.
  pub Filled-join :
      (k p : ℕ) (nodes left right : List (Option ℕ)) (x : KeyOffsetPair)
      → get_elem? c (middle (range_of (length c) p)) ≡ some x
      → p < length nodes
      → Right c (set nodes p (some x.key)) p
      → Filled k (2 * p + 1) (set nodes p (some x.key)) left
      → Filled k (2 * p + 2) left right
      → Filled (suc k) p nodes right
  Filled-join k p nodes left right x at_p inside here l r = record {
    same_length = r.same_length ∙ l.same_length ∙ length-set nodes p (some x.key);
    keeps = λ q h. r.keeps q (l.keeps q (set-Right c nodes p x q at_p inside h));
    fills = λ q below. elim below [
      | inl root ↦ rw root (r.keeps p (l.keeps p here))
      | inr deeper ↦ elim deeper [
        | inl in_left ↦ r.keeps q (l.fills q in_left)
        | inr in_right ↦ r.fills q in_right
      ]
    ];
  }

  pub Filled-last :
      (p : ℕ) (nodes : List (Option ℕ)) (x : KeyOffsetPair)
      → get_elem? c (middle (range_of (length c) p)) ≡ some x
      → p < length nodes
      → Right c (set nodes p (some x.key)) p
      → Filled 1 p nodes (set nodes p (some x.key))
  Filled-last p nodes x at_p inside here = record {
    same_length = length-set nodes p (some x.key);
    keeps = λ q h. set-Right c nodes p x q at_p inside h;
    fills = λ q below. elim below [
      | inl root ↦ rw root here
      | inr deeper ↦ elim deeper [ inl nowhere ↦ absurd nowhere | inr nowhere ↦ absurd nowhere ]
    ];
  }

  pub construct-Filled :
      (fuel k p b e base dst layer : ℕ) (nodes : List (Option ℕ))
      → IsPlace index (suc k) p b e base dst layer
      → length nodes ≡ index.inner_node_count
      → k < fuel
      → Returns
          (construct_inner_layers_internal fuel index nodes (pos b) (before_pos e) base dst layer)
          (Filled (suc k) p nodes)
  construct-Filled zero k p b e base dst layer nodes at sized enough = elim enough [ ]
  construct-Filled (suc fuel) k p b zero base dst layer nodes at sized enough =
      absurd (omega (arith, place_some index has k p b 0 base dst layer at))
  construct-Filled (suc fuel) zero p b (suc e) base dst layer nodes at sized enough =
      let (x, at_mid) = pair_at_middle nodes sized 0 p b (suc e) base dst layer at in
      let mid : (b + suc e - 1) / 2 ≡ (b + e) / 2 = omega arith in
      let inside : p < length nodes = in_nodes nodes sized 0 p b (suc e) base dst layer at in
      rw
        (step_last nodes sized fuel 0 p b e base dst layer at x (rw mid at at_mid)
          (omega (arith, at.layers)))
        (Filled-last p nodes x (rw at.span at_mid) inside
          (root-Right nodes sized 0 p b (suc e) base dst layer at x at_mid))
  construct-Filled (suc fuel) (suc k) p b (suc e) base dst layer nodes at sized enough =
      let (x, at_mid) = pair_at_middle nodes sized (suc k) p b (suc e) base dst layer at in
      let mid : (b + suc e - 1) / 2 ≡ (b + e) / 2 = omega arith in
      let inside : p < length nodes = in_nodes nodes sized (suc k) p b (suc e) base dst layer at in
      rw
        (step_more nodes sized fuel (suc k) p b e base dst layer at x (rw mid at at_mid)
          (omega (arith, at.layers)))
        (Returns-bind (Filled (suc k) (2 * p + 1) (set nodes p (some x.key)))
          (Filled (suc (suc k)) p nodes)
          (construct_inner_layers_internal fuel index (set nodes p (some x.key)) (pos b)
            (before_pos ((b + e) / 2)) (next_base base) (dst * 2) (layer + 1))
          (λ left.
            construct_inner_layers_internal fuel index left (pos ((b + e) / 2 + 1)) (pos e)
              (next_base base) (dst * 2 + 1) (layer + 1))
          (construct-Filled fuel k (2 * p + 1) b ((b + e) / 2) (next_base base) (dst * 2)
            (layer + 1) (set nodes p (some x.key))
            (rw mid at (child_left index has (suc k) p b (suc e) base dst layer at))
            (length-set nodes p (some x.key) ∙ sized) (omega arith))
          (λ left l.
            Returns-map
              (construct_inner_layers_internal fuel index left (pos ((b + e) / 2 + 1)) (pos e)
                (next_base base) (dst * 2 + 1) (layer + 1))
              (λ right r.
                Filled-join (suc k) p nodes left right x (rw at.span at_mid) inside
                  (root-Right nodes sized (suc k) p b (suc e) base dst layer at x at_mid) l r)
              (construct-Filled fuel k (2 * p + 2) ((b + e) / 2 + 1) (suc e) (next_base base)
                (dst * 2 + 1) (layer + 1) left
                (rw mid at (child_right index has (suc k) p b (suc e) base dst layer at))
                (l.same_length ∙ length-set nodes p (some x.key) ∙ sized) (omega arith))))
