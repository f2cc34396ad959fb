-- ===== src/Static/Fast/Block.antt =====
-- A SIMD block of src/static_index/fast_index.h that `construct_simd_block` has written.
use index_zoo.Base.{
  arith, ℕ, ◌+◌, ◌-◌, ◌*◌, ◌^◌, ◌%◌, ◌<◌, ◌≤◌, ◌≡◌, refl, ◌∙◌, List, length, set, length-set,
  get_elem?, get_elem?-some, get_elem?-set_self, get_elem?-set_ne, some, done, Returns,
}
use index_zoo.Table.Offset.{word}
use index_zoo.Static.Entry.{KeyOffsetPair, IsSorted, IsSorted-le}
use index_zoo.Static.Fast.{construct_simd_block, write_key, step_of, lookup_simd_block}
use index_zoo.Static.Fast.Simd.{is_below, lookup_simd_block-counts}

write_key_lem :
    (nodes : List ℕ) (i key : ℕ) → i < length nodes → write_key nodes i key ≡ done (set nodes i key)
unfolding write_key
write_key_lem nodes i key h = ground arith

module _ (c : List KeyOffsetPair) (sorted : IsSorted c) (small : length c ≤ 2 ^ 30 - 1)
    (lhs rhs step : ℕ) (stepped : step_of lhs rhs 4 ≡ step) (wide : 1 ≤ step)
    (inside : lhs + 3 * step ≤ length c) (nodes : List ℕ) (p : ℕ) (room : p + 3 < length nodes)
    (x y z : KeyOffsetPair) (at_low : get_elem? c (lhs + step - 1) ≡ some x)
    (at_middle : get_elem? c (lhs + 2 * step - 1) ≡ some y)
    (at_high : get_elem? c (lhs + 3 * step - 1) ≡ some z) where
  abbrev first : List ℕ
  first = set nodes p y.key

  abbrev second : List ℕ
  second = set first (p + 1) x.key

  abbrev written : List ℕ
  written = set second (p + 2) z.key

  constructs : construct_simd_block c p lhs rhs nodes ≡ done written
  unfolding construct_simd_block
  constructs =
      rw
        (
          stepped,
          index_middle,
          index_low,
          index_high,
          at_middle,
          at_low,
          at_high,
          from_zero,
          write_key_lem nodes p y.key (omega arith),
          write_key_lem first (p + 1) x.key (omega (arith, length-set nodes p y.key)),
          write_key_lem second (p + 2) z.key
              (omega (arith, length-set nodes p y.key, length-set first (p + 1) x.key)),
        )
        refl
    where
      from_zero : p + 0 ≡ p
      from_zero = omega arith

      index_middle : (lhs + 2 * step + word - 1) % word ≡ lhs + 2 * step - 1
      index_middle = omega arith

      index_low : (lhs + 1 * step + word - 1) % word ≡ lhs + step - 1
      index_low = omega arith

      index_high : (lhs + 3 * step + word - 1) % word ≡ lhs + 3 * step - 1
      index_high = omega arith

  -- Let a sorted array of fewer than 2^30 pairs have keys x, y and z at the ends of the first, the
  -- second and the third quarter of a range, z below 2^31. After `construct_simd_block` on the
  -- range, `lookup_simd_block` of a key below 2^31 returns how many of x, y and z are below the
  -- key: the quarter in which the search goes on.
  pub construct-lookup :
      (key : ℕ)
      → z.key < 2 ^ 31
      → key < 2 ^ 31
      → Returns (construct_simd_block c p lhs rhs nodes) (λ ns.
        lookup_simd_block ns key p
        ≡ done (is_below key x.key + is_below key y.key + is_below key z.key))
  construct-lookup key h k =
      let (after, at_after) = get_elem?-some nodes (p + 3) room in
      rw constructs (
        lookup_simd_block-counts written key p x.key y.key z.key after lane_0 lane_1 lane_2
          (lane_3 after at_after)
          (IsSorted-le c (lhs + step - 1) (lhs + 2 * step - 1) x y sorted (omega arith) at_low
            at_middle)
          (IsSorted-le c (lhs + 2 * step - 1) (lhs + 3 * step - 1) y z sorted (omega arith)
            at_middle at_high)
          h k)
    where
      lane_0 : get_elem? written p ≡ some y.key
      lane_0 =
          get_elem?-set_ne second (p + 2) p z.key (omega arith)
          ∙ get_elem?-set_ne first (p + 1) p x.key (omega arith)
          ∙ get_elem?-set_self nodes p y.key (omega arith)

      lane_1 : get_elem? written (p + 1) ≡ some x.key
      lane_1 =
          get_elem?-set_ne second (p + 2) (p + 1) z.key (omega arith)
          ∙ get_elem?-set_self first (p + 1) x.key (omega (arith, length-set nodes p y.key))

      lane_2 : get_elem? written (p + 2) ≡ some z.key
      lane_2 =
          get_elem?-set_self second (p + 2) z.key
            (omega (arith, length-set nodes p y.key, length-set first (p + 1) x.key))

      lane_3 :
          (after : ℕ)
          → get_elem? nodes (p + 3) ≡ some after
          → get_elem? written (p + 3) ≡ some after
      lane_3 after e =
          get_elem?-set_ne second (p + 2) (p + 3) z.key (omega arith)
          ∙ get_elem?-set_ne first (p + 1) (p + 3) x.key (omega arith)
          ∙ get_elem?-set_ne nodes p (p + 3) y.key (omega arith)
          ∙ e
