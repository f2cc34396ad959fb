-- ===== src/Static/Binary/Place.antt =====
-- Where a call of `construct_inner_layers_internal` or `find_inner_layers_internal` of
-- src/static_index/binary_index.h stands in the tree.
use index_zoo.Base.{
  two_pow_pos, arith, ℕ, suc, ◌+◌, ◌-◌, ◌*◌, ◌/◌, ◌^◌, ◌<◌, ◌≤◌, ◌≡◌, refl, ap, ◌∙◌, List, length,
}
use native.Mathlib.Nat.{pow-suc}
use index_zoo.Static.Entry.{KeyOffsetPair}
use index_zoo.Static.Binary.{BinaryIndex, next_base}
use index_zoo.Static.Binary.Heap.{
  left_of, right_of, range_of, range_of-root, range_of-left, range_of-right,
}

double_le : (a t : ℕ) → 1 ≤ t → a * 2 ≤ a * (t * 2)
double_le a t h = grind arith

-- What the layers need of the array: fewer cells than pairs, and indices that fit in an `int`.
pub record HasLayers (index : BinaryIndex) : Type 0 where
  pub small : length index.container ≤ 2 ^ 30 - 1
  pub count_is : index.inner_node_count + 1 ≡ 2 ^ index.num_layers
  pub fewer : index.inner_node_count < length index.container

-- A call for the `k` layers from position `p` down, on the range from `b` to `e`.
pub record IsPlace (index : BinaryIndex) (k p b e base dst layer : ℕ) : Type 0 where
  pub layers : layer + k ≡ index.num_layers
  pub span : range_of (length index.container) p ≡ (b, e)
  pub position : base + dst ≡ p
  pub room : (p + 2) * 2 ^ k ≤ 2 * 2 ^ index.num_layers
  pub order : b ≤ e
  pub wide : 2 ^ k ≤ e - b + 1
  pub inside : e ≤ length index.container

module _ (index : BinaryIndex) (has : HasLayers index) where
  abbrev c : List KeyOffsetPair
  c = index.container

  module _ (k p b e base dst layer : ℕ) (at : IsPlace index (suc k) p b e base dst layer) where
    pub place_cell : p < index.inner_node_count
    place_cell =
        let bound : (p + 2) * 2 ≤ (p + 2) * 2 ^ suc k =
          rw (pow-suc 2 k) (double_le (p + 2) (2 ^ k) (two_pow_pos k)) in
        omega (arith, bound, at.room, has.count_is)

    pub place_some : b < e
    place_some = omega (arith, at.wide, pow-suc 2 k, two_pow_pos k, at.order)

    small_base : base + dst < 2 ^ 30
    small_base = omega (arith, at.position, place_cell, has.fewer, has.small)

    pub child_left :
        IsPlace index k (2 * p + 1) b ((b + e - 1) / 2) (next_base base) (dst * 2) (layer + 1)
    child_left = record {
      layers = omega (arith, at.layers);
      span = range_of-left (length c) p ∙ ap left_of at.span;
      position = omega (arith, at.position, small_base);
      room = omega (arith, rw (pow-suc 2 k) at at.room);
      order = omega (arith, place_some);
      wide = omega (arith, at.wide, pow-suc 2 k, place_some);
      inside = omega (arith, at.inside, place_some);
    }

    pub child_right :
        IsPlace index k
          (2 * p + 2)
          ((b + e - 1) / 2 + 1)
          e
          (next_base base)
          (dst * 2 + 1)
          (layer + 1)
    child_right = record {
      layers = omega (arith, at.layers);
      span = range_of-right (length c) p ∙ ap right_of at.span;
      position = omega (arith, at.position, small_base);
      room = omega (arith, rw (pow-suc 2 k) at at.room);
      order = omega (arith, place_some);
      wide = omega (arith, at.wide, pow-suc 2 k, place_some);
      inside = at.inside;
    }

  -- The root: all layers, over the whole array.
  pub root-IsPlace : (k : ℕ) → index.num_layers ≡ suc k → IsPlace index (suc k) 0 0 (length c) 0 0 0
  root-IsPlace k layers = record {
    layers = omega (arith, layers);
    span = range_of-root (length c);
    position = refl;
    room = rw layers (omega arith);
    order = omega arith;
    wide = omega (arith, has.count_is, has.fewer, ap (λ l. 2 ^ l) layers);
    inside = omega arith;
  }
