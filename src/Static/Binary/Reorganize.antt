-- ===== src/Static/Binary/Reorganize.antt =====
-- `reorganize` of src/static_index/binary_index.h builds what `find` relies on.
use mathlib.Core.Path.{subst}
use index_zoo.Base.{
  two_pow_pos, arith, ℕ, suc, ◌-◌, ◌/◌, ◌^◌, ◌<◌, ◌≤◌, ◌≡◌, refl, List, [], length, get_elem?,
  get_elem?-some, Option, some, none, replicate, length-replicate, done, Returns, Returns-bind,
  Returns-map, lt→ltb, ◌==◌, true, false, ℕ_discrete,
}
use index_zoo.Table.Generic.{GenericDataTable, size}
use index_zoo.Table.Generic.Valid.{IsValid}
use index_zoo.Static.Entry.{KeyOffsetPair, IsBounds}
use index_zoo.Static.Sorting.{Sorter}
use index_zoo.Static.Reorganize.{base_reorganize}
use index_zoo.Static.Reorganize.Sorted.{Sorts, base_reorganize-Sorts}
use index_zoo.Static.Binary.{BinaryIndex, new_index, reorganize, construct_inner_layers}
use index_zoo.Static.Binary.Place.{HasLayers}
use index_zoo.Static.Binary.Root.{construct-Right}
use index_zoo.Static.Binary.Heap.{Below}
use index_zoo.Static.Binary.Narrow.{IsBuilt}

-- The index that `reorganize` leaves, for `layers` layers over the `n` tuples of `t`.
pub record Reorganized (t : GenericDataTable) (n layers : ℕ) (index : BinaryIndex) : Type 0 where
  pub built : IsBuilt index
  pub same_layers : index.num_layers ≡ layers
  pub sorts : Sorts t n index.container

module _ (layers n : ℕ) (t : GenericDataTable) (few : 2 ^ layers ≤ n) (small : n ≤ 2 ^ 30 - 1) where
  some_tuple : 0 < n
  some_tuple = omega (arith, two_pow_pos layers, few)

  module _ (c : List KeyOffsetPair) (s : Sorts t n c) (first last : KeyOffsetPair)
      (at_first : get_elem? c 0 ≡ some first)
      (at_last : get_elem? c (length c - 1) ≡ some last) where
    abbrev allocated : List (Option ℕ) → BinaryIndex
    allocated nodes = record {
      num_layers = layers;
      container = c;
      key_min = first.key;
      key_max = last.key;
      inner_nodes = nodes;
      inner_node_count = 2 ^ layers - 1;
    }

    has : (nodes : List (Option ℕ)) → HasLayers (allocated nodes)
    has nodes = record {
      small = omega (arith, s.count_is);
      count_is = omega (arith, two_pow_pos layers);
      fewer = omega (arith, s.count_is, two_pow_pos layers);
    }

    bounds : IsBounds c first.key last.key
    bounds = record {
      first = first;
      last = last;
      at_first = at_first;
      at_last = at_last;
      min_is = refl;
      max_is = refl;
    }

    without_layers : layers ≡ 0 → Reorganized t n layers (allocated [])
    without_layers none_at_all = record {
      built = record {
        layers = has [];
        sorted = s.sorted;
        bounds = bounds;
        right = λ q below. absurd (subst (λ l. Below l 0 q) none_at_all below);
      };
      same_layers = refl;
      sorts = s;
    }

    with_layers :
        (k : ℕ)
        → layers ≡ suc k
        → Returns
            (construct_inner_layers (allocated (replicate (2 ^ layers - 1) none)))
            (λ nodes. Reorganized t n layers (allocated nodes))
    with_layers k several =
        let (x, at_mid) =
          get_elem?-some c ((length c - 1) / 2) (omega (arith, s.count_is, some_tuple)) in
        let empty : List (Option ℕ) = replicate (2 ^ layers - 1) none in
        Returns-map (construct_inner_layers (allocated empty))
          (λ nodes filled. record {
            built = record {
              layers = has nodes;
              sorted = s.sorted;
              bounds = bounds;
              right = λ q below. filled.fills q (subst (λ l. Below l 0 q) several below);
            };
            same_layers = refl;
            sorts = s;
          })
          (construct-Right (allocated empty) (has empty) k several
            (length-replicate (2 ^ layers - 1) none) x at_mid)

module _ (std : Sorter) (layers n : ℕ) (t : GenericDataTable) (v : IsValid t)
    (counted : size t ≡ done n) (few : 2 ^ layers ≤ n) (small : n ≤ 2 ^ 30 - 1) where
  -- For any sort with the laws of `std::sort`, `reorganize` of a new index with `layers` layers on a
  -- valid table of `n` tuples, where 2^layers ≤ n < 2^30, ends normally. The array that it leaves
  -- is a sorted permutation of the pairs of all tuples, and the index is one that `find` can
  -- rely on: every cell of the layers holds the key in the middle of its range.
  pub reorganize-Reorganized :
      Returns (reorganize std (new_index layers) t) (Reorganized t n layers)
  unfolding reorganize new_index
  reorganize-Reorganized =
      Returns-bind (Sorts t n) (Reorganized t n layers) (base_reorganize std [] t) _
        (base_reorganize-Sorts std t v n counted (some_tuple layers n t few small))
        (λ c s.
          let (first, at_first) =
            get_elem?-some c 0 (omega (arith, s.count_is, some_tuple layers n t few small)) in
          let (last, at_last) =
            get_elem?-some c (length c - 1)
              (omega (arith, s.count_is, some_tuple layers n t few small)) in
          rw
            (
              lt→ltb (2 ^ layers - 1) (length c) (omega (arith, s.count_is, two_pow_pos layers)),
              at_first,
              at_last,
            )
            (elim (ℕ_discrete layers 0) [
              | yes none_at_all ↦
                  let test : (layers == 0) ≡ true = ground arith in
                  rw test (
                    without_layers layers n t few small c s first last at_first at_last none_at_all)
              | no more ↦
                  let test : (layers == 0) ≡ false = ground arith in
                  rw test (
                    Returns-bind
                      (λ nodes.
                        Reorganized t n layers
                          (allocated layers n t few small c s first last at_first at_last nodes))
                      (Reorganized t n layers)
                      (construct_inner_layers (
                        allocated layers n t few small c s first last at_first at_last
                          (replicate (2 ^ layers - 1) none)))
                      (λ nodes.
                        done (allocated layers n t few small c s first last at_first at_last nodes))
                      (with_layers layers n t few small c s first last at_first at_last (layers - 1)
                        (omega arith))
                      (λ nodes r. r))
            ]))
