-- ===== src/Static/Binary/Laws.antt =====
-- `find` of src/static_index/binary_index.h on an index that `reorganize` has built.
use mathlib.Core.List.{append-nil}
use mathlib.Core.List.Perm
use index_zoo.Base.{
  arith, ℕ, zero, suc, ◌+◌, ◌<◌, ◌≤◌, ◌≡◌, refl, ap, inl, inr, List, [], ◌∷◌, ◌++◌, length,
  get_elem?, get_elem?-lt, some, done, Returns, Perm, ℕ_discrete,
}
use index_zoo.Static.Entry.{KeyOffsetPair, IsSorted-le, matching, key_in_bounds}
use index_zoo.Static.Entry.Absent.{present_or_absent, matching-absent}
use index_zoo.Static.Find.Range.{Narrows, within}
use index_zoo.Static.Find.By.{find_by-present, find_by-Absent, find_by-single}
use index_zoo.Static.Binary.{BinaryIndex, find_inner_layers, find}
use index_zoo.Static.Binary.Narrow.{IsBuilt, no_layers, whole_reach, layers-Narrows, left_of_three}

module _ (index : BinaryIndex) (built : IsBuilt index) (key : ℕ) (out : List ℕ) where
  abbrev c : List KeyOffsetPair
  c = index.container

  any_layers :
      (n i : ℕ) (x : KeyOffsetPair)
      → index.num_layers ≡ n
      → get_elem? c i ≡ some x
      → x.key ≡ key
      → Returns (find_inner_layers index key) (Narrows c key)
  any_layers zero i x layers at_i same = rw (no_layers index built key layers) (
      within 0 (length c + 1) (omega arith) (whole_reach index built key in_bounds)
        (λ j y at_j s. (omega arith, omega (arith, get_elem?-lt c j y at_j))))
    where
      in_bounds : key ≤ index.key_max
      in_bounds = omega (
        arith,
        (key_in_bounds c index.key_min index.key_max i x built.sorted built.bounds at_i).1,
      )
  any_layers (suc n) i x layers at_i same = layers-Narrows index built key n layers

  -- On an index that `reorganize` has built, with any number of layers, `find` of a key that is in
  -- the array returns, and adds to `offsets` the offsets of all pairs with the key, each once.
  pub find-present :
      (i : ℕ) (x : KeyOffsetPair)
      → get_elem? c i ≡ some x
      → x.key ≡ key
      → Returns (find index key out) (λ r. Perm r (out ++ matching key c))
  unfolding find
  find-present i x at_i same =
      find_by-present c index.key_min index.key_max (find_inner_layers index) key out built.sorted
        built.bounds built.layers.small i x
        (λ differ. any_layers index.num_layers i x refl at_i same) at_i same

  -- On an index that `reorganize` has built with no layers `find` ends normally for every key, and
  -- is exact: it adds the offsets of all pairs with the key, each once, and none if no pair has
  -- it.
  pub find_no_layers :
      index.num_layers ≡ 0 → Returns (find index key out) (λ r. Perm r (out ++ matching key c))
  unfolding find
  find_no_layers none_at_all = elim (present_or_absent key c) [
    | inl (i, x, at_i, same) ↦ find-present i x at_i same
    | inr absent ↦
        rw
          (
            find_by-Absent c index.key_min index.key_max (find_inner_layers index) key out
                built.sorted built.bounds built.layers.small 0 (length c + 1)
                (λ lo hi differ. (
                  no_layers index built key none_at_all,
                  omega arith,
                  whole_reach index built key hi,
                ))
                (omega (arith, built.layers.fewer)) (λ i x lo hi at_i. absent i x at_i),
            matching-absent key c absent,
            append-nil out,
          )
          (Perm.refl out)
  ]

  -- A defect: on an index that `reorganize` has built with one layer over three pairs, for a key
  -- strictly between the first and the second key, which no pair has, `find` adds the offset of
  -- the first pair.
  pub find_wrong :
      (x y : KeyOffsetPair)
      → index.num_layers ≡ 1
      → length c ≡ 3
      → get_elem? c 0 ≡ some x
      → get_elem? c 1 ≡ some y
      → x.key < key
      → key < y.key
      → find index key out ≡ done (out ++ x.offset ∷ [])
  unfolding find
  find_wrong x y layer three at_0 at_1 above below =
      find_by-single c index.key_min index.key_max (find_inner_layers index) key out built.sorted
        built.bounds built.layers.small 0 x
        (omega (arith, built.bounds.min_is, ap (λ u. u.key) first_is))
        (omega (
          arith,
          (key_in_bounds c index.key_min index.key_max 1 y built.sorted built.bounds at_1).1,
        ))
        (left_of_three index built key y layer three at_1 below) at_0
        (λ i z from inside at_i same. elim (ℕ_discrete i 0) [
          | yes zeroth ↦ omega (arith, IsSorted-le c i 0 z x built.sorted (omega arith) at_i at_0)
          | no later ↦ omega (arith, IsSorted-le c 1 i y z built.sorted (omega arith) at_1 at_i)
        ])
    where
      first_is : built.bounds.first ≡ x
      first_is = cc (built.bounds.at_first)
