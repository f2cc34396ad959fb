-- ===== src/Static/Find/Flat.antt =====
-- `find` of src/static_index/binary_index.h and kary_index.h where there are no inner layers, which
-- both answer with the range from 0 to the size.
use mathlib.Core.List.{append-nil}
use mathlib.Core.List.Perm
use index_zoo.Base.{
  arith, ℕ, ◌+◌, ◌-◌, ◌<◌, ◌≤◌, ◌≡◌, refl, inl, inr, List, ◌++◌, length, get_elem?-lt, ◌^◌, Run,
  done, Returns, ℤ, pos, before_pos, Perm,
}
use index_zoo.Static.Entry.{KeyOffsetPair, IsSorted, IsBounds, matching, key_in_bounds}
use index_zoo.Static.Entry.Absent.{present_or_absent, matching-absent}
use index_zoo.Static.Search.{InReach}
use index_zoo.Static.Find.{find_by}
use index_zoo.Static.Find.Range.{within}
use index_zoo.Static.Find.By.{find_by-present, find_by-Absent}

module _ (c : List KeyOffsetPair) (key_min key_max : ℕ) (inner : ℕ → Run (ℤ × ℤ)) (key : ℕ)
    (out : List ℕ) (sorted : IsSorted c) (bounds : IsBounds c key_min key_max)
    (small : length c ≤ 2 ^ 30 - 1)
    (whole : inner key ≡ done (pos 0, before_pos (length c + 1))) where
  some_pair : 0 < length c
  some_pair = omega (arith, get_elem?-lt c 0 bounds.first bounds.at_first)

  reach : key ≤ key_max → InReach c key 0 (length c + 1)
  reach h = inr (refl, (bounds.last, bounds.at_last, omega (arith, bounds.max_is), some_pair))

  pub find_flat :
      Returns (find_by c key_min key_max inner key out) (λ r. Perm r (out ++ matching key c))
  find_flat = elim (present_or_absent key c) [
    | inl (i, x, at_i, same) ↦
        find_by-present c key_min key_max inner key out sorted bounds small i x
          (λ differ. rw whole (
            within 0 (length c + 1) (omega arith)
              (reach
                (omega (arith, same, (key_in_bounds c key_min key_max i x sorted bounds at_i).1)))
              (λ j y at_j s. (omega arith, omega (arith, get_elem?-lt c j y at_j)))))
          at_i same
    | inr absent ↦
        rw
          (
            find_by-Absent c key_min key_max inner key out sorted bounds small 0 (length c + 1)
                (λ lo hi differ. (whole, omega arith, reach hi)) (omega (arith, some_pair))
                (λ i x lo hi at_i. absent i x at_i),
            matching-absent key c absent,
            append-nil out,
          )
          (Perm.refl out)
  ]
