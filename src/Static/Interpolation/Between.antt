-- ===== src/Static/Interpolation/Between.antt =====
-- `find_range` of src/static_index/interpolation_index.h on an index that `reorganize` has built.
use mathlib.Core.List.Perm
use mathlib.Core.List.{append-nil}
use index_zoo.Base.{
  arith, ℕ, ◌+◌, ◌-◌, ◌^◌, ◌<◌, ◌≤◌, ◌≡◌, ◌≢◌, List, ◌++◌, length, get_elem?, get_elem?-lt, some,
  false, ◌==◌, done, Returns, Returns-bind, ◌⊎◌, inl, inr, ◌>>=◌, Perm, dec_lt, ℕ_discrete,
}
use index_zoo.Table.Offset.{word}
use index_zoo.Static.Entry.{KeyOffsetPair, offsets_of, key_in_bounds}
use index_zoo.Static.Entry.Between.{
  in_range, between, between-take, between_none, between_all, between-matching, IsFirst, IsLast,
}
use index_zoo.Static.Find.{push_all}
use index_zoo.Static.Find.By.{push_all_lem}
use index_zoo.Static.Scan.{scan_count, scan_count_lem}
use index_zoo.Static.Interpolation.{Interpolate, InterpolationIndex, find}
use index_zoo.Static.Interpolation.Range.{find_lower_bound, find_upper_bound, find_range}
use index_zoo.Static.Interpolation.Built.{IsBuilt, IsExactAtEnd, width}
use index_zoo.Static.Interpolation.Laws.{find-matching}
use index_zoo.Static.Interpolation.Bounds.{Reaches, lower_bound-IsFirst, upper_bound-IsLast}

module _ (interpolate : Interpolate) (index : InterpolationIndex) (built : IsBuilt index)
    (exact : IsExactAtEnd interpolate) (small : length index.container < 2 ^ 53)
    (short : index.key_max < word) (wide : index.key_min ≢ index.key_max → 0 < width index)
    (lhs_key rhs_key : ℕ) (out : List ℕ) where
  abbrev pairs : List KeyOffsetPair
  pairs = index.container

  used : (length pairs == 0) ≡ false
  used = ground (arith, get_elem?-lt pairs 0 built.bounds.first built.bounds.at_first)

  empty_range : rhs_key < lhs_key → find_range interpolate index lhs_key rhs_key out ≡ done out
  unfolding find_range
  empty_range h = ground arith

  same_ends :
      lhs_key ≡ rhs_key
      → find_range interpolate index lhs_key rhs_key out ≡ find interpolate index lhs_key out
  unfolding find_range
  same_ends h = ground arith

  disjoint :
      lhs_key < rhs_key
      → (index.key_max < lhs_key) ⊎ (rhs_key < index.key_min)
      → find_range interpolate index lhs_key rhs_key out ≡ done out
  unfolding find_range
  disjoint h (inl past) = ground (arith, used)
  disjoint h (inr before) = ground (arith, used)

  one_key :
      lhs_key < rhs_key
      → lhs_key ≤ index.key_max
      → index.key_min ≤ rhs_key
      → index.key_min ≡ index.key_max
      → find_range interpolate index lhs_key rhs_key out ≡ done (push_all pairs out)
  unfolding find_range
  one_key h lo hi equal = ground (arith, used)

  searches :
      lhs_key < rhs_key
      → lhs_key ≤ index.key_max
      → index.key_min ≤ rhs_key
      → index.key_min ≢ index.key_max
      → find_range interpolate index lhs_key rhs_key out ≡ (
          find_lower_bound interpolate index lhs_key >>= λ lower_bound.
          find_upper_bound interpolate index rhs_key >>= λ upper_bound.
          scan_count pairs lower_bound (upper_bound + 1 - lower_bound) out)
  unfolding find_range
  searches h lo hi differ = ground (arith, used)

  in_bounds :
      (j : ℕ) (x : KeyOffsetPair)
      → get_elem? pairs j ≡ some x
      → (index.key_min ≤ x.key) × (x.key ≤ index.key_max)
  in_bounds j x e = key_in_bounds pairs index.key_min index.key_max j x built.sorted built.bounds e

  abbrev Answer : List ℕ → Type 0
  Answer r = Perm r (out ++ between lhs_key rhs_key pairs)

  nothing :
      ((j : ℕ) (x : KeyOffsetPair)
        → get_elem? pairs j ≡ some x
        → in_range lhs_key rhs_key x ≡ false)
      → Answer out
  nothing miss = rw (between_none lhs_key rhs_key pairs miss, append-nil) (Perm.refl out)

  scanned :
      (l u : ℕ)
      → lhs_key ≤ rhs_key
      → IsFirst pairs lhs_key l
      → IsLast pairs rhs_key u
      → Returns (scan_count pairs l (u + 1 - l) out) Answer
  scanned l u ordered first last =
      let (not_apart, is_between) = between-take pairs lhs_key rhs_key l u ordered first last in
      rw
        (
          scan_count_lem pairs (u + 1 - l) l out (omega (arith, last.inside, first.inside)),
          is_between,
        )
        (Perm.refl (out ++ between lhs_key rhs_key pairs))

  -- On an index that is built, over fewer than 2^53 pairs with 64-bit keys and, unless all keys
  -- are equal, with segments of at least one key, `find_range` ends normally and adds the offsets
  -- of exactly the pairs with keys from `lhs_key` to `rhs_key`, each once, provided that the range is empty or
  -- a single key, or lies below the first key, or reaches the last key or that of the second pair.
  pub find_range-between :
      Reaches index lhs_key rhs_key
      → Returns
          (find_range interpolate index lhs_key rhs_key out)
          (λ r. Perm r (out ++ between lhs_key rhs_key index.container))
  find_range-between reaches = elim (dec_lt rhs_key lhs_key) [
    | yes empty ↦ rw (empty_range empty) (nothing (λ j x e. ground arith))
    | no some_range ↦ elim (ℕ_discrete lhs_key rhs_key) [
      | yes same ↦
          rw (same_ends same, ← same, between-matching lhs_key pairs)
            (find-matching interpolate index built lhs_key out exact small short wide)
      | no differ ↦ elim (dec_lt index.key_max lhs_key) [
        | yes past ↦
            rw (disjoint (omega arith) (inl past))
              (nothing (λ j x e. ground (arith, in_bounds j x e)))
        | no not_past ↦ elim (dec_lt rhs_key index.key_min) [
          | yes before ↦
              rw (disjoint (omega arith) (inr before))
                (nothing (λ j x e. ground (arith, in_bounds j x e)))
          | no not_before ↦ elim (ℕ_discrete index.key_min index.key_max) [
            | yes equal ↦
                rw
                  (
                    one_key (omega arith) (omega arith) (omega arith) equal,
                    push_all_lem pairs out,
                    between_all lhs_key rhs_key pairs (λ j x e. ground (arith, in_bounds j x e)),
                  )
                  (Perm.refl (out ++ offsets_of pairs))
            | no several ↦ rw (searches (omega arith) (omega arith) (omega arith) several) (
                Returns-bind (IsFirst pairs lhs_key) Answer
                  (find_lower_bound interpolate index lhs_key) _
                  (lower_bound-IsFirst interpolate index built exact small short (wide several)
                    lhs_key (omega arith))
                  (λ l first.
                    Returns-bind (IsLast pairs rhs_key) Answer
                      (find_upper_bound interpolate index rhs_key) _
                      (upper_bound-IsLast interpolate index built exact small short (wide several)
                        rhs_key lhs_key (omega arith) (omega arith) reaches)
                      (λ u last. scanned l u (omega arith) first last)))
          ]
        ]
      ]
    ]
  ]
