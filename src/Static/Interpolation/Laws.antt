-- ===== src/Static/Interpolation/Laws.antt =====
-- `find` of src/static_index/interpolation_index.h, from the bounds to the answer.
use mathlib.Core.List.Perm
use mathlib.Core.List.{append-nil}
use native.Mathlib.Nat.{div-eq_of_lt}
use index_zoo.Base.{
  arith, ℕ, ◌-◌, ◌^◌, ◌<◌, ◌≤◌, ◌≡◌, ◌≢◌, refl, ap, List, [], ◌++◌, length, get_elem?,
  get_elem?-some, get_elem?-lt, some, false, ◌==◌, done, fail, division_by_zero, Returns,
  Returns-bind, ◌>>=◌, Perm, dec_lt, ℕ_discrete, ◌⊎◌, inl, inr,
}
use index_zoo.Table.Offset.{word}
use index_zoo.Static.Entry.{KeyOffsetPair, matching, offsets_of, key_in_bounds, select-AllAt}
use index_zoo.Static.Entry.Absent.{AllAt-intro, matching-absent}
use index_zoo.Static.Find.{push_all}
use index_zoo.Static.Find.By.{push_all_lem}
use index_zoo.Static.Interpolation.{
  Interpolate, InterpolationIndex, segment_of, guess_of, find, find_from,
}
use index_zoo.Static.Interpolation.Search.{find_from-matching}
use index_zoo.Static.Interpolation.Built.{IsBuilt, IsExactAtEnd, width}
use index_zoo.Static.Interpolation.Guess.{IsGuess, IsGuess-found}

module _ (interpolate : Interpolate) (index : InterpolationIndex) (built : IsBuilt index) (key : ℕ)
    (out : List ℕ) where
  used : (length index.container == 0) ≡ false
  used = ground (arith, get_elem?-lt index.container 0 built.bounds.first built.bounds.at_first)

  outside :
      (key < index.key_min) ⊎ (index.key_max < key) → find interpolate index key out ≡ done out
  unfolding find
  outside (inl low) = ground (arith, used)
  outside (inr high) = ground (arith, used)

  one_key :
      index.key_min ≡ index.key_max
      → key ≡ index.key_min
      → find interpolate index key out ≡ done (push_all index.container out)
  unfolding find
  one_key equal here = ground (arith, used)

  guesses :
      index.key_min ≢ index.key_max
      → index.key_min ≤ key
      → key ≤ index.key_max
      → find interpolate index key out
        ≡ (guess_of interpolate index key >>= λ guess. find_from index.container key guess out)
  unfolding find
  guesses differ lo hi = ground (arith, used)

  nothing_outside :
      (key < index.key_min) ⊎ (index.key_max < key) → matching key index.container ≡ []
  nothing_outside out_of = matching-absent key index.container (λ i x at_i same.
      let (lo, hi) =
        key_in_bounds index.container index.key_min index.key_max i x built.sorted built.bounds
          at_i in
      elim out_of [ inl low ↦ absurd (omega arith) | inr high ↦ absurd (omega arith) ])

  all_match :
      index.key_min ≡ index.key_max
      → key ≡ index.key_min
      → matching key index.container ≡ offsets_of index.container
  all_match equal here = ap offsets_of (
      select-AllAt key index.container (
        AllAt-intro key index.container (λ i x at_i.
          let (lo, hi) =
            key_in_bounds index.container index.key_min index.key_max i x built.sorted built.bounds
              at_i in
          omega arith)))

  no_match :
      (key < index.key_min) ⊎ (index.key_max < key)
      → Returns (find interpolate index key out) (λ r. Perm r (out ++ matching key index.container))
  no_match out_of = rw (outside out_of, nothing_outside out_of, append-nil) (Perm.refl out)

  from_guess :
      index.key_min ≤ key
      → key ≤ index.key_max
      → (guess : ℕ) → IsGuess index key guess
      → Returns
          (find_from index.container key guess out)
          (λ r. Perm r (out ++ matching key index.container))
  from_guess lo hi guess (inside, at_end) =
      let (x, at_guess) = get_elem?-some index.container guess inside in
      find_from-matching index.container key guess x built.sorted at_guess out built.bounds.last
        built.bounds.at_last (λ below. below_last x at_guess below)
    where
      below_last :
          (x : KeyOffsetPair)
          → get_elem? index.container guess ≡ some x
          → x.key < key
          → key < built.bounds.last.key
      below_last x at_guess below = elim (ℕ_discrete key index.key_max) [
        | no other ↦ omega (arith, built.bounds.max_is)
        | yes same ↦
            let last_is : x ≡ built.bounds.last =
              cc (at_guess, at_end same, built.bounds.at_last) in
            let keys : x.key ≡ built.bounds.last.key = ap (λ u. u.key) last_is in
            absurd (omega (arith, built.bounds.max_is))
      ]

  -- In an index that is built, over fewer than 2^53 pairs with 64-bit keys and, unless all keys
  -- are equal, with segments of at least one key, a lookup of any key ends normally and adds the
  -- offsets of exactly the pairs with the key, each once; nothing when no pair has it. No ASSERT
  -- fails. Of the arithmetic with doubles it needs only that it is exact at the end of a segment.
  pub find-matching :
      IsExactAtEnd interpolate
      → length index.container < 2 ^ 53
      → index.key_max < word
      → (index.key_min ≢ index.key_max → 0 < width index)
      → Returns (find interpolate index key out) (λ r. Perm r (out ++ matching key index.container))
  find-matching exact small short wide = elim (dec_lt key index.key_min) [
    | yes low ↦ no_match (inl low)
    | no not_low ↦ elim (dec_lt index.key_max key) [
      | yes high ↦ no_match (inr high)
      | no not_high ↦ elim (ℕ_discrete index.key_min index.key_max) [
        | yes equal ↦
            rw
              (
                one_key equal (omega arith),
                all_match equal (omega arith),
                push_all_lem index.container out,
              )
              (Perm.refl (out ++ offsets_of index.container))
        | no differ ↦ rw (guesses differ (omega arith) (omega arith)) (
            Returns-bind (IsGuess index key) (λ r. Perm r (out ++ matching key index.container))
              (guess_of interpolate index key) (λ guess. find_from index.container key guess out)
              (IsGuess-found index built (wide differ) key (omega arith) (omega arith) interpolate
                exact small short)
              (λ guess h. from_guess (omega arith) (omega arith) guess h))
      ]
    ]
  ]

  no_guess : width index ≡ 0 → guess_of interpolate index key ≡ fail division_by_zero
  unfolding guess_of segment_of
  no_guess no_width = ground arith

  -- In an index that is built with more segments than the largest key exceeds the smallest,
  -- which is not equal to it, the lookup of a key between the two divides by zero, whether the key
  -- is in the array or not.
  pub find_divides_by_zero :
      index.key_min ≤ key
      → key ≤ index.key_max
      → index.key_min ≢ index.key_max
      → index.key_max - index.key_min < index.num_segments
      → find interpolate index key out ≡ fail division_by_zero
  find_divides_by_zero lo hi differ many =
      rw (guesses differ lo hi, no_guess (div-eq_of_lt many)) refl
