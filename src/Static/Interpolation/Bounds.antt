-- ===== src/Static/Interpolation/Bounds.antt =====
-- `find_lower_bound` and `find_upper_bound` of src/static_index/interpolation_index.h on an index that
-- `reorganize` has built.
use index_zoo.Base.{
  arith, ℕ, suc, ◌+◌, ◌-◌, ◌^◌, ◌<◌, ◌≤◌, ◌≡◌, ◌≢◌, refl, ◌∙◌, List, length, get_elem?,
  get_elem?-some, get_elem?-lt, some, false, leb, le→leb, if◌then◌else◌, Run, done, fail, trap,
  Returns, dec_lt,
}
use index_zoo.Table.Offset.{word}
use index_zoo.Static.Entry.{KeyOffsetPair, key_in_bounds, IsSorted-le}
use index_zoo.Static.Entry.Between.{IsFirst, IsLast, IsFirst-intro, IsLast-intro}
use index_zoo.Static.Interpolation.{Interpolate, InterpolationIndex, guess_of}
use index_zoo.Static.Interpolation.Range.{
  lower_left, lower_right, upper_right, upper_left, find_lower_bound, find_upper_bound,
}
use index_zoo.Static.Interpolation.Built.{IsBuilt, IsExactAtEnd, width}
use index_zoo.Static.Interpolation.Guess.{IsGuess, IsGuess-found}
use index_zoo.Static.Interpolation.Ends.{
  lower_left-IsFirst, lower_right-IsFirst, upper_right-IsLast, upper_left-IsLast, upper_left_traps,
  same_key,
}

-- The ranges on which `find_upper_bound` is not run with a result of index 0.
pub data Reaches (index : InterpolationIndex) (lhs_key rhs_key : ℕ) : Type 0 where
  narrow : rhs_key ≤ lhs_key → Reaches index lhs_key rhs_key
  below_first : rhs_key < index.key_min → Reaches index lhs_key rhs_key
  to_last : index.key_max ≤ rhs_key → Reaches index lhs_key rhs_key
  to_second :
      (second : KeyOffsetPair)
      → get_elem? index.container 1 ≡ some second
      → second.key ≤ rhs_key
      → Reaches index lhs_key rhs_key

module _ (interpolate : Interpolate) (index : InterpolationIndex) (built : IsBuilt index)
    (exact : IsExactAtEnd interpolate) (small : length index.container < 2 ^ 53)
    (short : index.key_max < word) (wide : 0 < width index) (key : ℕ) where
  abbrev c : List KeyOffsetPair
  c = index.container

  lower_at_start :
      key ≤ index.key_min → key ≤ index.key_max → find_lower_bound interpolate index key ≡ done 0
  unfolding find_lower_bound
  lower_at_start h hi = ground arith

  lower_guessed :
      (guess : ℕ) (x : KeyOffsetPair)
      → guess_of interpolate index key ≡ done guess
      → get_elem? c guess ≡ some x
      → index.key_min < key
      → key ≤ index.key_max
      → find_lower_bound interpolate index key ≡ (
          if leb key x.key
          then lower_left c key guess
          else lower_right (length c - (guess + 1)) c key (guess + 1))
  unfolding find_lower_bound
  lower_guessed guess x guessed at_guess lo hi = ground (arith, guessed)

  upper_at_end :
      index.key_min ≤ key
      → index.key_max ≤ key
      → find_upper_bound interpolate index key ≡ done (length c - 1)
  unfolding find_upper_bound
  upper_at_end lo h = ground arith

  upper_guessed :
      (guess : ℕ) (x : KeyOffsetPair)
      → guess_of interpolate index key ≡ done guess
      → get_elem? c guess ≡ some x
      → index.key_min ≤ key
      → key < index.key_max
      → find_upper_bound interpolate index key ≡ (
          if leb x.key key
          then upper_right (length c - 1 - guess) c key guess
          else upper_left c key (guess - 1))
  unfolding find_upper_bound
  upper_guessed guess x guessed at_guess lo hi = ground (arith, guessed)

  from_guess :
      (Q : Run ℕ → Type 0)
      → index.key_min ≤ key
      → key ≤ index.key_max
      → ((guess : ℕ) (x : KeyOffsetPair)
          → guess_of interpolate index key ≡ done guess
          → get_elem? c guess ≡ some x
          → Q (done guess))
      → Q (guess_of interpolate index key)
  from_guess Q lo hi use_guess =
      go (guess_of interpolate index key) refl
        (IsGuess-found index built wide key lo hi interpolate exact small short)
    where
      go :
          (run : Run ℕ)
          → guess_of interpolate index key ≡ run
          → Returns run (IsGuess index key)
          → Q run
      go (fail e) is_run h = absurd h
      go (done guess) is_run (inside, _) =
          let (x, at_guess) = get_elem?-some c guess inside in use_guess guess x is_run at_guess

  -- `find_lower_bound` returns the first index whose key is not below the key.
  pub lower_bound-IsFirst :
      key ≤ index.key_max → Returns (find_lower_bound interpolate index key) (IsFirst c key)
  lower_bound-IsFirst hi = elim (dec_lt index.key_min key) [
    | no first ↦
        let b = built.bounds in
        rw (lower_at_start (omega arith) hi) (
          IsFirst-intro c built.sorted key 0 b.first b.at_first (omega (arith, b.min_is))
            (λ j y at_j none. absurd (omega arith)))
    | yes inner ↦
        from_guess (λ _. Returns (find_lower_bound interpolate index key) (IsFirst c key))
          (omega arith) hi
          (λ guess x guessed at_guess.
            rw (lower_guessed guess x guessed at_guess inner hi) (elim (dec_lt x.key key) [
              | no at_least ↦
                  rw (le→leb key x.key (omega arith))
                    (lower_left-IsFirst c key built.sorted guess x at_guess (omega arith))
              | yes below ↦
                  let test : leb key x.key ≡ false = ground arith in
                  rw test (
                    lower_right-IsFirst c key built.sorted built.bounds.last built.bounds.at_last
                      (omega (arith, built.bounds.max_is)) (length c - (guess + 1)) guess x at_guess
                      below (omega (arith, get_elem?-lt c guess x at_guess)))
            ]))
  ]

  not_first :
      (guess : ℕ) (x : KeyOffsetPair)
      → get_elem? c guess ≡ some x
      → key < x.key
      → index.key_min ≤ key
      → guess ≢ 0
  not_first guess x at_guess above lo here =
      let b = built.bounds in
      absurd (omega (arith, same_key c guess 0 x b.first at_guess b.at_first here, b.min_is))

  -- `find_upper_bound` returns the last index whose key is not above the key, if that is not 0.
  upper_at_end-IsLast :
      index.key_min ≤ key
      → index.key_max ≤ key
      → Returns (find_upper_bound interpolate index key) (IsLast c key)
  upper_at_end-IsLast lo past =
      let b = built.bounds in
      rw (upper_at_end lo past) (
        IsLast-intro c built.sorted key (length c - 1) b.last b.at_last (omega (arith, b.max_is))
          (λ j y at_j next. absurd (omega (arith, get_elem?-lt c j y at_j))))

  upper_inner-IsLast :
      (second : KeyOffsetPair)
      → get_elem? c 1 ≡ some second
      → second.key ≤ key
      → index.key_min ≤ key
      → key < index.key_max
      → Returns (find_upper_bound interpolate index key) (IsLast c key)
  upper_inner-IsLast second at_second not_below lo inner =
      from_guess (λ _. Returns (find_upper_bound interpolate index key) (IsLast c key)) lo
        (omega arith)
        (λ guess x guessed at_guess.
          rw (upper_guessed guess x guessed at_guess lo inner) (elim (dec_lt key x.key) [
            | no at_most ↦ rw (le→leb x.key key (omega arith)) (
                upper_right-IsLast c key built.sorted (length c - 1 - guess) guess x at_guess
                  (omega arith) (omega (arith, get_elem?-lt c guess x at_guess)))
            | yes above ↦
                let test : leb x.key key ≡ false = ground arith in
                let behind : guess ≡ suc (guess - 1) =
                  omega (arith, not_first guess x at_guess above lo) in
                let at_behind : get_elem? c (suc (guess - 1)) ≡ some x = rw behind at at_guess in
                rw test (
                  upper_left-IsLast c key built.sorted second at_second not_below (guess - 1) x
                    at_behind above)
          ]))

  pub upper_bound-IsLast :
      (lhs_key : ℕ)
      → lhs_key < key
      → index.key_min ≤ key
      → Reaches index lhs_key key
      → Returns (find_upper_bound interpolate index key) (IsLast c key)
  upper_bound-IsLast lhs_key wider lo (narrow h) = absurd (omega arith)
  upper_bound-IsLast lhs_key wider lo (below_first h) = absurd (omega arith)
  upper_bound-IsLast lhs_key wider lo (to_last past) = upper_at_end-IsLast lo past
  upper_bound-IsLast lhs_key wider lo (to_second second at_second not_below) =
      elim (dec_lt key index.key_max) [
        | no past ↦ upper_at_end-IsLast lo (omega arith)
        | yes inner ↦ upper_inner-IsLast second at_second not_below lo inner
      ]

  -- On an index that is built, over fewer than 2^53 pairs with 64-bit keys and with segments of at least
  -- one key, where the guess is exact at the last key of a segment: a key from the first on that is below
  -- the second pair makes `find_upper_bound` run into its ASSERT, if the guess is not the first index.
  pub upper_bound_traps :
      (second : KeyOffsetPair) (guess : ℕ)
      → get_elem? c 1 ≡ some second
      → index.key_min ≤ key
      → key < second.key
      → guess_of interpolate index key ≡ done (suc guess)
      → find_upper_bound interpolate index key ≡ fail trap
  upper_bound_traps second guess at_second lo below guessed =
      let hi : second.key ≤ index.key_max =
        (key_in_bounds c index.key_min index.key_max 1 second built.sorted built.bounds
          at_second).1 in
      let is_guess : IsGuess index key (suc guess) =
        rw guessed at
          (IsGuess-found index built wide key lo (omega arith) interpolate exact small short) in
      let (x, at_guess) = get_elem?-some c (suc guess) is_guess.0 in
      let above : second.key ≤ x.key =
        IsSorted-le c 1 (suc guess) second x built.sorted (omega arith) at_second at_guess in
      let test : leb x.key key ≡ false = ground arith in
      upper_guessed (suc guess) x guessed at_guess lo (omega arith)
      ∙ rw test (
          upper_left_traps c key built.sorted second at_second below (suc guess - 1)
            (omega (arith, is_guess.0)))
