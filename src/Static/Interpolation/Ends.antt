-- ===== src/Static/Interpolation/Ends.antt =====
-- The loops of `find_lower_bound` and `find_upper_bound` (src/static_index/interpolation_index.h), from
-- any guess.
use index_zoo.Base.{
  arith, ℕ, zero, suc, ◌+◌, ◌-◌, ◌<◌, ◌≤◌, ◌≡◌, refl, ap, ◌∙◌, List, length, get_elem?,
  get_elem?-some, get_elem?-lt, some, done, fail, trap, Returns, dec_lt,
}
use index_zoo.Static.Entry.{KeyOffsetPair, IsSorted, IsSorted-le}
use index_zoo.Static.Entry.Between.{IsFirst, IsLast, IsFirst-intro, IsLast-intro}
use index_zoo.Static.Interpolation.Range.{lower_left, lower_right, upper_right, upper_left}

pub same_key :
    (c : List KeyOffsetPair) (i j : ℕ) (x y : KeyOffsetPair)
    → get_elem? c i ≡ some x
    → get_elem? c j ≡ some y
    → i ≡ j
    → x.key ≡ y.key
same_key c i j x y at_i at_j same =
    let equal : x ≡ y = cc (at_i, at_j, same) in ap (λ u. u.key) equal

module _ (c : List KeyOffsetPair) (key : ℕ) where
  left_on :
      (i : ℕ) (x : KeyOffsetPair)
      → get_elem? c i ≡ some x
      → key ≤ x.key
      → lower_left c key (suc i) ≡ lower_left c key i
  unfolding lower_left
  left_on i x e h = ground arith

  left_stops :
      (i : ℕ) (x : KeyOffsetPair)
      → get_elem? c i ≡ some x
      → x.key < key
      → lower_left c key (suc i) ≡ done (suc i)
  unfolding lower_left
  left_stops i x e h = ground arith

  left_end : lower_left c key 0 ≡ done 0
  unfolding lower_left
  left_end = refl

  right_on :
      (left i : ℕ) (x : KeyOffsetPair)
      → get_elem? c i ≡ some x
      → x.key < key
      → lower_right (suc left) c key i ≡ lower_right left c key (i + 1)
  unfolding lower_right
  right_on left i x e h = ground arith

  right_stops :
      (left i : ℕ) (x : KeyOffsetPair)
      → get_elem? c i ≡ some x
      → key ≤ x.key
      → lower_right (suc left) c key i ≡ done i
  unfolding lower_right
  right_stops left i x e h = ground arith

  up_on :
      (left i : ℕ) (x : KeyOffsetPair)
      → get_elem? c (i + 1) ≡ some x
      → x.key ≤ key
      → upper_right (suc left) c key i ≡ upper_right left c key (i + 1)
  unfolding upper_right
  up_on left i x e h = ground arith

  up_stops :
      (left i : ℕ) (x : KeyOffsetPair)
      → get_elem? c (i + 1) ≡ some x
      → key < x.key
      → upper_right (suc left) c key i ≡ done i
  unfolding upper_right
  up_stops left i x e h = ground arith

  up_end : (i : ℕ) → upper_right 0 c key i ≡ done i
  unfolding upper_right
  up_end i = refl

  down_on :
      (i : ℕ) (x : KeyOffsetPair)
      → get_elem? c (suc i) ≡ some x
      → key < x.key
      → upper_left c key (suc i) ≡ upper_left c key i
  unfolding upper_left
  down_on i x e h = ground arith

  down_stops :
      (i : ℕ) (x : KeyOffsetPair)
      → get_elem? c (suc i) ≡ some x
      → x.key ≤ key
      → upper_left c key (suc i) ≡ done (suc i)
  unfolding upper_left
  down_stops i x e h = ground arith

  down_end : upper_left c key 0 ≡ fail trap
  unfolding upper_left
  down_end = refl

  module _ (sorted : IsSorted c) where
    pub lower_left-IsFirst :
        (guess : ℕ) (x : KeyOffsetPair)
        → get_elem? c guess ≡ some x
        → key ≤ x.key
        → Returns (lower_left c key guess) (IsFirst c key)
    lower_left-IsFirst zero x e h =
        rw left_end (IsFirst-intro c sorted key 0 x e h (λ j y at_j none. absurd (omega arith)))
    lower_left-IsFirst (suc i) x e h =
        let (y, at_i) = get_elem?-some c i (omega (arith, get_elem?-lt c (suc i) x e)) in
        elim (dec_lt y.key key) [
          | no more ↦
              rw (left_on i y at_i (omega arith)) (lower_left-IsFirst i y at_i (omega arith))
          | yes stop ↦ rw (left_stops i y at_i stop) (
              IsFirst-intro c sorted key (suc i) x e h
                (λ j z at_j before. omega (arith, same_key c j i z y at_j at_i (omega arith))))
        ]

    pub upper_right-IsLast :
        (left guess : ℕ) (x : KeyOffsetPair)
        → get_elem? c guess ≡ some x
        → x.key ≤ key
        → guess + left + 1 ≡ length c
        → Returns (upper_right left c key guess) (IsLast c key)
    upper_right-IsLast zero i x e h all = rw (up_end i) (
        IsLast-intro c sorted key i x e h
          (λ j y at_j next. absurd (omega (arith, get_elem?-lt c j y at_j))))
    upper_right-IsLast (suc left) i x e h all =
        let (y, at_next) = get_elem?-some c (i + 1) (omega arith) in
        elim (dec_lt key y.key) [
          | no more ↦
              rw (up_on left i y at_next (omega arith))
                (upper_right-IsLast left (i + 1) y at_next (omega arith) (omega arith))
          | yes stop ↦ rw (up_stops left i y at_next stop) (
              IsLast-intro c sorted key i x e h (λ j z at_j next.
                omega (arith, same_key c j (i + 1) z y at_j at_next (omega arith))))
        ]

    module _ (last : KeyOffsetPair) (at_last : get_elem? c (length c - 1) ≡ some last)
        (reached : key ≤ last.key) where
      -- The ASSERT at the end of the array is not reached.
      pub lower_right-IsFirst :
          (left guess : ℕ) (x : KeyOffsetPair)
          → get_elem? c guess ≡ some x
          → x.key < key
          → guess + 1 + left ≡ length c
          → Returns (lower_right left c key (guess + 1)) (IsFirst c key)
      lower_right-IsFirst zero i x e h all =
          absurd (omega (arith, same_key c i (length c - 1) x last e at_last (omega arith)))
      lower_right-IsFirst (suc left) i x e h all =
          let (y, at_next) = get_elem?-some c (i + 1) (omega arith) in
          elim (dec_lt y.key key) [
            | yes more ↦
                rw (right_on left (i + 1) y at_next more)
                  (lower_right-IsFirst left (i + 1) y at_next more (omega arith))
            | no stop ↦ rw (right_stops left (i + 1) y at_next (omega arith)) (
                IsFirst-intro c sorted key (i + 1) y at_next (omega arith)
                  (λ j z at_j before. omega (arith, same_key c j i z x at_j e (omega arith))))
          ]

    module _ (second : KeyOffsetPair) (at_second : get_elem? c 1 ≡ some second) where
      -- The loop to the left ends normally if the key reaches the second pair ...
      pub upper_left-IsLast :
          second.key ≤ key
          → (guess : ℕ) (x : KeyOffsetPair) → get_elem? c (suc guess) ≡ some x
          → key < x.key
          → Returns (upper_left c key guess) (IsLast c key)
      upper_left-IsLast reaches zero x e h =
          absurd (omega (arith, same_key c 1 1 x second e at_second refl))
      upper_left-IsLast reaches (suc i) x e h =
          let (y, at_i) =
            get_elem?-some c (suc i) (omega (arith, get_elem?-lt c (suc (suc i)) x e)) in
          elim (dec_lt key y.key) [
            | yes more ↦ rw (down_on i y at_i more) (upper_left-IsLast reaches i y at_i more)
            | no stop ↦ rw (down_stops i y at_i (omega arith)) (
                IsLast-intro c sorted key (suc i) y at_i (omega arith) (λ j z at_j next.
                  omega (arith, same_key c j (suc (suc i)) z x at_j e (omega arith))))
          ]

      -- ... and stops at the ASSERT if it does not.
      pub upper_left_traps :
          key < second.key → (guess : ℕ) → guess < length c → upper_left c key guess ≡ fail trap
      upper_left_traps short zero inside = down_end
      upper_left_traps short (suc i) inside =
          let (y, at_i) = get_elem?-some c (suc i) inside in
          down_on i y at_i
            (omega (arith, IsSorted-le c 1 (suc i) second y sorted (omega arith) at_second at_i))
          ∙ upper_left_traps short i (omega arith)
