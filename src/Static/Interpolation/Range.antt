-- ===== src/Static/Interpolation/Range.antt =====
-- `find_range` of src/static_index/interpolation_index.h and its two bounds.
use index_zoo.Base.{
  ℕ, zero, suc, ◌+◌, ◌-◌, List, length, true, false, ◌==◌, ltb, leb, if◌then◌else◌, Run, done, fail,
  trap, assert, at, ◌>>=◌, ◌>>◌, ◌||◌, ◌&&◌,
}
use index_zoo.Static.Entry.{KeyOffsetPair}
use index_zoo.Static.Find.{push_all}
use index_zoo.Static.Scan.{scan_count}
use index_zoo.Static.Interpolation.{Interpolate, InterpolationIndex, guess_of, find}

-- The two loops of `find_lower_bound`; the second stops with ASSERT(false) at the end.
unfoldable pub lower_left : List KeyOffsetPair → ℕ → ℕ → Run ℕ
lower_left c key zero = done 0
lower_left c key (suc guess) = at c guess >>= λ x. elim (leb key x.key) [
  | true ↦ lower_left c key guess
  | false ↦ done (suc guess)
]

unfoldable pub lower_right : ℕ → List KeyOffsetPair → ℕ → ℕ → Run ℕ
lower_right zero c key guess = fail trap
lower_right (suc left) c key guess = at c guess >>= λ x. elim (ltb x.key key) [
  | true ↦ lower_right left c key (guess + 1)
  | false ↦ done guess
]

-- `find_lower_bound(lower_key)`
unfoldable pub find_lower_bound : Interpolate → InterpolationIndex → ℕ → Run ℕ
find_lower_bound interpolate index key = do
  assert (leb key index.key_max)
  elim (leb key index.key_min) [
    | true ↦ done 0
    | false ↦ do
      guess ← guess_of interpolate index key
      x ← at index.container guess
      elim (leb key x.key) [
        | true ↦ lower_left index.container key guess
        | false ↦ lower_right (length index.container - (guess + 1)) index.container key (guess + 1)
      ]
  ]

-- The two loops of `find_upper_bound`; the second stops with ASSERT(false) at index 0.
unfoldable pub upper_right : ℕ → List KeyOffsetPair → ℕ → ℕ → Run ℕ
upper_right zero c key guess = done guess
upper_right (suc left) c key guess = at c (guess + 1) >>= λ x. elim (leb x.key key) [
  | true ↦ upper_right left c key (guess + 1)
  | false ↦ done guess
]

unfoldable pub upper_left : List KeyOffsetPair → ℕ → ℕ → Run ℕ
upper_left c key zero = fail trap
upper_left c key (suc guess) = at c (suc guess) >>= λ x. elim (ltb key x.key) [
  | true ↦ upper_left c key guess
  | false ↦ done (suc guess)
]

-- `find_upper_bound(upper_key)`. A guess of 0 that is above the key ends in the ASSERT too.
unfoldable pub find_upper_bound : Interpolate → InterpolationIndex → ℕ → Run ℕ
find_upper_bound interpolate index key = do
  assert (leb index.key_min key)
  elim (leb index.key_max key) [
    | true ↦ done (length index.container - 1)
    | false ↦ do
      guess ← guess_of interpolate index key
      x ← at index.container guess
      elim (leb x.key key) [
        | true ↦ upper_right (length index.container - 1 - guess) index.container key guess
        | false ↦ upper_left index.container key (guess - 1)
      ]
  ]

-- `find_range(lhs_key, rhs_key, offsets)`
unfoldable pub find_range : Interpolate → InterpolationIndex → ℕ → ℕ → List ℕ → Run (List ℕ)
find_range interpolate index lhs_key rhs_key offsets = elim (ltb rhs_key lhs_key) [
  | true ↦ done offsets
  | false ↦ elim (lhs_key == rhs_key) [
    | true ↦ find interpolate index lhs_key offsets
    | false ↦ elim (length index.container == 0) [
      | true ↦ done offsets
      | false ↦ elim (ltb index.key_max lhs_key || ltb rhs_key index.key_min) [
        | true ↦ done offsets
        | false ↦ elim (index.key_min == index.key_max) [
          | true ↦ done (
              if leb lhs_key index.key_min && leb index.key_min rhs_key
              then push_all index.container offsets
              else offsets)
          | false ↦ do
            lower_bound ← find_lower_bound interpolate index lhs_key
            upper_bound ← find_upper_bound interpolate index rhs_key
            scan_count index.container lower_bound (upper_bound + 1 - lower_bound) offsets
        ]
      ]
    ]
  ]
]
