-- ===== src/Static/Fast/Simd.antt =====
-- One SIMD block of src/static_index/fast_index.h: which of four branches a key takes.
use index_zoo.Base.{
  arith, ℕ, ◌+◌, ◌*◌, ◌^◌, ◌<◌, ◌≤◌, ◌≡◌, refl, ◌∙◌, dec_lt, List, get_elem?, some, ltb,
  if◌then◌else◌, done, at, to_int_small,
}
use index_zoo.Static.Fast.{lookup_simd_block, lane_greater, branch_table}

-- 1 if the separator is below the key, and 0 if it is not.
abbrev pub is_below : ℕ → ℕ → ℕ
is_below key separator = if ltb separator key then 1 else 0

lane_small :
    (key separator : ℕ)
    → key < 2 ^ 31
    → separator < 2 ^ 31
    → lane_greater key separator ≡ is_below key separator
lane_small key separator h k = ground (arith, to_int_small key h, to_int_small separator k)

module _ (nodes : List ℕ) (key current_pos low middle high after : ℕ)
    (at_0 : get_elem? nodes current_pos ≡ some middle)
    (at_1 : get_elem? nodes (current_pos + 1) ≡ some low)
    (at_2 : get_elem? nodes (current_pos + 2) ≡ some high)
    (at_3 : get_elem? nodes (current_pos + 3) ≡ some after) where
  lanes :
      lookup_simd_block nodes key current_pos
      ≡ at branch_table
          (lane_greater key middle + 2 * lane_greater key low + 4 * lane_greater key high)
  unfolding lookup_simd_block
  lanes = rw (at_0, at_1, at_2, at_3) refl

  -- On a block with separators low ≤ middle ≤ high, all of them and the key below 2^31, the lookup
  -- reads inside the array, never takes an entry of its table that stands for impossible, and
  -- returns the number of separators that are below the key.
  pub lookup_simd_block-counts :
      low ≤ middle
      → middle ≤ high
      → high < 2 ^ 31
      → key < 2 ^ 31
      → lookup_simd_block nodes key current_pos
        ≡ done (is_below key low + is_below key middle + is_below key high)
  lookup_simd_block-counts a b h k =
      lanes
      ∙ rw
          (
            lane_small key low k (omega arith),
            lane_small key middle k (omega arith),
            lane_small key high k h,
          )
          picks
    where
      picks :
          at branch_table (is_below key middle + 2 * is_below key low + 4 * is_below key high)
          ≡ done (is_below key low + is_below key middle + is_below key high)
      picks = elim (dec_lt low key) [
        | yes over_low ↦ elim (dec_lt middle key) [
          | yes over_middle ↦ ground arith
          | no under_middle ↦ ground arith
        ]
        | no under_low ↦ ground arith
      ]

  -- A defect: a key of 2^31 or more is read as a negative number, so on a block with separators
  -- below 2^31 the lookup takes branch 0, as if all separators were above the key.
  pub lookup_simd_block-negative :
      low < 2 ^ 31
      → middle < 2 ^ 31
      → high < 2 ^ 31
      → 2 ^ 31 ≤ key
      → key < 2 ^ 32
      → lookup_simd_block nodes key current_pos ≡ done 0
  lookup_simd_block-negative a b c h k =
      lanes ∙ rw (lane_negative low a, lane_negative middle b, lane_negative high c) refl
    where
      lane_negative : (x : ℕ) → x < 2 ^ 31 → lane_greater key x ≡ 0
      lane_negative x small = ground (arith, to_int_small x small)
