-- ===== src/Static/Interpolation.antt =====
-- The interpolation index (src/static_index/interpolation_index.h): the keys are cut into segments of
-- equal ranges, and a search starts where the key would stand if the keys of its segment were
-- spread evenly. The statistics, which only `print` reads, are left out.
--
-- The guess is computed with doubles. `Interpolate` stands for this computation, up to the cast to
-- a 64-bit integer: it is a function of the distance of the key from the start of the segment, of
-- the range of the segment, of its size less one, and of its first offset.
pub mod Left
pub mod Search
pub mod Built
pub mod Guess
pub mod Laws
pub mod Boundaries
pub mod Partition
pub mod Reorganize
pub mod Lookup
pub mod Ends
pub mod Bounds
pub mod Between
pub mod ByScan
pub mod Range
pub mod Segments
use index_zoo.Base.{
  ℕ, zero, suc, ◌+◌, ◌-◌, ◌*◌, ◌/◌, ◌%◌, ◌^◌, List, [], ◌∷◌, ◌++◌, length, set, true, false, Bool,
  ◌==◌, ltb, leb, if◌then◌else◌, Run, done, fail, trap, no_fuel, out_of_bounds, division_by_zero,
  assert, at, ◌>>=◌, ◌>>◌, replicate, not, ◌||◌, ◌&&◌,
}
use index_zoo.Table.Offset.{word}
use index_zoo.Table.Generic.{GenericDataTable}
use index_zoo.Static.Entry.{KeyOffsetPair}
use index_zoo.Static.Find.{push_all}
use index_zoo.Static.Scan.{scan_count}
use index_zoo.Static.Walk.{walk_left}
use index_zoo.Static.Sorting.{Sorter}
use index_zoo.Static.Reorganize.{base_reorganize}
use index_zoo.Static.Loops.{for_each}

abbrev pub Interpolate : Type 0
Interpolate = ℕ → ℕ → ℕ → ℕ → ℕ

-- `class InterpolationIndex`
pub record InterpolationIndex : Type 0 where
  pub container : List KeyOffsetPair
  pub num_segments : ℕ
  pub key_min : ℕ
  pub key_max : ℕ
  pub segment_key_boundaries : List ℕ
  pub segment_offset_boundaries : List ℕ
  pub segment_sizes : List ℕ

-- The constructor, with zero for the members that it leaves unset.
unfoldable pub new_index : ℕ → Run InterpolationIndex
new_index num_segments = do
  assert (leb 1 num_segments)
  done (record {
    container = [];
    num_segments = num_segments;
    key_min = 0;
    key_max = 0;
    segment_key_boundaries = replicate (num_segments + 1) 0;
    segment_offset_boundaries = replicate num_segments 0;
    segment_sizes = replicate num_segments 0;
  })

-- `(key - key_min_) / ((key_max_ - key_min_) / num_segments_)`, cut to the last segment.
unfoldable pub segment_of : InterpolationIndex → ℕ → Run ℕ
segment_of index key =
    let width = (index.key_max - index.key_min) / index.num_segments in
    let segment_id = (key - index.key_min) / width in
    if width == 0
    then fail division_by_zero
    else done
        (if ltb (index.num_segments - 1) segment_id then index.num_segments - 1 else segment_id)

-- From the choice of the segment, with its ASSERTs, to the guess.
unfoldable pub guess_of : Interpolate → InterpolationIndex → ℕ → Run ℕ
guess_of interpolate index key = do
  segment_id ← segment_of index key
  lower ← at index.segment_key_boundaries segment_id
  upper ← at index.segment_key_boundaries (segment_id + 1)
  assert (leb lower key)
  assert (if ltb segment_id (index.num_segments - 1) then ltb key upper else leb key upper)
  segment_size ← at index.segment_sizes segment_id
  offset_boundary ← at index.segment_offset_boundaries segment_id
  let guess =
      interpolate (key - lower) (upper - lower) ((segment_size + word - 1) % word) offset_boundary
  done (if leb (length index.container) guess then length index.container - 1 else guess)

-- `while (guess_rhs <= size_ - 1)`; the first argument is `size_ - guess_rhs`.
unfoldable pub match_right : ℕ → List KeyOffsetPair → ℕ → ℕ → List ℕ → Run (List ℕ)
match_right zero c key rhs offsets = done offsets
match_right (suc left) c key rhs offsets = at c rhs >>= λ x. elim (x.key == key) [
  | true ↦ match_right left c key (rhs + 1) (offsets ++ x.offset ∷ [])
  | false ↦ done offsets
]

-- `while (guess >= 0)`, where the guess was above the key; the argument is `guess + 1`.
unfoldable pub seek_left : List KeyOffsetPair → ℕ → ℕ → List ℕ → Run (List ℕ)
seek_left c key zero offsets = done offsets
seek_left c key (suc guess) offsets = at c guess >>= λ x. elim (ltb x.key key) [
  | true ↦ done offsets
  | false ↦ elim (ltb key x.key) [
    | true ↦ seek_left c key guess offsets
    | false ↦ seek_left c key guess (offsets ++ x.offset ∷ [])
  ]
]

-- `while (guess < size_ - 1)`, where the guess was below the key; the first argument is
-- `size_ - 1 - guess`.
unfoldable pub seek_right : ℕ → List KeyOffsetPair → ℕ → ℕ → List ℕ → Run (List ℕ)
seek_right zero c key guess offsets = done offsets
seek_right (suc left) c key guess offsets = at c guess >>= λ x. elim (ltb key x.key) [
  | true ↦ done offsets
  | false ↦ elim (ltb x.key key) [
    | true ↦ seek_right left c key (guess + 1) offsets
    | false ↦ seek_right left c key (guess + 1) (offsets ++ x.offset ∷ [])
  ]
]

-- The search from the guess.
unfoldable pub find_from : List KeyOffsetPair → ℕ → ℕ → List ℕ → Run (List ℕ)
find_from c key guess offsets = at c guess >>= λ x. elim (x.key == key) [
  | true ↦ walk_left c key guess (offsets ++ x.offset ∷ []) >>= λ left.
      match_right (length c - (guess + 1)) c key (guess + 1) left
  | false ↦ elim (ltb key x.key) [
    | true ↦ seek_left c key guess offsets
    | false ↦ seek_right (length c - 1 - (guess + 1)) c key (guess + 1) offsets
  ]
]

-- `find(key, offsets)`
unfoldable pub find : Interpolate → InterpolationIndex → ℕ → List ℕ → Run (List ℕ)
find interpolate index key offsets = elim (length index.container == 0) [
  | true ↦ done offsets
  | false ↦ elim (ltb index.key_max key || ltb key index.key_min) [
    | true ↦ done offsets
    | false ↦ elim (index.key_min == index.key_max) [
      | true ↦ done (if index.key_min == key then push_all index.container offsets else offsets)
      | false ↦ do
        guess ← guess_of interpolate index key
        find_from index.container key guess offsets
    ]
  ]
]
