-- ===== src/Static/Interpolation/Built.antt =====
-- What `reorganize` of src/static_index/interpolation_index.h builds, and the segment of a key.
use native.Mathlib.Nat.{div-mul-le_self, lt-div-mul-add, mul_comm}
use index_zoo.Base.{
  arith, ℕ, ◌+◌, ◌-◌, ◌*◌, ◌/◌, ◌^◌, ◌<◌, ◌≤◌, ◌≡◌, ◌≢◌, refl, length, get_elem?, some, false, ◌==◌,
  ltb, Returns, dec_lt, lt→ltb,
}
use index_zoo.Table.Offset.{word}
use index_zoo.Static.Entry.{IsSorted, IsBounds}
use index_zoo.Static.Interpolation.{Interpolate, InterpolationIndex, segment_of}

-- `(key_max_ - key_min_) / num_segments_`
abbrev pub width : InterpolationIndex → ℕ
width index = (index.key_max - index.key_min) / index.num_segments

-- What `reorganize` leaves: a sorted array and its bounds, the first key of each segment and the
-- last key of all, and a last segment that is not empty and reaches to the end of the array.
pub record IsBuilt (index : InterpolationIndex) : Type 0 where
  pub sorted : IsSorted index.container
  pub bounds : IsBounds index.container index.key_min index.key_max
  pub some_segment : 1 ≤ index.num_segments
  pub starts :
      (i : ℕ)
      → i < index.num_segments
      → get_elem? index.segment_key_boundaries i ≡ some (index.key_min + width index * i)
  pub end : get_elem? index.segment_key_boundaries index.num_segments ≡ some index.key_max
  pub count_sizes : length index.segment_sizes ≡ index.num_segments
  pub count_offsets : length index.segment_offset_boundaries ≡ index.num_segments
  pub last_size : ℕ
  pub last_offset : ℕ
  pub at_size : get_elem? index.segment_sizes (index.num_segments - 1) ≡ some last_size
  pub at_offset :
      get_elem? index.segment_offset_boundaries (index.num_segments - 1) ≡ some last_offset
  pub not_empty : 1 ≤ last_size
  pub reaches : last_offset + last_size ≡ length index.container

-- The quotient of two equal doubles is 1, and doubles hold whole numbers up to 2^53 exactly: at
-- the end of a segment the guess is the last offset of the segment.
abbrev pub IsExactAtEnd : Interpolate → Type 0
IsExactAtEnd interpolate =
    (range size offset : ℕ)
    → range ≢ 0
    → range < word
    → size + offset < 2 ^ 53
    → interpolate range range size offset ≡ size + offset

-- The segment that a key falls into.
pub record InSegment (index : InterpolationIndex) (key segment_id : ℕ) : Type 0 where
  pub below : segment_id < index.num_segments
  pub from : index.key_min + width index * segment_id ≤ key
  pub before :
      segment_id < index.num_segments - 1 → key < index.key_min + width index * (segment_id + 1)
  pub last : key ≡ index.key_max → segment_id ≡ index.num_segments - 1

times_le : (w a b : ℕ) → a ≤ b → w * a ≤ b * w
times_le w a b h = grind arith

pub next_times : (q w : ℕ) → q * w + w ≡ w * (q + 1)
next_times q w = omega arith

module _ (index : InterpolationIndex) (built : IsBuilt index) (wide : 0 < width index) (key : ℕ)
    (lo : index.key_min ≤ key) (hi : key ≤ index.key_max) where
  quotient : ℕ
  quotient = (key - index.key_min) / width index

  not_zero : (width index == 0) ≡ false
  not_zero = ground (arith, wide)

  quotient_le : quotient * width index ≤ key - index.key_min
  unfolding quotient
  quotient_le = div-mul-le_self (key - index.key_min) (width index)

  quotient_next : key - index.key_min < quotient * width index + width index
  unfolding quotient
  quotient_next = lt-div-mul-add wide

  pub whole_width : width index * index.num_segments ≤ index.key_max - index.key_min
  whole_width = div-mul-le_self (index.key_max - index.key_min) index.num_segments

  in_last : index.num_segments - 1 ≤ quotient → InSegment index key (index.num_segments - 1)
  in_last past = record {
    below = omega (arith, built.some_segment);
    from =
        omega
          (arith, quotient_le, times_le (width index) (index.num_segments - 1) quotient past, lo);
    before = λ h. absurd (omega arith);
    last = λ h. refl;
  }

  in_middle : quotient < index.num_segments - 1 → InSegment index key quotient
  in_middle inner = record {
    below = omega arith;
    from = omega (arith, quotient_le, mul_comm quotient (width index), lo);
    before = λ h. omega (arith, quotient_next, next_times quotient (width index), lo);
    last = λ h. absurd (
        omega (
          arith,
          quotient_next,
          whole_width,
          next_times quotient (width index),
          times_le (width index) (quotient + 1) index.num_segments (omega arith),
          h,
        ));
  }

  pub segment_found : Returns (segment_of index key) (InSegment index key)
  unfolding segment_of quotient
  segment_found = rw not_zero (elim (dec_lt (index.num_segments - 1) quotient) [
    | yes past ↦ rw (lt→ltb (index.num_segments - 1) quotient past) (in_last (omega arith))
    | no not_past ↦
        let test : ltb (index.num_segments - 1) quotient ≡ false = ground (arith, not_past) in
        rw test (elim (dec_lt quotient (index.num_segments - 1)) [
          | yes inner ↦ in_middle inner
          | no not_inner ↦
              let here : index.num_segments - 1 ≡ quotient = omega arith in
              rw here at (in_last (omega arith))
        ])
  ])
