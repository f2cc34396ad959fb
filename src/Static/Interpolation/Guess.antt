-- ===== src/Static/Interpolation/Guess.antt =====
-- The guess of `find` of src/static_index/interpolation_index.h on an index that `reorganize` has built.
use native.Mathlib.Nat.{mul_comm}
use index_zoo.Base.{
  arith, ℕ, ◌+◌, ◌-◌, ◌*◌, ◌%◌, ◌^◌, ◌<◌, ◌≤◌, ◌≡◌, ◌≢◌, refl, sym, ap, ◌∙◌, length, get_elem?,
  get_elem?-some, get_elem?-lt, some, true, ltb, leb, if◌then◌else◌, Run, done, fail, Returns,
  dec_lt, le→leb,
}
use index_zoo.Table.Offset.{word}
use index_zoo.Static.Interpolation.{Interpolate, InterpolationIndex, segment_of, guess_of}
use index_zoo.Static.Interpolation.Built.{
  IsBuilt, IsExactAtEnd, width, InSegment, segment_found, whole_width, next_times,
}

-- The guess lies in the array, and is the last index for the last key.
abbrev pub IsGuess : InterpolationIndex → ℕ → ℕ → Type 0
IsGuess index key guess =
    (guess < length index.container) × (key ≡ index.key_max → guess ≡ length index.container - 1)

module _ (index : InterpolationIndex) (built : IsBuilt index) (wide : 0 < width index) (key : ℕ)
    (lo : index.key_min ≤ key) (hi : key ≤ index.key_max) where
  module _ (interpolate : Interpolate) (exact : IsExactAtEnd interpolate)
      (small : length index.container < 2 ^ 53) (short : index.key_max < word) where
    module _ (segment_id : ℕ) (found : segment_of index key ≡ done segment_id)
        (in_segment : InSegment index key segment_id) where
      abbrev start : ℕ
      start = index.key_min + width index * segment_id

      clamped : ℕ → ℕ
      clamped guess =
          if leb (length index.container) guess then length index.container - 1 else guess

      guessed :
          (upper size offset : ℕ)
          → get_elem? index.segment_key_boundaries (segment_id + 1) ≡ some upper
          → (if ltb segment_id (index.num_segments - 1) then ltb key upper else leb key upper)
            ≡ true
          → get_elem? index.segment_sizes segment_id ≡ some size
          → get_elem? index.segment_offset_boundaries segment_id ≡ some offset
          → guess_of interpolate index key
            ≡ done (
                clamped
                  (interpolate (key - start) (upper - start) ((size + word - 1) % word) offset))
      unfolding guess_of clamped
      guessed upper size offset at_upper upper_ok at_size at_offset =
          rw
            (
              found,
              built.starts segment_id in_segment.below,
              at_upper,
              le→leb start key in_segment.from,
              upper_ok,
              at_size,
              at_offset,
            )
            refl

      clamped_lt : (guess : ℕ) → clamped guess < length index.container
      unfolding clamped
      clamped_lt guess =
          ground (arith, get_elem?-lt index.container 0 built.bounds.first built.bounds.at_first)

      clamped_last : clamped (length index.container - 1) ≡ length index.container - 1
      unfolding clamped
      clamped_last = ground arith

    inner-IsGuess :
        (segment_id : ℕ)
        → segment_of index key ≡ done segment_id
        → InSegment index key segment_id
        → segment_id < index.num_segments - 1
        → Returns (guess_of interpolate index key) (IsGuess index key)
    inner-IsGuess segment_id found in_segment inner =
        let (size, at_size) =
          get_elem?-some index.segment_sizes segment_id (omega (arith, built.count_sizes)) in
        let (offset, at_offset) =
          get_elem?-some index.segment_offset_boundaries segment_id
            (omega (arith, built.count_offsets)) in
        rw
          (guessed segment_id found in_segment (index.key_min + width index * (segment_id + 1)) size
            offset (built.starts (segment_id + 1) (omega arith))
            (ground (arith, in_segment.before inner)) at_size at_offset)
          (clamped_lt segment_id found in_segment _, λ h. absurd (omega (arith, in_segment.last h)))

    last_range :
        (segment_id : ℕ)
        → segment_id + 1 ≡ index.num_segments
        → index.key_min + width index * segment_id < index.key_max
    last_range segment_id next_is = omega (
      arith,
      whole_width index built wide key lo hi,
      wide,
      ap (λ m. width index * m) (sym next_is),
      next_times segment_id (width index),
      mul_comm segment_id (width index),
    )

    exact_guess :
        (range : ℕ)
        → range ≢ 0
        → range < word
        → interpolate range range (built.last_size - 1) built.last_offset
          ≡ length index.container - 1
    exact_guess range some_range fits =
        exact range (built.last_size - 1) built.last_offset some_range fits
          (omega (arith, built.reaches, built.not_empty))
        ∙ omega (arith, built.reaches, built.not_empty)

    last-IsGuess :
        (segment_id : ℕ)
        → segment_of index key ≡ done segment_id
        → InSegment index key segment_id
        → segment_id ≡ index.num_segments - 1
        → Returns (guess_of interpolate index key) (IsGuess index key)
    last-IsGuess segment_id found in_segment here =
        rw
          (guessed segment_id found in_segment index.key_max built.last_size built.last_offset
            (rw next_is built.end) (ground (arith, hi, here)) (rw here built.at_size)
            (rw here built.at_offset))
          (clamped_lt segment_id found in_segment _, at_end)
      where
        next_is : segment_id + 1 ≡ index.num_segments
        next_is = omega (arith, built.some_segment)

        wrapped : (built.last_size + word - 1) % word ≡ built.last_size - 1
        wrapped = omega (arith, built.reaches, built.not_empty)

        guess_is :
            interpolate
              (index.key_max - start segment_id found in_segment)
              (index.key_max - start segment_id found in_segment)
              (built.last_size - 1)
              built.last_offset
            ≡ length index.container - 1
        guess_is =
            exact_guess (index.key_max - start segment_id found in_segment)
              (omega (arith, last_range segment_id next_is)) (omega arith)

        at_end :
            key ≡ index.key_max
            → clamped segment_id found in_segment (
                interpolate
                  (key - start segment_id found in_segment)
                  (index.key_max - start segment_id found in_segment)
                  ((built.last_size + word - 1) % word)
                  built.last_offset)
              ≡ length index.container - 1
        at_end h =
            ap (clamped segment_id found in_segment) (rw (h, wrapped) guess_is)
            ∙ clamped_last segment_id found in_segment

    of_segment :
        (run : Run ℕ)
        → segment_of index key ≡ run
        → Returns run (InSegment index key)
        → Returns (guess_of interpolate index key) (IsGuess index key)
    of_segment (fail e) is_run h = absurd h
    of_segment (done segment_id) is_run h = elim (dec_lt segment_id (index.num_segments - 1)) [
      | yes inner ↦ inner-IsGuess segment_id is_run h inner
      | no not_inner ↦ last-IsGuess segment_id is_run h (omega (arith, h.below))
    ]

    -- No ASSERT fails on the way to the guess.
    pub IsGuess-found : Returns (guess_of interpolate index key) (IsGuess index key)
    IsGuess-found =
        of_segment (segment_of index key) refl (segment_found index built wide key lo hi)
