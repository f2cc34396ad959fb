-- ===== src/Examples/Interpolations.antt =====
-- Tests of the interpolation index (src/static_index/interpolation_index.h) with whole numbers in the place
-- of doubles.
use native.Mathlib.Nat.{mul-div_cancel_left}
use index_zoo.Base.{
  arith, ℕ, zero, suc, ◌+◌, ◌*◌, ◌/◌, ◌≡◌, ◌<◌, refl, ap, [], ◌∷◌, ◌++◌, get_elem?, some, take,
  drop, done, fail, trap, division_by_zero, Returns, ◌>>=◌, Perm, inl,
}
use index_zoo.Table.Offset.{word}
use index_zoo.Static.Entry.{KeyOffsetPair, matching}
use index_zoo.Static.Entry.Between.{between}
use index_zoo.Static.Walk.{walk_left}
use index_zoo.Table.Numeric.{from_bytes}
use index_zoo.Static.Sorting.{by_insertion}
use index_zoo.Static.Reorganize.Sorted.{pairs_of}
use index_zoo.Static.Interpolation.{
  Interpolate, InterpolationIndex, new_index, find, guess_of, segment_of, find_from, match_right,
}
use index_zoo.Static.Interpolation.Segments.{reorganize}
use index_zoo.Static.Interpolation.Range.{find_range, find_upper_bound}
use index_zoo.Static.Interpolation.Built.{IsBuilt, IsExactAtEnd, width}
use index_zoo.Static.Interpolation.Laws.{find-matching, find_divides_by_zero}
use index_zoo.Static.Interpolation.Reorganize.{Reorganized, segments-Reorganized}
use index_zoo.Static.Interpolation.Lookup.{segments_find}
use index_zoo.Static.Interpolation.Between.{find_range-between}
use index_zoo.Static.Interpolation.ByScan.{find_range_by_scan, by_scan_leaves_last}
use index_zoo.Static.Interpolation.Bounds.{to_second, upper_bound_traps}
use index_zoo.Examples.Binaries.{pair, three, three-IsSorted, three-IsBounds}
use index_zoo.Examples.Lookups.{
  two_tuples, two_tuples-IsValid, two_tuples-size, two_entries, two_entries_read,
}

-- Linear interpolation, rounded down.
linear : Interpolate
linear distance range size offset = distance * size / range + offset

linear-IsExactAtEnd : IsExactAtEnd linear
unfolding linear
linear-IsExactAtEnd range size offset some_range short small =
    ap (λ q. q + offset) (mul-div_cancel_left size (omega arith))

-- Three keys in two segments.
abbrev three_index : InterpolationIndex
three_index = record {
  container = three;
  num_segments = 2;
  key_min = 10;
  key_max = 30;
  segment_key_boundaries = 10 ∷ 20 ∷ 30 ∷ [];
  segment_offset_boundaries = 0 ∷ 1 ∷ [];
  segment_sizes = 1 ∷ 2 ∷ [];
}

starts : (i : ℕ) → i < 2 → get_elem? (10 ∷ 20 ∷ 30 ∷ []) i ≡ some (10 + width three_index * i)
starts zero h = refl
starts (suc zero) h = refl
starts (suc (suc i)) h = absurd (omega arith)

three-IsBuilt : IsBuilt three_index
three-IsBuilt = record {
  sorted = three-IsSorted;
  bounds = three-IsBounds;
  some_segment = omega arith;
  starts = starts;
  end = refl;
  count_sizes = refl;
  count_offsets = refl;
  last_size = 2;
  last_offset = 1;
  at_size = refl;
  at_offset = refl;
  not_empty = omega arith;
  reaches = refl;
}

find-matching_example :
    Returns (find linear three_index 30 (7 ∷ [])) (λ r. Perm r ((7 ∷ []) ++ matching 30 three))
find-matching_example =
    find-matching linear three_index three-IsBuilt 30 (7 ∷ []) linear-IsExactAtEnd (omega arith)
      (omega arith) (λ differ. omega arith)

found : find linear three_index 30 (7 ∷ []) ≡ done (7 ∷ 300 ∷ [])
unfolding find guess_of segment_of linear find_from walk_left match_right
found = refl

find_range-between_example :
    Returns (find_range linear three_index 15 25 []) (λ r. Perm r ([] ++ between 15 25 three))
find_range-between_example =
    find_range-between linear three_index three-IsBuilt linear-IsExactAtEnd (omega arith)
      (omega arith) (λ differ. omega arith) 15 25 [] (to_second (pair 20 200) refl (omega arith))

guess_15 : guess_of linear three_index 15 ≡ done 0
unfolding guess_of segment_of linear
guess_15 = refl

by_scan_leaves_last_example :
    find_range_by_scan linear three_index 15 35 []
    ≡ done ([] ++ between 15 35 (take 1 (drop 1 three)))
by_scan_leaves_last_example =
    by_scan_leaves_last linear three_index three-IsSorted 15 35 0 (pair 10 100) [] refl
      (omega arith) (omega arith) (omega arith) guess_15 (omega arith)

-- Two keys, 5 and 6, in two segments.
abbrev close_index : InterpolationIndex
close_index = record {
  container = pair 5 50 ∷ pair 6 60 ∷ [];
  num_segments = 2;
  key_min = 5;
  key_max = 6;
  segment_key_boundaries = 5 ∷ 5 ∷ 6 ∷ [];
  segment_offset_boundaries = 0 ∷ 0 ∷ [];
  segment_sizes = 0 ∷ 2 ∷ [];
}

close_starts : (i : ℕ) → i < 2 → get_elem? (5 ∷ 5 ∷ 6 ∷ []) i ≡ some (5 + width close_index * i)
close_starts zero h = refl
close_starts (suc zero) h = refl
close_starts (suc (suc i)) h = absurd (omega arith)

close-IsBuilt : IsBuilt close_index
close-IsBuilt = record {
  sorted = omega arith;
  bounds = record {
    first = pair 5 50;
    last = pair 6 60;
    at_first = refl;
    at_last = refl;
    min_is = refl;
    max_is = refl;
  };
  some_segment = omega arith;
  starts = close_starts;
  end = refl;
  count_sizes = refl;
  count_offsets = refl;
  last_size = 2;
  last_offset = 0;
  at_size = refl;
  at_offset = refl;
  not_empty = omega arith;
  reaches = refl;
}

find_divides_by_zero_example : find linear close_index 6 [] ≡ fail division_by_zero
find_divides_by_zero_example =
    find_divides_by_zero linear close_index close-IsBuilt 6 [] (omega arith) (omega arith)
      (omega arith) (omega arith)

-- The keys 10, 29 and 30 in one segment.
abbrev late_index : InterpolationIndex
late_index = record {
  container = pair 10 100 ∷ pair 29 290 ∷ pair 30 300 ∷ [];
  num_segments = 1;
  key_min = 10;
  key_max = 30;
  segment_key_boundaries = 10 ∷ 30 ∷ [];
  segment_offset_boundaries = 0 ∷ [];
  segment_sizes = 3 ∷ [];
}

late_starts : (i : ℕ) → i < 1 → get_elem? (10 ∷ 30 ∷ []) i ≡ some (10 + width late_index * i)
late_starts zero h = refl
late_starts (suc i) h = absurd (omega arith)

late-IsBuilt : IsBuilt late_index
late-IsBuilt = record {
  sorted = omega arith;
  bounds = record {
    first = pair 10 100;
    last = pair 30 300;
    at_first = refl;
    at_last = refl;
    min_is = refl;
    max_is = refl;
  };
  some_segment = omega arith;
  starts = late_starts;
  end = refl;
  count_sizes = refl;
  count_offsets = refl;
  last_size = 3;
  last_offset = 0;
  at_size = refl;
  at_offset = refl;
  not_empty = omega arith;
  reaches = refl;
}

late_guess : guess_of linear late_index 25 ≡ done 1
unfolding guess_of segment_of linear
late_guess = refl

upper_bound_traps_example : find_upper_bound linear late_index 25 ≡ fail trap
upper_bound_traps_example =
    upper_bound_traps linear late_index late-IsBuilt linear-IsExactAtEnd (omega arith) (omega arith)
      (omega arith) 25 (pair 29 290) 0 refl (omega arith) (omega arith) late_guess

segments-Reorganized_example :
    Returns
      (new_index 1 >>= λ index. reorganize by_insertion index two_tuples)
      (Reorganized two_tuples 2 1)
segments-Reorganized_example =
    segments-Reorganized by_insertion 1 2 two_tuples two_tuples-IsValid two_tuples-size
      (omega arith) (omega arith)

two_short : (i : ℕ) (x : KeyOffsetPair) → get_elem? (pairs_of two_entries) i ≡ some x → x.key < word
unfolding from_bytes
two_short zero x h = ground arith
two_short (suc zero) x h = ground arith
two_short (suc (suc i)) x h = cc

segments_find_example :
    Returns
      ((new_index 1 >>= λ fresh. reorganize by_insertion fresh two_tuples) >>= λ index.
        find linear index 7 [])
      (λ r. Perm r ([] ++ matching 7 (pairs_of two_entries)))
segments_find_example =
    segments_find by_insertion 1 2 two_tuples two_tuples-IsValid two_tuples-size (omega arith)
      (omega arith) two_entries two_entries_read linear linear-IsExactAtEnd (omega arith) two_short
      (inl refl) 7 []
