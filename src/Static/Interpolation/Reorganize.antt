-- ===== src/Static/Interpolation/Reorganize.antt =====
-- `reorganize` of src/static_index/interpolation_index.h builds what `find` relies on.
use native.Mathlib.Nat.{div-mul-le_self}
use index_zoo.Base.{
  arith, ℕ, zero, suc, ◌+◌, ◌-◌, ◌*◌, ◌/◌, ◌<◌, ◌≤◌, ◌≡◌, refl, ◌∙◌, List, [], length, set,
  length-set, replicate, length-replicate, get_elem?, get_elem?-some, get_elem?-lt,
  get_elem?-set_self, some, le→leb, Run, done, Returns, Returns-bind, ◌>>=◌,
}
use index_zoo.Table.Generic.{GenericDataTable, size}
use index_zoo.Table.Generic.Valid.{IsValid}
use index_zoo.Static.Entry.{KeyOffsetPair, IsSorted-le}
use index_zoo.Static.Sorting.{Sorter}
use index_zoo.Static.Reorganize.{base_reorganize}
use index_zoo.Static.Reorganize.Sorted.{Sorts, base_reorganize-Sorts}
use index_zoo.Static.Entry.Between.{IsFirst}
use index_zoo.Static.Loops.{for_each}
use index_zoo.Static.Interpolation.{InterpolationIndex, new_index}
use index_zoo.Static.Interpolation.Segments.{
  Boundaries, write_at, key_boundaries, next_segment, reorganize,
}
use index_zoo.Static.Interpolation.Boundaries.{write_at_lem, key_boundaries_lem}
use index_zoo.Static.Interpolation.Partition.{IsPartition, current-IsFirst, segments-IsPartition}
use index_zoo.Static.Interpolation.Built.{IsBuilt, width}

-- The index that `reorganize` leaves, for `num` segments over the `n` tuples of `t`. The offset of a
-- segment is the number of keys below its first key.
pub record Reorganized (t : GenericDataTable) (n num : ℕ) (index : InterpolationIndex)
    : Type 0 where
  pub built : IsBuilt index
  pub same_segments : index.num_segments ≡ num
  pub sorts : Sorts t n index.container
  pub split :
      (j : ℕ)
      → j < num
      → (o : ℕ) × (get_elem? index.segment_offset_boundaries j ≡ some o)
        × IsFirst index.container (index.key_min + width index * j) o

get_elem?-replicate : (n i v : ℕ) → i < n → get_elem? (replicate n v) i ≡ some v
get_elem?-replicate zero i v h = elim h [ ]
get_elem?-replicate (suc n) zero v h = refl
get_elem?-replicate (suc n) (suc i) v h = get_elem?-replicate n i v (omega arith)

module _ (num n : ℕ) (t : GenericDataTable) (some_segment : 1 ≤ num) (c : List KeyOffsetPair)
    (s : Sorts t n c) (first last : KeyOffsetPair) (at_first : get_elem? c 0 ≡ some first)
    (at_last : get_elem? c (length c - 1) ≡ some last) where
  abbrev index_of : List ℕ → List ℕ → List ℕ → InterpolationIndex
  index_of boundaries offsets sizes = record {
    container = c;
    num_segments = num;
    key_min = first.key;
    key_max = last.key;
    segment_key_boundaries = boundaries;
    segment_offset_boundaries = offsets;
    segment_sizes = sizes;
  }

  range : ℕ
  range = (last.key - first.key) / num

  start : ℕ → ℕ
  start j = first.key + range * j

  whole : (j : ℕ) → j ≤ num → range * j ≤ last.key - first.key
  unfolding range
  whole j h = grind (arith, div-mul-le_self (last.key - first.key) num, mul_le range j num h)
    where
      mul_le : (r a b : ℕ) → a ≤ b → r * a ≤ b * r
      mul_le r a b h = grind arith

  ordered : first.key ≤ last.key
  ordered = IsSorted-le c 0 (length c - 1) first last s.sorted (omega arith) at_first at_last

  start_rises : (j : ℕ) → start j ≤ start (j + 1)
  unfolding start
  start_rises j = grind arith

  start_le : (j : ℕ) → j < num → start j ≤ last.key
  unfolding start
  start_le j h = omega (arith, whole j (omega arith), ordered)

  inside : 0 < length c
  inside = get_elem?-lt c 0 first at_first

  abbrev from_zero : Boundaries
  from_zero = record {
    current_offset = 0;
    offsets = set (replicate num 0) 0 0;
    sizes = replicate num 0;
  }

  at_zero : get_elem? from_zero.offsets 0 ≡ some 0
  at_zero = get_elem?-set_self (replicate num 0) 0 0 (omega (arith, length-replicate {A = ℕ} num 0))

  from_zero-IsPartition : IsPartition c start num 0 from_zero
  unfolding start
  from_zero-IsPartition = record {
    count_sizes = length-replicate num 0;
    count_offsets = length-set (replicate num 0) 0 0 ∙ length-replicate num 0;
    split = λ j h.
        let here : j ≡ 0 = omega arith in
        rw here (
          0,
          at_zero,
          record {
            inside = inside;
            below = λ j x at_j none. absurd (omega arith);
            above = λ j x at_j h. omega (arith, IsSorted-le c 0 j first x s.sorted h at_first at_j);
          },
        );
    current = at_zero;
    size_is = λ j o o' none. absurd (omega arith);
    unset = λ j from below. get_elem?-replicate num j 0 below;
  }

  module _ (boundaries : List ℕ)
      (starts : (j : ℕ) → j < num → get_elem? boundaries j ≡ some (start j))
      (end : get_elem? boundaries num ≡ some last.key) (b : Boundaries)
      (p : IsPartition c start num (num - 1) b) where
    abbrev last_size : ℕ
    last_size = length c - b.current_offset

    left_over : b.current_offset < length c
    left_over = (current-IsFirst c start num (num - 1) b p).inside

    abbrev finished : InterpolationIndex
    finished = index_of boundaries b.offsets (set b.sizes (num - 1) last_size)

    finished-Reorganized : Reorganized t n num finished
    unfolding start range
    finished-Reorganized = record {
      built = record {
        sorted = s.sorted;
        bounds = record {
          first = first;
          last = last;
          at_first = at_first;
          at_last = at_last;
          min_is = refl;
          max_is = refl;
        };
        some_segment = some_segment;
        starts = starts;
        end = end;
        count_sizes = length-set b.sizes (num - 1) last_size ∙ p.count_sizes;
        count_offsets = p.count_offsets;
        last_size = last_size;
        last_offset = b.current_offset;
        at_size = get_elem?-set_self b.sizes (num - 1) last_size (omega (arith, p.count_sizes));
        at_offset = p.current;
        not_empty = omega (arith, left_over);
        reaches = omega (arith, left_over);
      };
      same_segments = refl;
      sorts = s;
      split = λ j h. p.split j (omega arith);
    }

  -- What follows the sort.
  fill_segments : Run InterpolationIndex
  fill_segments =
      key_boundaries (index_of (replicate (num + 1) 0) (replicate num 0) (replicate num 0))
      >>= λ boundaries. write_at (replicate num 0) 0 0 >>= λ start.
          for_each (num - 1) 0
            (λ i s. next_segment (index_of boundaries (replicate num 0) (replicate num 0)) i s)
            (record { current_offset = 0; offsets = start; sizes = replicate num 0 })
          >>= λ b. write_at b.sizes (num - 1) (length c - b.current_offset) >>= λ sizes.
              done (index_of boundaries b.offsets sizes)

  at_start : write_at (replicate num 0) 0 0 ≡ done (set (replicate num 0) 0 0)
  at_start = write_at_lem (replicate num 0) 0 0 (omega (arith, length-replicate {A = ℕ} num 0))

  fill_segments-Reorganized : Returns fill_segments (Reorganized t n num)
  unfolding fill_segments range start
  fill_segments-Reorganized =
      Returns-bind
        (λ xs.
          ((j : ℕ) → j < num → get_elem? xs j ≡ some (start j))
          × (get_elem? xs num ≡ some last.key))
        (Reorganized t n num)
        (key_boundaries (index_of (replicate (num + 1) 0) (replicate num 0) (replicate num 0))) _
        (key_boundaries_lem (index_of (replicate (num + 1) 0) (replicate num 0) (replicate num 0))
          some_segment (length-replicate (num + 1) 0))
        (λ boundaries h. rw at_start (
          Returns-bind (IsPartition c start num (num - 1)) (Reorganized t n num)
            (for_each (num - 1) 0
              (λ i b. next_segment (index_of boundaries (replicate num 0) (replicate num 0)) i b)
              from_zero)
            _
            (segments-IsPartition (index_of boundaries (replicate num 0) (replicate num 0)) s.sorted
              last at_last start h.0 start_rises start_le from_zero some_segment
              from_zero-IsPartition)
            (λ b p.
              rw
                (write_at_lem b.sizes (num - 1) (length c - b.current_offset)
                  (omega (arith, p.count_sizes)))
                (finished-Reorganized boundaries h.0 h.1 b p))))

module _ (std : Sorter) (num n : ℕ) (t : GenericDataTable) (v : IsValid t)
    (counted : size t ≡ done n) (held : 0 < n) (some_segment : 1 ≤ num) where
  -- For any sort with the laws of `std::sort`, `reorganize` of a new index with `num` segments,
  -- `num` above 0, on a valid table of `n` tuples, `n` above 0, ends normally and writes inside its
  -- arrays only. The array that it leaves is a sorted permutation of the pairs of all tuples, the
  -- first offset of each segment is the number of keys below the first key of the segment, and
  -- the index is one that `find` can rely on.
  pub segments-Reorganized :
      Returns (new_index num >>= λ index. reorganize std index t) (Reorganized t n num)
  unfolding reorganize new_index
  segments-Reorganized = rw (le→leb 1 num some_segment) (
      Returns-bind (Sorts t n) (Reorganized t n num) (base_reorganize std [] t) _
        (base_reorganize-Sorts std t v n counted held)
        (λ c s.
          let (first, at_first) = get_elem?-some c 0 (omega (arith, s.count_is)) in
          let (last, at_last) = get_elem?-some c (length c - 1) (omega (arith, s.count_is)) in
          rw (at_first, at_last)
            (unfold fill_segments in
              fill_segments-Reorganized num n t some_segment c s first last at_first at_last)))
