-- ===== src/Static/Interpolation/Partition.antt =====
-- The loop of `reorganize` of src/static_index/interpolation_index.h that finds where the segments
-- start.
use index_zoo.Base.{
  arith, ℕ, ◌+◌, ◌-◌, ◌<◌, ◌≤◌, ◌≡◌, sym, ap, ◌∙◌, List, length, set, length-set, get_elem?,
  get_elem?-set_self, get_elem?-set_ne, some, Returns, Returns-bind, ℕ_discrete,
}
use index_zoo.Static.Entry.{KeyOffsetPair, IsSorted}
use index_zoo.Static.Entry.Between.{IsFirst}
use index_zoo.Static.Loops.{for_each, for_each-Returns}
use index_zoo.Static.Interpolation.{InterpolationIndex}
use index_zoo.Static.Interpolation.Segments.{Boundaries, skip_below, next_segment}
use index_zoo.Static.Interpolation.Boundaries.{write_at_lem, skip_below-IsFirst}

-- The locals of the loop before the round of `i`, for an array `c`, `n` segments and the boundaries
-- `starts`.
pub record IsPartition (c : List KeyOffsetPair) (starts : ℕ → ℕ) (n i : ℕ) (b : Boundaries)
    : Type 0 where
  pub count_sizes : length b.sizes ≡ n
  pub count_offsets : length b.offsets ≡ n
  pub split : (j : ℕ) → j ≤ i → (o : ℕ) × (get_elem? b.offsets j ≡ some o) × IsFirst c (starts j) o
  pub current : get_elem? b.offsets i ≡ some b.current_offset
  pub size_is :
      (j o o' : ℕ)
      → j < i
      → get_elem? b.offsets j ≡ some o
      → get_elem? b.offsets (j + 1) ≡ some o'
      → get_elem? b.sizes j ≡ some (o' - o)
  pub unset : (j : ℕ) → i ≤ j → j < n → get_elem? b.sizes j ≡ some 0

module _ (c : List KeyOffsetPair) (starts : ℕ → ℕ) (n i : ℕ) (b : Boundaries)
    (p : IsPartition c starts n i b) where
  pub current-IsFirst : IsFirst c (starts i) b.current_offset
  current-IsFirst =
      let (o, at_o, s) = p.split i (omega arith) in
      let same : o ≡ b.current_offset = cc (at_o, p.current) in rw same at s

  module _ (inner : i + 1 < n) (r : ℕ) (s : IsFirst c (starts (i + 1)) r) where
    abbrev moved : Boundaries
    moved = record {
      current_offset = r;
      offsets = set b.offsets (i + 1) r;
      sizes = set b.sizes i (0 + (r - b.current_offset));
    }

    at_next : get_elem? moved.offsets (i + 1) ≡ some r
    at_next = get_elem?-set_self b.offsets (i + 1) r (omega (arith, p.count_offsets))

    at_before : (j : ℕ) → j ≤ i → get_elem? moved.offsets j ≡ get_elem? b.offsets j
    at_before j h = get_elem?-set_ne b.offsets (i + 1) j r (omega arith)

    moved_split :
        (j : ℕ)
        → j ≤ i + 1
        → (o : ℕ) × (get_elem? moved.offsets j ≡ some o) × IsFirst c (starts j) o
    moved_split j h = elim (ℕ_discrete j (i + 1)) [
      | yes here ↦ rw here (r, at_next, s)
      | no other ↦
          let (o, at_o, so) = p.split j (omega arith) in (o, at_before j (omega arith) ∙ at_o, so)
    ]

    moved_size :
        (j o o' : ℕ)
        → j < i + 1
        → get_elem? moved.offsets j ≡ some o
        → get_elem? moved.offsets (j + 1) ≡ some o'
        → get_elem? moved.sizes j ≡ some (o' - o)
    moved_size j o o' h at_o at_o' = elim (ℕ_discrete j i) [
      | yes here ↦
          let old : get_elem? b.offsets i ≡ some o =
            sym (at_before i (omega arith)) ∙ (rw here at at_o) in
          let new : get_elem? moved.offsets (i + 1) ≡ some o' = rw here at at_o' in
          let from_is : o ≡ b.current_offset = cc (old, p.current) in
          let to_is : o' ≡ r = cc (at_next, new) in
          rw (here, from_is, to_is)
            (get_elem?-set_self b.sizes i (0 + (r - b.current_offset))
                (omega (arith, p.count_sizes))
              ∙ ap some (omega arith))
      | no other ↦
          get_elem?-set_ne b.sizes i j (0 + (r - b.current_offset)) (omega arith)
          ∙ p.size_is j o o' (omega arith) (sym (at_before j (omega arith)) ∙ at_o)
              (sym (at_before (j + 1) (omega arith)) ∙ at_o')
    ]

    moved-IsPartition : IsPartition c starts n (i + 1) moved
    moved-IsPartition = record {
      count_sizes = length-set b.sizes i (0 + (r - b.current_offset)) ∙ p.count_sizes;
      count_offsets = length-set b.offsets (i + 1) r ∙ p.count_offsets;
      split = moved_split;
      current = at_next;
      size_is = moved_size;
      unset = λ j from to.
          get_elem?-set_ne b.sizes i j (0 + (r - b.current_offset)) (omega arith)
          ∙ p.unset j (omega arith) to;
    }

module _ (index : InterpolationIndex) (sorted : IsSorted index.container) (last : KeyOffsetPair)
    (at_last : get_elem? index.container (length index.container - 1) ≡ some last) (starts : ℕ → ℕ)
    (boundaries : (j : ℕ)
      → j < index.num_segments
      → get_elem? index.segment_key_boundaries j ≡ some (starts j))
    (rising : (j : ℕ) → starts j ≤ starts (j + 1))
    (not_past : (j : ℕ) → j < index.num_segments → starts j ≤ last.key) where
  abbrev Partition : ℕ → Boundaries → Type 0
  Partition = IsPartition index.container starts index.num_segments

  next_segment-IsPartition :
      (i : ℕ) (b : Boundaries)
      → i < index.num_segments - 1
      → Partition i b
      → Returns (next_segment index i b) (Partition (i + 1))
  unfolding next_segment
  next_segment-IsPartition i b inner p =
      let here = current-IsFirst index.container starts index.num_segments i b p in
      rw (boundaries (i + 1) (omega arith)) (
        Returns-bind (IsFirst index.container (starts (i + 1))) (Partition (i + 1))
          (skip_below (length index.container + 1) index.container (starts (i + 1))
            b.current_offset)
          _
          (skip_below-IsFirst index.container sorted last at_last (starts (i + 1))
            (not_past (i + 1) (omega arith)) (length index.container + 1) b.current_offset
            (omega arith) here.inside
            (λ j x at_j up_to. omega (arith, here.below j x at_j up_to, rising i)))
          (λ r s.
            rw
              (
                p.unset i (omega arith) (omega arith),
                write_at_lem b.sizes i (0 + (r - b.current_offset)) (omega (arith, p.count_sizes)),
                write_at_lem b.offsets (i + 1) r (omega (arith, p.count_offsets)),
              )
              (moved-IsPartition index.container starts index.num_segments i b p (omega arith) r
                s)))

  -- The loop over all segments but the last.
  pub segments-IsPartition :
      (b : Boundaries)
      → 1 ≤ index.num_segments
      → Partition 0 b
      → Returns
          (for_each (index.num_segments - 1) 0 (λ i s. next_segment index i s) b)
          (Partition (index.num_segments - 1))
  segments-IsPartition b some_segment p =
      for_each-Returns Partition (λ i s. next_segment index i s) (index.num_segments - 1)
        next_segment-IsPartition (index.num_segments - 1) 0 b (omega arith) p
