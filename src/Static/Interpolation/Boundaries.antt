-- ===== src/Static/Interpolation/Boundaries.antt =====
-- The loops of `reorganize` of src/static_index/interpolation_index.h.
use index_zoo.Base.{
  arith, ℕ, zero, suc, ◌+◌, ◌-◌, ◌*◌, ◌/◌, ◌<◌, ◌≤◌, ◌≡◌, ap, ◌∙◌, List, length, set, length-set,
  get_elem?, get_elem?-some, get_elem?-set_self, get_elem?-set_ne, some, done, Returns, Returns-map,
  dec_lt, ℕ_discrete,
}
use index_zoo.Static.Entry.{KeyOffsetPair, IsSorted, IsSorted-le}
use index_zoo.Static.Entry.Between.{IsFirst}
use index_zoo.Static.Loops.{for_each-Returns}
use index_zoo.Static.Interpolation.{InterpolationIndex}
use index_zoo.Static.Interpolation.Segments.{write_at, skip_below, key_boundaries}

pub write_at_lem : (xs : List ℕ) (i v : ℕ) → i < length xs → write_at xs i v ≡ done (set xs i v)
unfolding write_at
write_at_lem xs i v h = ground arith

module _ (c : List KeyOffsetPair) (sorted : IsSorted c) (last : KeyOffsetPair)
    (at_last : get_elem? c (length c - 1) ≡ some last) (boundary : ℕ)
    (not_past : boundary ≤ last.key) where
  skip_stops :
      (fuel i : ℕ) (x : KeyOffsetPair)
      → get_elem? c i ≡ some x
      → boundary ≤ x.key
      → skip_below (suc fuel) c boundary i ≡ done i
  unfolding skip_below
  skip_stops fuel i x e h = ground arith

  skip_on :
      (fuel i : ℕ) (x : KeyOffsetPair)
      → get_elem? c i ≡ some x
      → x.key < boundary
      → skip_below (suc fuel) c boundary i ≡ skip_below fuel c boundary (i + 1)
  unfolding skip_below
  skip_on fuel i x e h = ground arith

  -- The loop stops at the last key at the latest.
  pub skip_below-IsFirst :
      (fuel i : ℕ)
      → length c ≤ i + fuel
      → i < length c
      → ((j : ℕ) (x : KeyOffsetPair) → get_elem? c j ≡ some x → j < i → x.key < boundary)
      → Returns (skip_below fuel c boundary i) (IsFirst c boundary)
  skip_below-IsFirst zero i enough inside before = absurd (omega arith)
  skip_below-IsFirst (suc fuel) i enough inside before =
      let (x, e) = get_elem?-some c i inside in
      elim (dec_lt x.key boundary) [
        | no stop ↦ rw (skip_stops fuel i x e (omega arith)) (record {
          inside = inside;
          below = before;
          above = λ j y at_j from. omega (arith, IsSorted-le c i j x y sorted from e at_j);
        })
        | yes more ↦ rw (skip_on fuel i x e more) (
            skip_below-IsFirst fuel (i + 1) (omega arith) (omega (arith, not_end x e more))
              (λ j y at_j up_to. before_next x e more j y at_j up_to))
      ]
    where
      not_end : (x : KeyOffsetPair) → get_elem? c i ≡ some x → x.key < boundary → i + 1 < length c
      not_end x e more = elim (ℕ_discrete i (length c - 1)) [
        | no other ↦ omega arith
        | yes here ↦
            let equal : x ≡ last = cc (e, at_last, here) in
            let keys : x.key ≡ last.key = ap (λ u. u.key) equal in absurd (omega arith)
      ]

      before_next :
          (x : KeyOffsetPair)
          → get_elem? c i ≡ some x
          → x.key < boundary
          → (j : ℕ) (y : KeyOffsetPair) → get_elem? c j ≡ some y
          → j < i + 1
          → y.key < boundary
      before_next x e more j y at_j up_to = elim (ℕ_discrete j i) [
        | yes same ↦
            let equal : x ≡ y = cc (e, at_j, same) in
            let keys : x.key ≡ y.key = ap (λ u. u.key) equal in omega arith
        | no other ↦ before j y at_j (omega arith)
      ]

-- The array of boundaries after the rounds below `i`.
record HasStarts (key_min w key_max n i : ℕ) (boundaries : List ℕ) : Type 0 where
  count : length boundaries ≡ n + 1
  starts : (j : ℕ) → j < i → get_elem? boundaries j ≡ some (key_min + w * j)
  end : get_elem? boundaries n ≡ some key_max

module _ (key_min w key_max n : ℕ) (some_segment : 1 ≤ n) where
  first_two :
      (xs : List ℕ)
      → length xs ≡ n + 1
      → HasStarts key_min w key_max n 1 (set (set xs 0 key_min) n key_max)
  first_two xs count = record {
    count = length-set (set xs 0 key_min) n key_max ∙ length-set xs 0 key_min ∙ count;
    starts = λ j h.
        let here : j ≡ 0 = omega arith in
        rw here (
          get_elem?-set_ne (set xs 0 key_min) n 0 key_max (omega arith)
          ∙ get_elem?-set_self xs 0 key_min (omega arith)
          ∙ ap some (omega arith));
    end = get_elem?-set_self (set xs 0 key_min) n key_max (omega (arith, length-set xs 0 key_min));
  }

  next_start :
      (i : ℕ) (xs : List ℕ)
      → i < n
      → HasStarts key_min w key_max n i xs
      → HasStarts key_min w key_max n (i + 1) (set xs i (key_min + w * i))
  next_start i xs h p = record {
    count = length-set xs i (key_min + w * i) ∙ p.count;
    starts = λ j below. elim (ℕ_discrete j i) [
      | yes here ↦ rw here (get_elem?-set_self xs i (key_min + w * i) (omega (arith, p.count)))
      | no other ↦
          get_elem?-set_ne xs i j (key_min + w * i) (omega arith) ∙ p.starts j (omega arith)
    ];
    end = get_elem?-set_ne xs i n (key_min + w * i) (omega arith) ∙ p.end;
  }

module _ (index : InterpolationIndex) (some_segment : 1 ≤ index.num_segments)
    (count : length index.segment_key_boundaries ≡ index.num_segments + 1) where
  abbrev segment_range : ℕ
  segment_range = (index.key_max - index.key_min) / index.num_segments

  abbrev Starts : ℕ → List ℕ → Type 0
  Starts = HasStarts index.key_min segment_range index.key_max index.num_segments

  key_boundaries-HasStarts : Returns (key_boundaries index) (Starts index.num_segments)
  unfolding key_boundaries
  key_boundaries-HasStarts =
      rw
        (
          write_at_lem index.segment_key_boundaries 0 index.key_min (omega arith),
          write_at_lem (set index.segment_key_boundaries 0 index.key_min) index.num_segments
              index.key_max
              (omega (arith, length-set index.segment_key_boundaries 0 index.key_min)),
        )
        (for_each-Returns Starts (λ i xs. write_at xs i (index.key_min + segment_range * i))
          index.num_segments
          (λ i xs h p.
            rw (write_at_lem xs i (index.key_min + segment_range * i) (omega (arith, p.count))) (
              next_start index.key_min segment_range index.key_max index.num_segments some_segment i
                xs h p))
          (index.num_segments - 1) 1
          (set (set index.segment_key_boundaries 0 index.key_min) index.num_segments index.key_max)
          (omega arith)
          (first_two index.key_min segment_range index.key_max index.num_segments some_segment
            index.segment_key_boundaries count))

  -- After `key_boundaries` every boundary is set: the starts of the segments and the last key.
  pub key_boundaries_lem : Returns (key_boundaries index) (λ xs.
      ((j : ℕ) → j < index.num_segments → get_elem? xs j ≡ some (index.key_min + segment_range * j))
      × (get_elem? xs index.num_segments ≡ some index.key_max))
  key_boundaries_lem =
      Returns-map (key_boundaries index) (λ xs p. (p.starts, p.end)) key_boundaries-HasStarts
