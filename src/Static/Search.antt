-- ===== src/Static/Search.antt =====
-- The binary search on the array itself, the same in src/static_index/binary_index.h, kary_index.h
-- and fast_index.h.
use index_zoo.Base.{
  arith, ℕ, zero, suc, ◌+◌, ◌-◌, ◌/◌, ◌^◌, ◌<◌, ◌≤◌, ◌≡◌, ◌≢◌, refl, ◌⊎◌, inl, inr, List, length,
  get_elem?, get_elem?-some, some, true, false, ◌==◌, ltb, if◌then◌else◌, Run, done, fail, no_fuel,
  Returns, ◌>>=◌, ℤ, pos, ltb_ℤ, ◌+ℤ◌, ◌-ℤ◌, to_size, midpoint, midpoint_lem, at_int, before_pos,
  dec_lt, Returns-map,
}
use index_zoo.Static.Entry.{KeyOffsetPair, IsSorted, IsSorted-le}

-- Which way the search goes from a pair.
pub data Turn : Type 0 where
  found go_right go_left : Turn

-- `if (key == key_lookup) ... if (key > key_lookup) ... else ...`
abbrev pub turn : ℕ → ℕ → Turn
turn key key_lookup =
    if key == key_lookup then found else if ltb key_lookup key then go_right else go_left

-- `find_internal(key, offset_begin, offset_end)`, both ends included.
unfoldable pub find_internal : ℕ → List KeyOffsetPair → ℕ → ℤ → ℤ → Run ℕ
find_internal zero c key offset_begin offset_end = fail no_fuel
find_internal (suc fuel) c key offset_begin offset_end = elim (ltb_ℤ offset_end offset_begin) [
  | true ↦ done (length c)
  | false ↦ midpoint offset_begin offset_end >>= λ offset_lookup. at_int c offset_lookup >>= λ x.
      elim (turn key x.key) [
        | found ↦ done (to_size offset_lookup)
        | go_right ↦ find_internal fuel c key (offset_lookup +ℤ pos 1) offset_end
        | go_left ↦ find_internal fuel c key offset_begin (offset_lookup -ℤ pos 1)
      ]
]

-- Index `r`, from `b` on and below `e`, holds the key.
pub record Hit (c : List KeyOffsetPair) (key b e r : ℕ) : Type 0 where
  pub pair : KeyOffsetPair
  pub at_r : get_elem? c r ≡ some pair
  pub same_key : pair.key ≡ key
  pub from : b ≤ r
  pub below : r < e

-- No index from `b` on and below `e` holds the key.
abbrev pub Absent : List KeyOffsetPair → ℕ → ℕ → ℕ → Type 0
Absent c key b e =
    (i : ℕ) (x : KeyOffsetPair) → b ≤ i → i < e → get_elem? c i ≡ some x → x.key ≢ key

-- The answer of a search between `b` and `e`.
abbrev pub Located : List KeyOffsetPair → ℕ → ℕ → ℕ → ℕ → Type 0
Located c key b e r = Hit c key b e r ⊎ ((r ≡ length c) × Absent c key b e)

-- No index up to the end is read outside the array: the end lies in it, or it is the index behind
-- the last pair, whose key is not below `key`.
abbrev pub InReach : List KeyOffsetPair → ℕ → ℕ → ℕ → Type 0
InReach c key b e =
    (e ≤ length c)
    ⊎ ((e ≡ length c + 1)
        × ((last : KeyOffsetPair) × (get_elem? c (length c - 1) ≡ some last)
            × (key ≤ last.key)
            × (b < length c)))

module _ (c : List KeyOffsetPair) (key : ℕ) where
  module _ (fuel b e : ℕ) (order : b ≤ e) (small : b + e < 2 ^ 31) (x : KeyOffsetPair)
      (at_mid : get_elem? c ((b + e) / 2) ≡ some x) where
    step_found : x.key ≡ key → find_internal (suc fuel) c key (pos b) (pos e) ≡ done ((b + e) / 2)
    unfolding find_internal
    step_found h = ground (arith, midpoint_lem b e)

    step_right :
        x.key < key
        → find_internal (suc fuel) c key (pos b) (pos e)
          ≡ find_internal fuel c key (pos ((b + e) / 2 + 1)) (pos e)
    unfolding find_internal
    step_right h = ground (arith, midpoint_lem b e)

    step_left :
        key < x.key
        → find_internal (suc fuel) c key (pos b) (pos e)
          ≡ find_internal fuel c key (pos b) (before_pos ((b + e) / 2))
    unfolding find_internal
    step_left h = ground (arith, midpoint_lem b e)

  -- An empty range has no index.
  step_empty :
      (fuel b e : ℕ)
      → e ≤ b
      → find_internal (suc fuel) c key (pos b) (before_pos e) ≡ done (length c)
  unfolding find_internal
  step_empty fuel b zero h = ground arith
  step_empty fuel b (suc e) h = ground arith

  module _ (sorted : IsSorted c) where
    right_half :
        (b m e r : ℕ) (x : KeyOffsetPair)
        → get_elem? c m ≡ some x
        → x.key < key
        → b ≤ m
        → Located c key (m + 1) e r
        → Located c key b e r
    right_half b m e r x at_m less inside (inl h) = inl (record {
      pair = h.pair;
      at_r = h.at_r;
      same_key = h.same_key;
      from = omega (arith, h.from);
      below = h.below;
    })
    right_half b m e r x at_m less inside (inr (none, absent)) = inr (
      none,
      λ i y lo hi at_i. elim (dec_lt m i) [
        | yes above ↦ absent i y (omega arith) hi at_i
        | no below ↦ λ eq. omega (arith, IsSorted-le c i m y x sorted (omega arith) at_i at_m)
      ],
    )

    left_half :
        (b m e r : ℕ) (x : KeyOffsetPair)
        → get_elem? c m ≡ some x
        → key < x.key
        → m < e
        → Located c key b m r
        → Located c key b e r
    left_half b m e r x at_m more inside (inl h) = inl (record {
      pair = h.pair;
      at_r = h.at_r;
      same_key = h.same_key;
      from = h.from;
      below = omega (arith, h.below);
    })
    left_half b m e r x at_m more inside (inr (none, absent)) = inr (
      none,
      λ i y lo hi at_i. elim (dec_lt i m) [
        | yes below ↦ absent i y lo below at_i
        | no above ↦ λ eq. omega (arith, IsSorted-le c m i x y sorted (omega arith) at_m at_i)
      ],
    )

    -- The middle of a range in reach is an index of the array.
    middle_inside : (b e : ℕ) → b ≤ e → InReach c key b (suc e) → (b + e) / 2 < length c
    middle_inside b e order (inl inside) = omega arith
    middle_inside b e order (inr (over, p)) = omega (arith, p.3)

    reach_right :
        (b e : ℕ) (x : KeyOffsetPair)
        → b ≤ e
        → get_elem? c ((b + e) / 2) ≡ some x
        → x.key < key
        → InReach c key b (suc e)
        → InReach c key ((b + e) / 2 + 1) (suc e)
    reach_right b e x order at_mid less (inl inside) = inl inside
    reach_right b e x order at_mid less (inr (over, p)) = inr (over, (p.0, p.1, p.2, still))
      where
        still : (b + e) / 2 + 1 < length c
        still = elim (dec_lt ((b + e) / 2 + 1) (length c)) [
          | yes h ↦ h
          | no h ↦ absurd (
              omega (
                arith,
                p.2,
                p.3,
                IsSorted-le c (length c - 1) ((b + e) / 2) p.0 x sorted (omega arith) p.1 at_mid,
              ))
        ]

    sum_small :
        (b e : ℕ) → b ≤ length c → length c ≤ 2 ^ 30 - 1 → InReach c key b (suc e) → b + e < 2 ^ 31
    sum_small b e from small (inl inside) = omega arith
    sum_small b e from small (inr p) = omega (arith, p.0)

    -- On a sorted array of fewer than 2^30 pairs a search of a range in reach ends within as many
    -- calls as the range has indices and one more, reads inside the array only, and returns an
    -- index of the range that holds the key, or the length of the array if none does.
    pub find_internal-Located :
        (fuel b e : ℕ)
        → 0 < fuel
        → e < b + fuel
        → b ≤ length c
        → InReach c key b e
        → length c ≤ 2 ^ 30 - 1
        → Returns (find_internal fuel c key (pos b) (before_pos e)) (Located c key b e)
    find_internal-Located zero b e some_fuel enough from reach small = elim some_fuel [ ]
    find_internal-Located (suc fuel) b zero some_fuel enough from reach small =
        rw (step_empty fuel b zero (omega arith)) (inr (refl, λ i x lo hi. absurd (omega arith)))
    find_internal-Located (suc fuel) b (suc e) some_fuel enough from reach small =
        elim (dec_lt e b) [
          | yes empty ↦
              rw (step_empty fuel b (suc e) (omega arith))
                (inr (refl, λ i x lo hi. absurd (omega arith)))
          | no more ↦
              let order : b ≤ e = omega arith in
              let inside = middle_inside b e order reach in
              let (x, at_mid) = get_elem?-some c ((b + e) / 2) inside in
              let sum : b + e < 2 ^ 31 = sum_small b e from small reach in
              elim (dec_lt x.key key) [
                | yes less ↦ rw (step_right fuel b e order sum x at_mid less) (
                    Returns-map (find_internal fuel c key (pos ((b + e) / 2 + 1)) (pos e))
                      (λ r. right_half b ((b + e) / 2) (suc e) r x at_mid less (omega arith))
                      (find_internal-Located fuel ((b + e) / 2 + 1) (suc e) (omega arith)
                        (omega arith) (omega (arith, inside))
                        (reach_right b e x order at_mid less reach) small))
                | no not_less ↦ elim (dec_lt key x.key) [
                  | yes over ↦ rw (step_left fuel b e order sum x at_mid over) (
                      Returns-map (find_internal fuel c key (pos b) (before_pos ((b + e) / 2)))
                        (λ r. left_half b ((b + e) / 2) (suc e) r x at_mid over (omega arith))
                        (find_internal-Located fuel b ((b + e) / 2) (omega arith) (omega arith) from
                          (inl (omega (arith, inside))) small))
                  | no not_over ↦ rw (step_found fuel b e order sum x at_mid (omega arith)) (
                      inl (record {
                        pair = x;
                        at_r = at_mid;
                        same_key = omega arith;
                        from = omega arith;
                        below = omega arith;
                      }))
                ]
              ]
        ]
