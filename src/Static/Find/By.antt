-- ===== src/Static/Find/By.antt =====
-- `find` as a whole, over whatever `find_inner_layers` returns.
use mathlib.Core.List.{append-nil, append_assoc}
use mathlib.Core.List.Perm
use index_zoo.Base.{
  arith, ℕ, ◌+◌, ◌-◌, ◌^◌, ◌<◌, ◌≤◌, ◌≡◌, ◌≢◌, sym, ap, ◌∙◌, ◌⊎◌, inl, inr, List, [], ◌∷◌, ◌++◌,
  length, get_elem?, get_elem?-lt, some, false, ◌==◌, Run, done, fail, Returns, ◌>>=◌, ℤ, pos,
  before_pos, Perm, ℕ_discrete, dec_lt,
}
use index_zoo.Static.Entry.{
  KeyOffsetPair, IsSorted, matching, offsets_of, IsBounds, key_in_bounds, select-AllAt,
}
use index_zoo.Static.Entry.Absent.{AllAt-intro}
use index_zoo.Static.Search.{InReach, Absent}
use index_zoo.Static.Find.{find_by, find_in_range, push_all}
use index_zoo.Static.Find.Range.{
  Narrows, find_in_range-present, find_in_range-Absent, find_in_range-single,
}

pub push_all_lem : (c : List KeyOffsetPair) (out : List ℕ) → push_all c out ≡ out ++ offsets_of c
unfolding push_all
push_all_lem [] out = sym (append-nil out)
push_all_lem (x ∷ c) out =
    push_all_lem c (out ++ x.offset ∷ []) ∙ append_assoc out (x.offset ∷ []) (offsets_of c)

module _ (c : List KeyOffsetPair) (key_min key_max : ℕ) (inner : ℕ → Run (ℤ × ℤ)) (key : ℕ)
    (out : List ℕ) (sorted : IsSorted c) (bounds : IsBounds c key_min key_max)
    (small : length c ≤ 2 ^ 30 - 1) where
  used : (length c == 0) ≡ false
  used = ground (arith, get_elem?-lt c 0 bounds.first bounds.at_first)

  searches :
      key_min ≤ key
      → key ≤ key_max
      → key_max ≢ key_min
      → find_by c key_min key_max inner key out
        ≡ (inner key >>= λ range. find_in_range c key range out)
  unfolding find_by
  searches lo hi differ = ground (arith, used)

  all_equal :
      key_min ≡ key
      → key_max ≡ key
      → find_by c key_min key_max inner key out ≡ done (push_all c out)
  unfolding find_by
  all_equal lo hi = ground (arith, used)

  outside : (key < key_min) ⊎ (key_max < key) → find_by c key_min key_max inner key out ≡ done out
  unfolding find_by
  outside h = ground (arith, used)

  one_key : key_max ≡ key_min → key ≢ key_min → find_by c key_min key_max inner key out ≡ done out
  unfolding find_by
  one_key h other = ground (arith, used)

  all_match : key_min ≡ key → key_max ≡ key → matching key c ≡ offsets_of c
  all_match lo hi = ap offsets_of (
      select-AllAt key c (
        AllAt-intro key c (λ i x at_i.
          let (above, below) = key_in_bounds c key_min key_max i x sorted bounds at_i in
          omega arith)))

  -- Whatever the inner layers return, as long as it narrows the search, a key in the array is
  -- found with all its offsets.
  pub find_by-present :
      (i : ℕ) (x : KeyOffsetPair)
      → (key_max ≢ key_min → Returns (inner key) (Narrows c key))
      → get_elem? c i ≡ some x
      → x.key ≡ key
      → Returns (find_by c key_min key_max inner key out) (λ r. Perm r (out ++ matching key c))
  find_by-present i x narrows at_i same =
      let (lo, hi) = key_in_bounds c key_min key_max i x sorted bounds at_i in
      elim (ℕ_discrete key_max key_min) [
        | yes equal ↦
            rw
              (
                all_equal (omega arith) (omega arith),
                all_match (omega arith) (omega arith),
                push_all_lem c out,
              )
              (Perm.refl (out ++ offsets_of c))
        | no differ ↦
            rw (searches (omega arith) (omega arith) differ) (go (inner key) (narrows differ))
      ]
    where
      go :
          (run : Run (ℤ × ℤ))
          → Returns run (Narrows c key)
          → Returns
              (run >>= λ range. find_in_range c key range out)
              (λ r. Perm r (out ++ matching key c))
      go (done range) h = find_in_range-present c key out sorted small range i x h at_i same
      go (fail f) h = h

  -- A key that is not in the array, where the inner layers return a range of none or several
  -- indices.
  pub find_by-Absent :
      (b e : ℕ)
      → (key_min ≤ key
          → key ≤ key_max
          → key_max ≢ key_min
          → (inner key ≡ done (pos b, before_pos e)) × (b ≤ length c) × InReach c key b e)
      → e ≢ b + 1
      → Absent c key 0 (length c)
      → find_by c key_min key_max inner key out ≡ done out
  find_by-Absent b e range several none = elim (dec_lt key key_min) [
    | yes low ↦ outside (inl low)
    | no not_low ↦ elim (dec_lt key_max key) [
      | yes high ↦ outside (inr high)
      | no not_high ↦ elim (ℕ_discrete key_max key_min) [
        | yes equal ↦ one_key equal not_first
        | no differ ↦
            let (eq, from, reach) = range (omega arith) (omega arith) differ in
            rw (searches (omega arith) (omega arith) differ, eq)
              (find_in_range-Absent c key out sorted small b e several from reach none)
      ]
    ]
  ]
    where
      not_first : key ≢ key_min
      not_first h =
          none 0 bounds.first (omega arith) (get_elem?-lt c 0 bounds.first bounds.at_first)
            bounds.at_first (omega (arith, bounds.min_is))

  -- A key between the bounds that is not in the array, where the inner layers return one index.
  pub find_by-single :
      (b : ℕ) (x : KeyOffsetPair)
      → key_min < key
      → key < key_max
      → inner key ≡ done (pos b, pos b)
      → get_elem? c b ≡ some x
      → Absent c key 0 (length c)
      → find_by c key_min key_max inner key out ≡ done (out ++ x.offset ∷ [])
  find_by-single b x lo hi eq at_b none =
      rw (searches (omega arith) (omega arith) (omega arith), eq)
        (find_in_range-single c key out sorted small b x at_b none)
