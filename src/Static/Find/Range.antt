-- ===== src/Static/Find/Range.antt =====
-- What `find` does with the range that the inner layers return.
use index_zoo.Base.{
  arith, ℕ, zero, suc, ◌+◌, ◌-◌, ◌^◌, ◌<◌, ◌≤◌, ◌≡◌, ◌≢◌, refl, ◌∙◌, inl, inr, List, [], ◌∷◌, ◌++◌,
  length, get_elem?, get_elem?-lt, some, false, ◌==◌, if◌then◌else◌, Run, done, fail, Returns, ℤ,
  pos, before_pos, Perm, ℕ_discrete,
}
use index_zoo.Static.Entry.{KeyOffsetPair, IsSorted, matching}
use index_zoo.Static.Entry.Absent.{NoneAt-intro}
use native.Mathlib.Numerals.{add-one}
use index_zoo.Static.Walk.{collect}
use index_zoo.Static.Search.{find_internal, find_internal-Located, InReach, Located, Absent, Hit}
use index_zoo.Static.Collect.{collect-perm, collect-alone}
use index_zoo.Static.Find.{find_in_range}

-- What the inner layers may return for `key`: a pair of equal indices that hold it, or a range
-- outside of which no index holds it.
pub data Narrows (c : List KeyOffsetPair) (key : ℕ) : ℤ × ℤ → Type 0 where
  exact :
      (m : ℕ) (x : KeyOffsetPair)
      → get_elem? c m ≡ some x
      → x.key ≡ key
      → Narrows c key (pos m, pos m)
  within :
      (b e : ℕ)
      → b ≤ length c
      → InReach c key b e
      → ((i : ℕ) (x : KeyOffsetPair) → get_elem? c i ≡ some x → x.key ≡ key → (b ≤ i) × (i < e))
      → Narrows c key (pos b, before_pos e)

module _ (c : List KeyOffsetPair) (key : ℕ) (out : List ℕ) where
  at_one : (m : ℕ) → m < length c → find_in_range c key (pos m, pos m) out ≡ collect c key m out
  unfolding find_in_range
  at_one m h = ground arith

  at_many :
      (b e r : ℕ)
      → e ≢ b + 1
      → find_internal (length c + 2) c key (pos b) (before_pos e) ≡ done r
      → find_in_range c key (pos b, before_pos e) out
        ≡ (if r == length c then done out else collect c key r out)
  unfolding find_in_range
  at_many b zero r h found = ground arith
  at_many b (suc e) r h found = ground arith

  module _ (sorted : IsSorted c) (small : length c ≤ 2 ^ 30 - 1) where
    reach_bound : (b e : ℕ) → InReach c key b e → e ≤ length c + 1
    reach_bound b e (inl inside) = omega arith
    reach_bound b e (inr p) = omega (arith, p.0)

    from_hit :
        (b e r : ℕ)
        → Hit c key b e r
        → Returns
            (if r == length c then done out else collect c key r out)
            (λ res. Perm res (out ++ matching key c))
    from_hit b e r h =
        rw inside (collect-perm c key r h.pair sorted h.at_r h.same_key (omega arith) out)
      where
        inside : (r == length c) ≡ false
        inside = ground (arith, get_elem?-lt c r h.pair h.at_r)

    many_present :
        (b e : ℕ) (i : ℕ) (x : KeyOffsetPair)
        → e ≢ b + 1
        → b ≤ length c
        → InReach c key b e
        → get_elem? c i ≡ some x
        → x.key ≡ key
        → b ≤ i
        → i < e
        → Returns
            (find_in_range c key (pos b, before_pos e) out)
            (λ res. Perm res (out ++ matching key c))
    many_present b e i x several from reach at_i same lo hi =
        go (find_internal (length c + 2) c key (pos b) (before_pos e)) refl (
          find_internal-Located c key sorted (length c + 2) b e (omega arith)
            (omega (arith, reach_bound b e reach)) from reach small)
      where
        go :
            (run : Run ℕ)
            → find_internal (length c + 2) c key (pos b) (before_pos e) ≡ run
            → Returns run (Located c key b e)
            → Returns
                (find_in_range c key (pos b, before_pos e) out)
                (λ res. Perm res (out ++ matching key c))
        go (done r) found (inl h) = rw (at_many b e r several found) (from_hit b e r h)
        go (done r) found (inr (none, absent)) = absurd (absent i x lo hi at_i same)
        go (fail f) found h = absurd h

    one_range : (b e : ℕ) → e ≡ b + 1 → before_pos e ≡ pos b
    one_range b e h = rw h (rw (add-one b) refl)

    -- A key that is in the array: all its offsets are found, each once.
    pub find_in_range-present :
        (range : ℤ × ℤ) (i : ℕ) (x : KeyOffsetPair)
        → Narrows c key range
        → get_elem? c i ≡ some x
        → x.key ≡ key
        → Returns (find_in_range c key range out) (λ res. Perm res (out ++ matching key c))
    find_in_range-present range i x (exact m y at_m same_m) at_i same =
        rw (at_one m (get_elem?-lt c m y at_m))
          (collect-perm c key m y sorted at_m same_m (omega arith) out)
    find_in_range-present range i x (within b e from reach covers) at_i same =
        let (lo, hi) = covers i x at_i same in
        elim (ℕ_discrete e (b + 1)) [
          | yes single ↦
              let here : i ≡ b = omega arith in
              rw (one_range b e single, at_one b (omega (arith, get_elem?-lt c i x at_i)))
                (collect-perm c key b x sorted (rw here at at_i) same (omega arith) out)
          | no several ↦ many_present b e i x several from reach at_i same lo hi
        ]

    -- A key that is not in the array: nothing is found where the range has no index or several.
    pub find_in_range-Absent :
        (b e : ℕ)
        → e ≢ b + 1
        → b ≤ length c
        → InReach c key b e
        → Absent c key 0 (length c)
        → find_in_range c key (pos b, before_pos e) out ≡ done out
    find_in_range-Absent b e several from reach none =
        go (find_internal (length c + 2) c key (pos b) (before_pos e)) refl (
          find_internal-Located c key sorted (length c + 2) b e (omega arith)
            (omega (arith, reach_bound b e reach)) from reach small)
      where
        go :
            (run : Run ℕ)
            → find_internal (length c + 2) c key (pos b) (before_pos e) ≡ run
            → Returns run (Located c key b e)
            → find_in_range c key (pos b, before_pos e) out ≡ done out
        go (done r) found (inl h) =
            absurd (none r h.pair (omega arith) (get_elem?-lt c r h.pair h.at_r) h.at_r h.same_key)
        go (done r) found (inr (end, absent)) = at_many b e r several found ∙ rw end (ground arith)
        go (fail f) found h = absurd h

    -- The code does not look at the key of a range's only index: its offset is returned even if
    -- the key is not in the array.
    pub find_in_range-single :
        (b : ℕ) (x : KeyOffsetPair)
        → get_elem? c b ≡ some x
        → Absent c key 0 (length c)
        → find_in_range c key (pos b, pos b) out ≡ done (out ++ x.offset ∷ [])
    find_in_range-single b x at_b none =
        at_one b (get_elem?-lt c b x at_b)
        ∙ collect-alone c key b x at_b
            (NoneAt-intro key c (λ i y at_i. none i y (omega arith) (get_elem?-lt c i y at_i) at_i))
            (omega arith) out
