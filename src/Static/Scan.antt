-- ===== src/Static/Scan.antt =====
-- The scans that all static indexes share (src/base_static_index.h).
use mathlib.Core.List.{reverse-append, append_assoc, append-nil}
use index_zoo.Base.{
  arith, ℕ, zero, suc, ◌+◌, ◌-◌, ◌%◌, ◌^◌, ◌<◌, ◌≤◌, ◌≡◌, refl, sym, ap, ◌∙◌, List, [], ◌∷◌, ◌++◌,
  reverse, length, get_elem?, get_elem?-some, some, false, ◌==◌, ltb, if◌then◌else◌, take, take-suc,
  take-append-drop, drop, drop-length, drop-eq-cons, Run, done, at, ◌>>=◌, to_int, rounds_down,
  rounds_down_lem, Bool-cases, inl, inr, select, select-append,
}
use native.Mathlib.Numerals.{add-one}
use index_zoo.Table.Offset.{word}
use index_zoo.Static.Entry.{
  KeyOffsetPair, IsSorted, has_key, offsets_of, matching, select-above, offsets_of-append,
  take-AllUpTo, AllUpTo,
}

-- `scan(key, offsets)`, from the first pair on. A pair behind a larger key is not looked at.
unfoldable pub scan : List KeyOffsetPair → ℕ → List ℕ → List ℕ
scan [] key offsets = offsets
scan (x ∷ c) key offsets =
    let pushed = if x.key == key then offsets ++ x.offset ∷ [] else offsets in
    let rest = scan c key pushed in if ltb key x.key then pushed else rest

-- The loop of `scan_reverse(key, offsets)`; the argument is `i + 1`, the rounds that are left.
unfoldable pub scan_down : List KeyOffsetPair → ℕ → ℕ → List ℕ → Run (List ℕ)
scan_down c key zero offsets = done offsets
scan_down c key (suc i) offsets = at c i >>= λ x.
    let pushed = if x.key == key then offsets ++ x.offset ∷ [] else offsets in
    let rest = scan_down c key i pushed in if ltb x.key key then done pushed else rest

unfoldable pub scan_reverse : List KeyOffsetPair → ℕ → List ℕ → Run (List ℕ)
scan_reverse c key offsets =
    scan_down c key (rounds_down (to_int ((length c + word - 1) % word))) offsets

-- `for (i = 0; i < bound; ++i)` of `scan_full`; the argument is `bound - i`.
unfoldable pub scan_count : List KeyOffsetPair → ℕ → ℕ → List ℕ → Run (List ℕ)
scan_count c i zero offsets = done offsets
scan_count c i (suc left) offsets =
    at c i >>= λ x. scan_count c (i + 1) left (offsets ++ x.offset ∷ [])

-- `std::min(count, this->size_)`
abbrev pub bound_of : ℕ → ℕ → ℕ
bound_of count size = if ltb size count then size else count

-- `scan_full(offsets, count)`
unfoldable pub scan_full : List KeyOffsetPair → ℕ → List ℕ → Run (List ℕ)
scan_full c count offsets = scan_count c 0 (bound_of count (length c)) offsets

-- On a sorted array `scan` adds the offsets of all pairs with the key, in the order of the array,
-- although it stops at the first larger key.
pub scan-matching :
    (c : List KeyOffsetPair) (key : ℕ) (out : List ℕ)
    → IsSorted c
    → scan c key out ≡ out ++ matching key c
unfolding scan
scan-matching [] key out s = sym (append-nil out)
scan-matching (x ∷ c) key out s = ground (
  arith,
  scan-matching c key out s.1,
  scan-matching c key (out ++ x.offset ∷ []) s.1,
  select-above key x.key c,
  s.0,
  append-nil out,
  append_assoc out (x.offset ∷ []) (matching key c),
)

pub select-below :
    (k j : ℕ) (c : List KeyOffsetPair) → j < k → AllUpTo j c → select (has_key k) c ≡ []
select-below k j [] h a = refl
select-below k j (x ∷ c) h a = ground (arith, select-below k j c h)

-- The last pair of an array comes first in the reverse.
matching-last :
    (key : ℕ) (c : List KeyOffsetPair) (x : KeyOffsetPair)
    → reverse (matching key (c ++ x ∷ []))
      ≡ (if x.key == key then x.offset ∷ [] else []) ++ reverse (matching key c)
matching-last key c x =
    rw (select-append (has_key key) c (x ∷ []), offsets_of-append (select (has_key key) c))
      (elim (Bool-cases (x.key == key)) [
        | inl hit ↦ rw hit (reverse-append (matching key c) (x.offset ∷ []))
        | inr miss ↦ rw (miss, append-nil) refl
      ])

module _ (c : List KeyOffsetPair) (key : ℕ) (sorted : IsSorted c) where
  down_step :
      (n : ℕ) (x : KeyOffsetPair) (out : List ℕ)
      → get_elem? c n ≡ some x
      → scan_down c key (suc n) out ≡ (
          if ltb x.key key
          then done (if x.key == key then out ++ x.offset ∷ [] else out)
          else scan_down c key n (if x.key == key then out ++ x.offset ∷ [] else out))
  unfolding scan_down
  down_step n x out e = rw e refl

  down_end : (out : List ℕ) → scan_down c key 0 out ≡ done out
  unfolding scan_down
  down_end out = refl

  pub scan_down_lem :
      (n : ℕ) (out : List ℕ)
      → n ≤ length c
      → scan_down c key n out ≡ done (out ++ reverse (matching key (take n c)))
  scan_down_lem zero out h = rw append-nil (down_end out)
  scan_down_lem (suc n) out h =
      let (x, e) = get_elem?-some c n h in
      rw (take-suc c n x e, matching-last key (take n c) x, down_step n x out e)
        (elim (Bool-cases (ltb x.key key)) [
          | inl less ↦
              let nothing : select (has_key key) (take n c) ≡ [] =
                select-below key x.key (take n c) (ground arith) (take-AllUpTo n c x sorted e) in
              let miss : (x.key == key) ≡ false = ground arith in
              rw (less, miss, nothing, append-nil) refl
          | inr more ↦ rw more (elim (Bool-cases (x.key == key)) [
            | inl hit ↦ rw hit (
                scan_down_lem n (out ++ x.offset ∷ []) (omega arith)
                ∙ ap done (append_assoc out (x.offset ∷ []) _))
            | inr miss ↦ rw miss (scan_down_lem n out (omega arith))
          ])
        ])

  -- On a sorted array of fewer than 2^31 pairs `scan_reverse` reads inside the array only and adds
  -- the offsets of all pairs with the key in the opposite order, although it stops at the first
  -- smaller key.
  pub scan_reverse-matching :
      (out : List ℕ)
      → length c < 2 ^ 31
      → scan_reverse c key out ≡ done (out ++ reverse (matching key c))
  unfolding scan_reverse
  scan_reverse-matching out small = rw (rounds_down_lem (length c) small) (
      scan_down_lem (length c) out (omega arith)
      ∙ ap (λ d. done (out ++ reverse (matching key d))) whole)
    where
      whole : take (length c) c ≡ c
      whole =
          sym (append-nil _)
          ∙ ap (λ d. take (length c) c ++ d) (sym (drop-length c (length c) (omega arith)))
          ∙ take-append-drop (length c) c

pub scan_count_lem :
    (c : List KeyOffsetPair) (left i : ℕ) (out : List ℕ)
    → i + left ≤ length c
    → scan_count c i left out ≡ done (out ++ take left (offsets_of (drop i c)))
unfolding scan_count
scan_count_lem c zero i out h = ap done (sym (append-nil out))
scan_count_lem c (suc left) i out h =
    let (x, e) = get_elem?-some c i (omega arith) in
    rw (e, drop-eq-cons c i x e)
      (scan_count_lem c left (i + 1) (out ++ x.offset ∷ []) (omega arith)
        ∙ ap done (
            append_assoc out (x.offset ∷ []) _
            ∙ ap (λ j. out ++ x.offset ∷ take left (offsets_of (drop j c))) (add-one i)))

-- `scan_full` reads inside the array only and adds the offsets of the first `count` pairs, or of
-- all pairs if there are fewer.
pub scan_full-take :
    (c : List KeyOffsetPair) (count : ℕ) (out : List ℕ)
    → scan_full c count out ≡ done (out ++ take count (offsets_of c))
unfolding scan_full
scan_full-take c count out =
    scan_count_lem c (bound_of count (length c)) 0 out (ground arith)
    ∙ ap (λ l. done (out ++ l)) (take_bound count c)
  where
    take_bound :
        (n : ℕ) (d : List KeyOffsetPair)
        → take (bound_of n (length d)) (offsets_of d) ≡ take n (offsets_of d)
    take_bound zero d = ground arith
    take_bound (suc n) [] = ground arith
    take_bound (suc n) (x ∷ d) = ground (arith, take_bound n d)
