-- ===== src/Static/Interpolation/Search.antt =====
-- The search from a guess (src/static_index/interpolation_index.h), wherever the guess is.
use mathlib.Core.List.Perm
use mathlib.Core.List.{append_assoc, append-nil}
use native.Mathlib.Numerals.{add-one}
use index_zoo.Base.{
  arith, ℕ, zero, suc, ◌+◌, ◌-◌, ◌<◌, ◌≤◌, ◌≡◌, ◌≢◌, refl, sym, ap, ◌∙◌, List, [], ◌∷◌, ◌++◌,
  length, get_elem?, get_elem?-some, get_elem?-lt, some, true, false, ◌==◌, take, drop, take_while,
  take-append-drop, drop-eq-cons, drop-length, done, Returns, ◌>>=◌, select, select-append, Perm,
  Bool-cases, inl, inr, dec_lt, if◌then◌else◌, take-suc,
}
use index_zoo.Static.Entry.{
  KeyOffsetPair, IsSorted, has_key, matching, offsets_of, select-above, drop-AllFrom, take-AllUpTo,
}
use index_zoo.Static.Scan.{select-below}
use index_zoo.Static.Walk.{walk_left, walk_left_lem}
use index_zoo.Static.Collect.{around-perm}
use index_zoo.Static.Interpolation.{match_right, seek_right, find_from}
use index_zoo.Static.Interpolation.Left.{find_from_above}

module _ (c : List KeyOffsetPair) (key : ℕ) where
  match_hit :
      (left i : ℕ) (x : KeyOffsetPair) (out : List ℕ)
      → get_elem? c i ≡ some x
      → (x.key == key) ≡ true
      → match_right (suc left) c key i out ≡ match_right left c key (i + 1) (out ++ x.offset ∷ [])
  unfolding match_right
  match_hit left i x out e hit = ground arith

  match_miss :
      (left i : ℕ) (x : KeyOffsetPair) (out : List ℕ)
      → get_elem? c i ≡ some x
      → (x.key == key) ≡ false
      → match_right (suc left) c key i out ≡ done out
  unfolding match_right
  match_miss left i x out e miss = ground arith

  match_end : (i : ℕ) (out : List ℕ) → match_right 0 c key i out ≡ done out
  unfolding match_right
  match_end i out = refl

  match_right_lem :
      (left i : ℕ) (out : List ℕ)
      → i + left ≡ length c
      → match_right left c key i out
        ≡ done (out ++ offsets_of (take_while (has_key key) (drop i c)))
  match_right_lem zero i out h = rw (drop-length c i (omega arith), append-nil) (match_end i out)
  match_right_lem (suc left) i out h =
      let (x, e) = get_elem?-some c i (omega arith) in
      rw (drop-eq-cons c i x e) (elim (Bool-cases (x.key == key)) [
        | inl hit ↦ rw hit (
            match_hit left i x out e hit
            ∙ match_right_lem left (i + 1) (out ++ x.offset ∷ []) (omega arith)
            ∙ ap done (
                append_assoc out (x.offset ∷ []) _
                ∙ ap (λ j. out ++ x.offset ∷ offsets_of (take_while (has_key key) (drop j c)))
                    (add-one i)))
        | inr miss ↦ rw (miss, append-nil) (match_miss left i x out e miss)
      ])

  seek_over :
      (left i : ℕ) (x : KeyOffsetPair) (out : List ℕ)
      → get_elem? c i ≡ some x
      → key < x.key
      → seek_right (suc left) c key i out ≡ done out
  unfolding seek_right
  seek_over left i x out e over = ground arith

  seek_on :
      (left i : ℕ) (x : KeyOffsetPair) (out : List ℕ)
      → get_elem? c i ≡ some x
      → x.key ≤ key
      → seek_right (suc left) c key i out
        ≡ seek_right left c key (i + 1) (if x.key == key then out ++ x.offset ∷ [] else out)
  unfolding seek_right
  seek_on left i x out e not_over = ground arith

  seek_end : (i : ℕ) (out : List ℕ) → seek_right 0 c key i out ≡ done out
  unfolding seek_right
  seek_end i out = refl

  module _ (sorted : IsSorted c) (last : KeyOffsetPair)
      (at_last : get_elem? c (length c - 1) ≡ some last) (below_last : key < last.key) where
    -- The loop leaves the last pair out, which does not hold the key.
    seek_right_lem :
        (left i : ℕ) (out : List ℕ)
        → i + left + 1 ≡ length c
        → seek_right left c key i out ≡ done (out ++ matching key (drop i c))
    seek_right_lem zero i out h =
        let here : i ≡ length c - 1 = omega arith in
        let only : drop i c ≡ last ∷ drop (suc i) c = drop-eq-cons c i last (rw here at_last) in
        rw (only, drop-length c (suc i) (omega arith))
          (seek_end i out ∙ ap done (ground (arith, append-nil out)))
    seek_right_lem (suc left) i out h =
        let (x, e) = get_elem?-some c i (omega arith) in
        elim (dec_lt key x.key) [
          | yes over ↦
              rw
                (
                  drop-eq-cons c i x e,
                  select-above key x.key (x ∷ drop (suc i) c) over
                      (omega arith, drop-AllFrom i c x sorted e),
                  append-nil,
                )
                (seek_over left i x out e over)
          | no not_over ↦ rw (drop-eq-cons c i x e) (
              seek_on left i x out e (omega arith)
              ∙ seek_right_lem left (i + 1) (if x.key == key then out ++ x.offset ∷ [] else out)
                  (omega arith)
              ∙ ap done (
                  ap
                    (λ j.
                      (if x.key == key then out ++ x.offset ∷ [] else out)
                      ++ matching key (drop j c))
                    (add-one i)
                  ∙ pushed x out (drop (suc i) c)))
        ]
      where
        pushed :
            (y : KeyOffsetPair) (o : List ℕ) (d : List KeyOffsetPair)
            → (if y.key == key then o ++ y.offset ∷ [] else o) ++ matching key d
              ≡ o ++ matching key (y ∷ d)
        pushed y o d = elim (Bool-cases (y.key == key)) [
          | inl hit ↦ rw hit (append_assoc o (y.offset ∷ []) (matching key d))
          | inr miss ↦ rw miss refl
        ]

module _ (c : List KeyOffsetPair) (key guess : ℕ) (x : KeyOffsetPair) (sorted : IsSorted c)
    (at_guess : get_elem? c guess ≡ some x) (out : List ℕ) where
  inside : guess < length c
  inside = get_elem?-lt c guess x at_guess

  step_equal :
      x.key ≡ key
      → find_from c key guess out ≡ (
          walk_left c key guess (out ++ x.offset ∷ []) >>= λ left.
          match_right (length c - (guess + 1)) c key (guess + 1) left)
  unfolding find_from
  step_equal same = ground arith

  step_below :
      x.key < key
      → find_from c key guess out ≡ seek_right (length c - 1 - (guess + 1)) c key (guess + 1) out
  unfolding find_from
  step_below below = ground arith

  find_from_equal :
      x.key ≡ key → Returns (find_from c key guess out) (λ r. Perm r (out ++ matching key c))
  find_from_equal same =
      rw
        (
          step_equal same,
          walk_left_lem c key guess (out ++ x.offset ∷ []) (omega (arith, inside)),
          match_right_lem c key (length c - (guess + 1)) (guess + 1) _ (omega (arith, inside)),
          add-one guess,
        )
        (around-perm c key guess x sorted at_guess same out)

  all_right : x.key < key → matching key (drop (guess + 1) c) ≡ matching key c
  all_right below = rw (add-one guess) (
      ap offsets_of (
        ap (λ l. l ++ select (has_key key) (drop (suc guess) c)) (sym nothing_left)
        ∙ sym (select-append (has_key key) (take (suc guess) c) (drop (suc guess) c))
        ∙ ap (select (has_key key)) (take-append-drop (suc guess) c)))
    where
      nothing_left : select (has_key key) (take (suc guess) c) ≡ []
      nothing_left =
          rw
            (
              take-suc c guess x at_guess,
              select-append (has_key key) (take guess c) (x ∷ []),
              select-below key x.key (take guess c) below (take-AllUpTo guess c x sorted at_guess),
            )
            (ground (arith, below))

  -- On a sorted array the search from any guess inside the array ends normally and adds the offsets
  -- of exactly the pairs with the key, each once, if the guess does not fall short of the last key:
  -- a guess below the key is made for a key below the last one only.
  pub find_from-matching :
      (last : KeyOffsetPair)
      → get_elem? c (length c - 1) ≡ some last
      → (x.key < key → key < last.key)
      → Returns (find_from c key guess out) (λ r. Perm r (out ++ matching key c))
  find_from-matching last at_last reaches = elim (dec_lt x.key key) [
    | yes below ↦
        let not_end : guess ≢ length c - 1 = not_last last at_last (reaches below) below in
        rw
          (
            step_below below,
            seek_right_lem c key sorted last at_last (reaches below) (length c - 1 - (guess + 1))
                (guess + 1) out (omega (arith, inside)),
            all_right below,
          )
          (Perm.refl (out ++ matching key c))
    | no not_below ↦ elim (dec_lt key x.key) [
      | yes above ↦ find_from_above c key sorted guess x at_guess above out
      | no not_above ↦ find_from_equal (omega arith)
    ]
  ]
    where
      not_last :
          (y : KeyOffsetPair)
          → get_elem? c (length c - 1) ≡ some y
          → key < y.key
          → x.key < key
          → guess ≢ length c - 1
      not_last y at_y more less here =
          let same : x ≡ y = cc (at_y, at_guess, here) in
          let keys : x.key ≡ y.key = ap (λ u. u.key) same in absurd (omega arith)
