-- ===== src/Static/Interpolation/Left.antt =====
-- The search to the left from a guess above the key (src/static_index/interpolation_index.h).
use mathlib.Core.List.Perm
use mathlib.Core.List.{reverse_perm, append-nil}
use index_zoo.Base.{
  arith, ℕ, zero, suc, ◌<◌, ◌≤◌, ◌≡◌, refl, sym, ap, ◌∙◌, List, [], ◌∷◌, ◌++◌, length, get_elem?,
  get_elem?-some, get_elem?-lt, some, take, drop, take-append-drop, drop-eq-cons, Returns, select,
  select-append, Perm,
}
use index_zoo.Static.Entry.{
  KeyOffsetPair, IsSorted, has_key, matching, offsets_of, select-above, drop-AllFrom,
}
use index_zoo.Static.Scan.{scan_down, scan_down_lem}
use index_zoo.Static.Interpolation.{seek_left, find_from}

module _ (c : List KeyOffsetPair) (key : ℕ) where
  seek_step :
      (n : ℕ) (x : KeyOffsetPair) (out : List ℕ)
      → get_elem? c n ≡ some x
      → seek_left c key n out ≡ scan_down c key n out
      → seek_left c key n (out ++ x.offset ∷ []) ≡ scan_down c key n (out ++ x.offset ∷ [])
      → seek_left c key (suc n) out ≡ scan_down c key (suc n) out
  unfolding seek_left scan_down
  seek_step n x out e same same_pushed = ground arith

  seek_end : (out : List ℕ) → seek_left c key 0 out ≡ scan_down c key 0 out
  unfolding seek_left scan_down
  seek_end out = refl

  -- The loop is that of `scan_reverse`, from another start.
  seek_left-scan_down :
      (n : ℕ) (out : List ℕ) → n ≤ length c → seek_left c key n out ≡ scan_down c key n out
  seek_left-scan_down zero out h = seek_end out
  seek_left-scan_down (suc n) out h =
      let (x, e) = get_elem?-some c n h in
      seek_step n x out e (seek_left-scan_down n out (omega arith))
        (seek_left-scan_down n (out ++ x.offset ∷ []) (omega arith))

  module _ (sorted : IsSorted c) (guess : ℕ) (x : KeyOffsetPair)
      (at_guess : get_elem? c guess ≡ some x) (above : key < x.key) where
    step : (out : List ℕ) → find_from c key guess out ≡ seek_left c key guess out
    unfolding find_from
    step out = ground arith

    nothing_right : select (has_key key) (drop guess c) ≡ []
    nothing_right = rw (drop-eq-cons c guess x at_guess) (
        select-above key x.key (x ∷ drop (suc guess) c) above
          (omega arith, drop-AllFrom guess c x sorted at_guess))

    all_left : matching key (take guess c) ≡ matching key c
    all_left = ap offsets_of (
        sym (append-nil (select (has_key key) (take guess c)))
        ∙ ap (λ l. select (has_key key) (take guess c) ++ l) (sym nothing_right)
        ∙ sym (select-append (has_key key) (take guess c) (drop guess c))
        ∙ ap (select (has_key key)) (take-append-drop guess c))

    -- On a sorted array, from a guess at a pair whose key is above the one looked up, the search
    -- goes to the left, ends normally, and adds the offsets of all pairs with the key, each once;
    -- none if there is none. How the guess was made does not matter.
    pub find_from_above :
        (out : List ℕ) → Returns (find_from c key guess out) (λ r. Perm r (out ++ matching key c))
    find_from_above out =
        rw
          (
            step out,
            seek_left-scan_down guess out (omega (arith, get_elem?-lt c guess x at_guess)),
            scan_down_lem c key sorted guess out (omega (arith, get_elem?-lt c guess x at_guess)),
            all_left,
          )
          (Perm.append_left out (reverse_perm (matching key c)))
