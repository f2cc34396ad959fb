-- ===== src/Static/Collect.antt =====
-- From a position that holds the key, the two loops collect the offsets of all pairs with the key.
use mathlib.Core.List.{reverse-append, append_assoc, reverse_perm, perm_middle, append-nil}
use mathlib.Core.List.Perm
use index_zoo.Base.{
  arith, ℕ, suc, ◌+◌, ◌^◌, ◌<◌, ◌≡◌, refl, sym, ap, ◌∙◌, List, [], ◌∷◌, ◌++◌, reverse, length,
  get_elem?, some, take_while, take, drop, select, drop-eq-cons, take-append-drop, select-append,
  done, Returns, Perm, rounds_down_lem, get_elem?-lt,
}
use native.Mathlib.Numerals.{add-one}
use index_zoo.Static.Entry.{
  KeyOffsetPair, IsSorted, has_key, offsets_of, offsets_of-append, matching, select-take_while,
  select-take_while-reverse, IsSorted-take, IsSorted-drop, take-AllUpTo, drop-AllFrom,
}
use index_zoo.Static.Entry.Absent.{
  NoneAt, NoneAt-reverse, NoneAt-take, NoneAt-drop, take_while-none,
}
use index_zoo.Static.Walk.{collect, walk_left_lem, walk_right_lem}

offsets_of-reverse : (c : List KeyOffsetPair) → offsets_of (reverse c) ≡ reverse (offsets_of c)
offsets_of-reverse [] = refl
offsets_of-reverse (x ∷ c) =
    ap offsets_of (reverse-append (x ∷ []) c)
    ∙ offsets_of-append (reverse c) (x ∷ [])
    ∙ ap (λ l. l ++ x.offset ∷ []) (offsets_of-reverse c)
    ∙ sym (reverse-append (x.offset ∷ []) (offsets_of c))

-- The three parts that the loops deliver are the selection in another order.
regroup :
    (out left right : List ℕ) (x : ℕ)
    → Perm (((out ++ x ∷ []) ++ left) ++ right) (out ++ (reverse left ++ x ∷ right))
regroup out left right x =
    rw (append_assoc (out ++ x ∷ []) left right, append_assoc out (x ∷ []) (left ++ right))
      (Perm.append_left out (
        Perm.trans (Perm.cons x (Perm.append_right right (Perm.symm (reverse_perm left))))
          (Perm.symm (perm_middle (reverse left) right))))

module _ (c : List KeyOffsetPair) (key i : ℕ) (x : KeyOffsetPair) (sorted : IsSorted c)
    (at_i : get_elem? c i ≡ some x) (same : x.key ≡ key) where
  left_part : List KeyOffsetPair
  left_part = take_while (has_key key) (reverse (take i c))

  right_part : List KeyOffsetPair
  right_part = take_while (has_key key) (drop (suc i) c)

  inside : i < length c
  inside = get_elem?-lt c i x at_i

  selected : select (has_key key) c ≡ reverse left_part ++ x ∷ right_part
  unfolding left_part right_part
  selected =
      ap (select (has_key key)) (sym (take-append-drop i c))
      ∙ select-append (has_key key) (take i c) (drop i c)
      ∙ rw
          (
            drop-eq-cons c i x at_i,
            sym (
                select-take_while-reverse key (take i c) (IsSorted-take i c sorted)
                  (rw same at (take-AllUpTo i c x sorted at_i))),
            select-take_while key (drop (suc i) c) (IsSorted-drop (suc i) c sorted)
                (rw same at (drop-AllFrom i c x sorted at_i)),
          )
          (ground (arith, same))

  matching_parts :
      matching key c ≡ reverse (offsets_of left_part) ++ x.offset ∷ offsets_of right_part
  matching_parts =
      ap offsets_of selected
      ∙ offsets_of-append (reverse left_part) (x ∷ right_part)
      ∙ ap (λ l. l ++ x.offset ∷ offsets_of right_part) (offsets_of-reverse left_part)

  -- What the two loops add around an index that holds the key.
  pub around-perm :
      (out : List ℕ)
      → Perm
          (((out ++ x.offset ∷ []) ++ offsets_of (take_while (has_key key) (reverse (take i c))))
            ++ offsets_of (take_while (has_key key) (drop (suc i) c)))
          (out ++ matching key c)
  unfolding left_part right_part
  around-perm out =
      rw matching_parts (regroup out (offsets_of left_part) (offsets_of right_part) x.offset)

  module _ (small : length c < 2 ^ 31) where
    collect_lem :
        (out : List ℕ)
        → collect c key i out
          ≡ done (((out ++ x.offset ∷ []) ++ offsets_of left_part) ++ offsets_of right_part)
    unfolding collect left_part right_part
    collect_lem out =
        rw
          (
            at_i,
            rounds_down_lem i (omega (arith, inside)),
            walk_left_lem c key i (out ++ x.offset ∷ []) (omega (arith, inside)),
            walk_right_lem c key small (length c + 1) (i + 1) _ (omega arith)
                (omega (arith, inside)) (omega (arith, inside)),
            add-one i,
          )
          refl

    -- In a sorted array of fewer than 2^31 pairs the two loops, begun at an index that holds the key,
    -- add the offsets of exactly the pairs with the key, each once.
    pub collect-perm :
        (out : List ℕ) → Returns (collect c key i out) (λ r. Perm r (out ++ matching key c))
    unfolding left_part right_part
    collect-perm out = rw (collect_lem out) (around-perm out)

-- From an index that does not hold the key, in an array where no pair holds it, the loops still
-- deliver the offset of that index.
module _ (c : List KeyOffsetPair) (key i : ℕ) (x : KeyOffsetPair) (at_i : get_elem? c i ≡ some x)
    (none : NoneAt key c) (small : length c < 2 ^ 31) where
  here : i < length c
  here = get_elem?-lt c i x at_i

  pub collect-alone : (out : List ℕ) → collect c key i out ≡ done (out ++ x.offset ∷ [])
  unfolding collect
  collect-alone out =
      rw
        (
          at_i,
          rounds_down_lem i (omega (arith, here)),
          walk_left_lem c key i (out ++ x.offset ∷ []) (omega (arith, here)),
          walk_right_lem c key small (length c + 1) (i + 1) _ (omega arith) (omega (arith, here))
              (omega (arith, here)),
          take_while-none key (reverse (take i c))
              (NoneAt-reverse key (take i c) (NoneAt-take key i c none)),
          take_while-none key (drop (i + 1) c) (NoneAt-drop key (i + 1) c none),
        )
        (rw (append-nil, append-nil) refl)
