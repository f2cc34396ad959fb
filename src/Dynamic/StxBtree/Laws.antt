-- ===== src/Dynamic/StxBtree/Laws.antt =====
-- What the operations of the index over the STX B+ tree return
-- (src/dynamic_index/singlethread/stx_btree_index.h and stx_btree_generic_index.h).
use mathlib.Core.List.{append_assoc, append-nil}
use mathlib.Core.Path.{fun_ext}
use native.Mathlib.Numerals.{add-one}
use index_zoo.Base.{
  arith, ℕ, zero, suc, ◌+◌, ◌-◌, ◌≤◌, ◌<◌, ◌≡◌, ◌≢◌, refl, sym, ap, ◌∙◌, List, [], ◌∷◌, ◌++◌,
  length, get_elem?, get_elem?-some, some, take, drop, drop-eq-cons, true, false, select,
  select_middle, Bool-cases, inl, inr, dec_lt, done,
}
use index_zoo.Dynamic.Keys.{Keys, less_equals}
use index_zoo.Dynamic.Spec.{Entries, values, within, offsets_for, offsets_for-select}
use index_zoo.Dynamic.StxBtree.{IsLowerBound, IsUpperBound, Multimap, copy_from, find, find_range}

module _ (keys : Keys) where
  open keys use {Key, less, equals}

  copy_stops :
      (fuel it stop : ℕ) (entries : Entries keys) (out : List ℕ)
      → it ≡ stop
      → copy_from keys (suc fuel) entries it stop out ≡ done out
  unfolding copy_from
  copy_stops fuel it stop entries out h = ground arith

  copy_on :
      (fuel it stop : ℕ) (x : Key × ℕ) (entries : Entries keys) (out : List ℕ)
      → get_elem? entries it ≡ some x
      → it ≢ stop
      → copy_from keys (suc fuel) entries it stop out
        ≡ copy_from keys fuel entries (it + 1) stop (out ++ x.1 ∷ [])
  unfolding copy_from
  copy_on fuel it stop x entries out e h = ground arith

  -- The loop adds the offsets from the first iterator up to the second.
  copy_from_lem :
      (n fuel it : ℕ) (entries : Entries keys) (out : List ℕ)
      → it + n ≤ length entries
      → n < fuel
      → copy_from keys fuel entries it (it + n) out
        ≡ done (out ++ values keys (take n (drop it entries)))
  copy_from_lem n zero it entries out inside enough = absurd (omega arith)
  copy_from_lem zero (suc fuel) it entries out inside enough =
      copy_stops fuel it (it + 0) entries out (omega arith) ∙ ap done (sym (append-nil out))
  copy_from_lem (suc n) (suc fuel) it entries out inside enough =
      let (x, e) = get_elem?-some entries it (omega arith) in
      let shift : it + suc n ≡ it + 1 + n = omega arith in
      rw (drop-eq-cons entries it x e) (
        copy_on fuel it (it + suc n) x entries out e (omega arith)
        ∙ ap (λ stop. copy_from keys fuel entries (it + 1) stop (out ++ x.1 ∷ [])) shift
        ∙ copy_from_lem n fuel (it + 1) entries (out ++ x.1 ∷ []) (omega arith) (omega arith)
        ∙ ap done (
            append_assoc out (x.1 ∷ []) _
            ∙ ap (λ j. out ++ x.1 ∷ values keys (take n (drop j entries))) (add-one it)))

  -- The entries between two bounds.
  module _ (entries : Entries keys) (lhs_key rhs_key : Key) (l u : ℕ)
      (lower : IsLowerBound keys entries lhs_key l) (upper : IsUpperBound keys entries rhs_key u)
      (ordered : less rhs_key lhs_key ≡ false) where
    not_apart : l ≤ u
    not_apart = elim (dec_lt u l) [
      | no h ↦ omega arith
      | yes h ↦
          let (x, e) = get_elem?-some entries u (omega (arith, lower.inside)) in
          let crossed : less rhs_key lhs_key ≡ true =
            keys.less_trans rhs_key x.0 lhs_key (upper.above u x e (omega arith))
              (lower.below u x e h) in
          cc
    ]

    copied :
        (fuel : ℕ) (out : List ℕ)
        → length entries < fuel
        → copy_from keys fuel entries l u out
          ≡ done (out ++ values keys (select (within keys lhs_key rhs_key) entries))
    copied fuel out enough =
        let reach : l + (u - l) ≡ u = omega (arith, not_apart) in
        ap (λ stop. copy_from keys fuel entries l stop out) (sym reach)
        ∙ copy_from_lem (u - l) fuel l entries out (omega (arith, not_apart, upper.inside))
            (omega (arith, upper.inside))
        ∙ ap (λ d. done (out ++ values keys d))
            (sym (
              select_middle (within keys lhs_key rhs_key) entries l (u - l)
                (λ j x e h. rw (lower.below j x e h) refl)
                (λ j x e from to.
                  rw (lower.above j x e from, upper.below j x e (omega (arith, not_apart))) refl)
                (λ j x e h.
                  let up : less rhs_key x.0 ≡ true = upper.above j x e (omega (arith, not_apart)) in
                  elim (Bool-cases (less x.0 lhs_key)) [
                    | inl t ↦ rw (up, t) refl
                    | inr f ↦ rw (up, f) refl
                  ])))

  -- Between a key and itself are the equal keys.
  pub within-equals : (k : Key) (x : Key × ℕ) → within keys k k x ≡ equals x.0 k
  within-equals k x = elim (Bool-cases (equals x.0 k)) [
    | inl e ↦ let (a, b) = (keys.equals_iff x.0 k).0 e in rw (a, b, e) refl
    | inr e ↦ elim (Bool-cases (less x.0 k)) [
      | inl below ↦ rw (below, e) refl
      | inr not_below ↦ elim (Bool-cases (less k x.0)) [
        | inl above ↦ rw (not_below, above, e) refl
        | inr not_above ↦
            let same : equals x.0 k ≡ true = (keys.equals_iff x.0 k).1 (not_below, not_above) in cc
      ]
    ]
  ]

  pub nothing_within :
      (lhs_key rhs_key : Key) (m : Entries keys)
      → less rhs_key lhs_key ≡ true
      → select (within keys lhs_key rhs_key) m ≡ []
  nothing_within lhs_key rhs_key m crossed =
      select_middle (within keys lhs_key rhs_key) m 0 0 (λ j x e h. absurd (omega arith))
        (λ j x e from to. absurd (omega arith)) (λ j x e h. outside x)
    where
      outside : (x : Key × ℕ) → within keys lhs_key rhs_key x ≡ false
      outside x = elim (keys.less_split rhs_key x.0 lhs_key crossed) [
        | inl above ↦ elim (Bool-cases (less x.0 lhs_key)) [
          | inl t ↦ rw (above, t) refl
          | inr f ↦ rw (above, f) refl
        ]
        | inr below ↦ rw below refl
      ]

  -- Equal bounds select the same.
  pub within_same :
      (lhs_key rhs_key : Key)
      → equals lhs_key rhs_key ≡ true
      → (x : Key × ℕ) → within keys lhs_key rhs_key x ≡ within keys lhs_key lhs_key x
  within_same lhs_key rhs_key same x = rw (less_equals keys lhs_key rhs_key x.0 same) refl

module _ (keys : Keys) (library : Multimap keys) where
  open keys use {Key, less, equals}
  open library use {Container, entries}

  -- `find` ends normally and adds the offsets of the entries with the key, in the order of the container.
  pub find_lem :
      (container : Container) (key : Key) (out : List ℕ)
      → find keys library container key out ≡ done (out ++ offsets_for keys key (entries container))
  unfolding find
  find_lem container key out = rw (library.equal_range-eq container key) (
      copied keys (entries container) key key (library.lower_bound container key)
        (library.upper_bound container key) (library.lower_bound-IsLowerBound container key)
        (library.upper_bound-IsUpperBound container key) (keys.less_irrefl key)
        (length (entries container) + 1) out (omega arith)
      ∙ ap (λ p. done (out ++ values keys (select p (entries container))))
          (fun_ext (within-equals keys key))
      ∙ ap (λ l. done (out ++ l)) (sym (offsets_for-select keys key (entries container))))

  crossed_range :
      (container : Container) (lhs_key rhs_key : Key) (out : List ℕ)
      → less rhs_key lhs_key ≡ true
      → find_range keys library container lhs_key rhs_key out ≡ done out
  unfolding find_range
  crossed_range container lhs_key rhs_key out h = ground arith

  one_key_range :
      (container : Container) (lhs_key rhs_key : Key) (out : List ℕ)
      → less rhs_key lhs_key ≡ false
      → equals lhs_key rhs_key ≡ true
      → find_range keys library container lhs_key rhs_key out
        ≡ find keys library container lhs_key out
  unfolding find_range
  one_key_range container lhs_key rhs_key out h e = ground arith

  wide_range :
      (container : Container) (lhs_key rhs_key : Key) (out : List ℕ)
      → less rhs_key lhs_key ≡ false
      → equals lhs_key rhs_key ≡ false
      → find_range keys library container lhs_key rhs_key out
        ≡ copy_from keys
            (length (entries container) + 1)
            (entries container)
            (library.lower_bound container lhs_key)
            (library.upper_bound container rhs_key)
            out
  unfolding find_range
  wide_range container lhs_key rhs_key out h e = ground arith

  -- For any two keys, also in the wrong order, `find_range` ends normally and adds the offsets of
  -- exactly the entries with keys from the first to the second, in the order of the container.
  pub find_range_lem :
      (container : Container) (lhs_key rhs_key : Key) (out : List ℕ)
      → find_range keys library container lhs_key rhs_key out
        ≡ done (out ++ values keys (select (within keys lhs_key rhs_key) (entries container)))
  find_range_lem container lhs_key rhs_key out = elim (Bool-cases (less rhs_key lhs_key)) [
    | inl crossed ↦
        rw (nothing_within keys lhs_key rhs_key (entries container) crossed, append-nil)
          (crossed_range container lhs_key rhs_key out crossed)
    | inr ordered ↦ elim (Bool-cases (equals lhs_key rhs_key)) [
      | inl same ↦
          one_key_range container lhs_key rhs_key out ordered same
          ∙ find_lem container lhs_key out
          ∙ ap (λ l. done (out ++ l))
              (offsets_for-select keys lhs_key (entries container)
                ∙ ap (λ p. values keys (select p (entries container)))
                    (sym (
                      fun_ext (λ x.
                        within_same keys lhs_key rhs_key same x ∙ within-equals keys lhs_key x))))
      | inr differ ↦
          wide_range container lhs_key rhs_key out ordered differ
          ∙ copied keys (entries container) lhs_key rhs_key (library.lower_bound container lhs_key)
              (library.upper_bound container rhs_key)
              (library.lower_bound-IsLowerBound container lhs_key)
              (library.upper_bound-IsUpperBound container rhs_key) ordered
              (length (entries container) + 1) out (omega arith)
    ]
  ]
