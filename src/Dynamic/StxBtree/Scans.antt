-- ===== src/Dynamic/StxBtree/Scans.antt =====
-- The scans of the index over the STX B+ tree
-- (src/dynamic_index/singlethread/stx_btree_index.h and stx_btree_generic_index.h).
use mathlib.Core.List.{append_assoc, append-nil}
use index_zoo.Base.{
  arith, ℕ, zero, suc, ◌+◌, ◌-◌, ◌≡◌, refl, sym, ap, ◌∙◌, List, [], ◌∷◌, ◌++◌, take, true, false,
  ltb, if◌then◌else◌, Bool-cases, inl, inr, dec_lt, done,
}
use index_zoo.Dynamic.Keys.{Keys}
use index_zoo.Dynamic.Spec.{Entries, values, offsets_for, offsets_for-none}
use index_zoo.Dynamic.StxBtree.{
  Multimap, IsOrdered, scan_from, scan_full_from, find, scan, scan_full,
}
use index_zoo.Dynamic.StxBtree.Laws.{find_lem}

module _ (keys : Keys) (library : Multimap keys) where
  open keys use {Key, less, equals}
  open library use {Container, entries}

  pushed :
      (key : Key) (x : Key × ℕ) (m : Entries keys) (out : List ℕ)
      → (if equals x.0 key then out ++ x.1 ∷ [] else out) ++ offsets_for keys key m
        ≡ out ++ offsets_for keys key (x ∷ m)
  pushed key x m out = elim (Bool-cases (equals x.0 key)) [
    | inl same ↦ rw same (append_assoc out (x.1 ∷ []) (offsets_for keys key m))
    | inr other ↦ rw other refl
  ]

  -- Behind a larger key.
  nothing_behind :
      (key : Key) (x : Key × ℕ) (m : Entries keys)
      → IsOrdered keys (x ∷ m)
      → less key x.0 ≡ true
      → offsets_for keys key m ≡ []
  nothing_behind key x m ordered past = offsets_for-none keys key m (λ j y e.
      elim (keys.less_split key y.0 x.0 past) [
        | inr back ↦
            let not_back : less y.0 x.0 ≡ false = ordered 0 (suc j) x y (omega arith) refl e in cc
        | inl above ↦ elim (Bool-cases (equals y.0 key)) [
          | inr f ↦ f
          | inl t ↦ let not_above : less key y.0 ≡ false = ((keys.equals_iff y.0 key).0 t).1 in cc
        ]
      ])

  -- The scan stops at the first larger key, behind which the key does not occur.
  scan_from_lem :
      (key : Key) (m : Entries keys) (out : List ℕ)
      → IsOrdered keys m
      → scan_from keys m key out ≡ out ++ offsets_for keys key m
  unfolding scan_from
  scan_from_lem key [] out ordered = sym (append-nil out)
  scan_from_lem key (x ∷ m) out ordered =
      let ih =
        scan_from_lem key m (if equals x.0 key then out ++ x.1 ∷ [] else out)
          (λ i j y z h e f. ordered (suc i) (suc j) y z (omega arith) e f) in
      elim (Bool-cases (less key x.0)) [
        | inr on ↦ rw on (ih ∙ pushed key x m out)
        | inl past ↦ rw past (
            sym (append-nil _)
            ∙ ap (λ l. (if equals x.0 key then out ++ x.1 ∷ [] else out) ++ l)
                (sym (nothing_behind key x m ordered past))
            ∙ pushed key x m out)
      ]

  scan_lem :
      (container : Container) (key : Key) (out : List ℕ)
      → scan keys library container key out ≡ out ++ offsets_for keys key (entries container)
  unfolding scan
  scan_lem container key out = scan_from_lem key (entries container) out (library.ordered container)

  -- The scan of the whole container and the search by its iterators add the same offsets in the same
  -- order, for every container, key and vector.
  pub scan-find :
      (container : Container) (key : Key) (out : List ℕ)
      → find keys library container key out ≡ done (scan keys library container key out)
  scan-find container key out =
      find_lem keys library container key out ∙ ap done (sym (scan_lem container key out))

  scan_full_from_lem :
      (m : Entries keys) (i count : ℕ) (out : List ℕ)
      → scan_full_from keys m i count out ≡ out ++ take (count - i) (values keys m)
  unfolding scan_full_from
  scan_full_from_lem [] i count out = rw (take-nil (count - i)) (sym (append-nil out))
    where
      take-nil : (n : ℕ) → take n (values keys []) ≡ []
      take-nil zero = refl
      take-nil (suc n) = refl
  scan_full_from_lem (x ∷ m) i count out =
      let ih = scan_full_from_lem m (i + 1) count (out ++ x.1 ∷ []) in
      elim (dec_lt i count) [
        | no full ↦
            let test : ltb i count ≡ false = ground arith in
            let none_left : count - i ≡ 0 = omega arith in
            rw (test, none_left) (sym (append-nil out))
        | yes more ↦
            let test : ltb i count ≡ true = ground arith in
            let one_less : count - i ≡ suc (count - (i + 1)) = omega arith in
            rw (test, one_less)
              (ih ∙ append_assoc out (x.1 ∷ []) (take (count - (i + 1)) (values keys m)))
      ]

  -- `scan_full` adds the offsets of the first `count` entries, of all if there are fewer.
  pub scan_full_lem :
      (container : Container) (count : ℕ) (out : List ℕ)
      → scan_full keys library container out count
        ≡ out ++ take count (values keys (entries container))
  unfolding scan_full
  scan_full_lem container count out =
      scan_full_from_lem (entries container) 0 count out
      ∙ ap (λ n. out ++ take n (values keys (entries container))) (omega arith)
