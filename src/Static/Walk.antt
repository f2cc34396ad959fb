-- ===== src/Static/Walk.antt =====
-- The two loops that collect the offsets to the left and to the right of a position found, the same
-- in src/static_index/binary_index.h, kary_index.h and fast_index.h.
use mathlib.Core.List.{reverse-append, append_assoc, append-nil}
use native.Mathlib.Numerals.{add-one}
use index_zoo.Base.{
  arith, ℕ, zero, suc, ◌+◌, ◌-◌, ◌^◌, ◌%◌, ◌<◌, ◌≤◌, ◌≡◌, refl, ap, ◌∙◌, List, [], ◌∷◌, ◌++◌,
  reverse, length, get_elem?, get_elem?-some, some, true, false, ◌==◌, leb, take_while, take, drop,
  take-suc, drop-eq-cons, drop-length, Run, done, fail, no_fuel, overflow, at, ◌>>=◌, to_int,
  rounds_down, Bool-cases, inl, inr, dec_lt, get_elem?-lt,
}
use index_zoo.Table.Offset.{word}
use index_zoo.Static.Entry.{KeyOffsetPair, has_key, offsets_of}

-- `while (offset_find_lhs >= 0)`; the argument is `offset_find_lhs + 1`, the rounds that are left.
unfoldable pub walk_left : List KeyOffsetPair → ℕ → ℕ → List ℕ → Run (List ℕ)
walk_left c key zero offsets = done offsets
walk_left c key (suc lhs) offsets = at c lhs >>= λ x. elim (x.key == key) [
  | true ↦ walk_left c key lhs (offsets ++ x.offset ∷ [])
  | false ↦ done offsets
]

-- `while (offset_find_rhs <= this->size_ - 1)`; the counter is an `int`.
unfoldable pub walk_right : ℕ → List KeyOffsetPair → ℕ → ℕ → List ℕ → Run (List ℕ)
walk_right zero c key rhs offsets = fail no_fuel
walk_right (suc fuel) c key rhs offsets = elim (leb (2 ^ 31) rhs) [
  | true ↦ fail overflow
  | false ↦ elim (leb rhs ((length c + word - 1) % word)) [
    | true ↦ at c rhs >>= λ x. elim (x.key == key) [
      | true ↦ walk_right fuel c key (rhs + 1) (offsets ++ x.offset ∷ [])
      | false ↦ done offsets
    ]
    | false ↦ done offsets
  ]
]

-- The end of `find`: the pair at `offset_find`, then those to its left, then those to its right.
unfoldable pub collect : List KeyOffsetPair → ℕ → ℕ → List ℕ → Run (List ℕ)
collect c key offset_find offsets = do
  x ← at c offset_find
  let lhs = to_int ((offset_find + word - 1) % word)
  left ← walk_left c key (rounds_down lhs) (offsets ++ x.offset ∷ [])
  walk_right (length c + 1) c key (offset_find + 1) left

module _ (c : List KeyOffsetPair) (key : ℕ) where
  left_end : (offsets : List ℕ) → walk_left c key 0 offsets ≡ done offsets
  unfolding walk_left
  left_end offsets = refl

  left_hit :
      (n : ℕ) (x : KeyOffsetPair) (offsets : List ℕ)
      → get_elem? c n ≡ some x
      → (x.key == key) ≡ true
      → walk_left c key (suc n) offsets ≡ walk_left c key n (offsets ++ x.offset ∷ [])
  unfolding walk_left
  left_hit n x offsets e hit = ground arith

  left_miss :
      (n : ℕ) (x : KeyOffsetPair) (offsets : List ℕ)
      → get_elem? c n ≡ some x
      → (x.key == key) ≡ false
      → walk_left c key (suc n) offsets ≡ done offsets
  unfolding walk_left
  left_miss n x offsets e miss = ground arith

  pub walk_left_lem :
      (n : ℕ) (offsets : List ℕ)
      → n ≤ length c
      → walk_left c key n offsets
        ≡ done (offsets ++ offsets_of (take_while (has_key key) (reverse (take n c))))
  walk_left_lem zero offsets h = rw append-nil (left_end offsets)
  walk_left_lem (suc n) offsets h =
      let (x, e) = get_elem?-some c n h in
      rw (take-suc c n x e, reverse-append (take n c) (x ∷ []))
        (elim (Bool-cases (x.key == key)) [
          | inl hit ↦ rw hit (
              left_hit n x offsets e hit
              ∙ walk_left_lem n (offsets ++ x.offset ∷ []) (omega arith)
              ∙ ap done (append_assoc offsets (x.offset ∷ []) _))
          | inr miss ↦ rw (miss, append-nil) (left_miss n x offsets e miss)
        ])

  module _ (small : length c < 2 ^ 31) where
    right_hit :
        (fuel i : ℕ) (x : KeyOffsetPair) (offsets : List ℕ)
        → get_elem? c i ≡ some x
        → (x.key == key) ≡ true
        → walk_right (suc fuel) c key i offsets
          ≡ walk_right fuel c key (i + 1) (offsets ++ x.offset ∷ [])
    unfolding walk_right
    right_hit fuel i x offsets e hit = ground (arith, get_elem?-lt c i x e)

    right_miss :
        (fuel i : ℕ) (x : KeyOffsetPair) (offsets : List ℕ)
        → get_elem? c i ≡ some x
        → (x.key == key) ≡ false
        → walk_right (suc fuel) c key i offsets ≡ done offsets
    unfolding walk_right
    right_miss fuel i x offsets e miss = ground (arith, get_elem?-lt c i x e)

    right_end :
        (fuel : ℕ) (offsets : List ℕ)
        → 0 < length c
        → walk_right (suc fuel) c key (length c) offsets ≡ done offsets
    unfolding walk_right
    right_end fuel offsets used = ground arith

    pub walk_right_lem :
        (fuel i : ℕ) (offsets : List ℕ)
        → length c < i + fuel
        → 0 < length c
        → i ≤ length c
        → walk_right fuel c key i offsets
          ≡ done (offsets ++ offsets_of (take_while (has_key key) (drop i c)))
    walk_right_lem zero i offsets h used inside = absurd (omega arith)
    walk_right_lem (suc fuel) i offsets h used inside = elim (dec_lt i (length c)) [
      | no end ↦
          let here : i ≡ length c = omega arith in
          rw (here, drop-length c (length c) (omega arith), append-nil)
            (right_end fuel offsets used)
      | yes more ↦
          let (x, e) = get_elem?-some c i more in
          rw (drop-eq-cons c i x e) (elim (Bool-cases (x.key == key)) [
            | inl hit ↦ rw hit (
                right_hit fuel i x offsets e hit
                ∙ walk_right_lem fuel (i + 1) (offsets ++ x.offset ∷ []) (omega arith) used
                    (omega arith)
                ∙ ap done (
                    append_assoc offsets (x.offset ∷ []) _
                    ∙ ap
                        (λ j.
                          offsets ++ x.offset ∷ offsets_of (take_while (has_key key) (drop j c)))
                        (add-one i)))
            | inr miss ↦ rw (miss, append-nil) (right_miss fuel i x offsets e miss)
          ])
    ]
