-- ===== src/Static/Interpolation/ByScan.antt =====
-- `find_range_by_scan` of src/static_index/interpolation_index.h, which nothing calls.
use mathlib.Core.List.{append_assoc, append-nil}
use native.Mathlib.Numerals.{add-one}
use index_zoo.Base.{
  arith, ℕ, zero, suc, ◌+◌, ◌-◌, ◌<◌, ◌≤◌, ◌≡◌, refl, ap, ◌∙◌, List, [], ◌∷◌, ◌++◌, length,
  get_elem?, get_elem?-some, get_elem?-lt, some, take, drop, drop-eq-cons, true, false, ltb, leb,
  ◌==◌, ◌&&◌, ◌||◌, if◌then◌else◌, Bool-cases, inl, inr, dec_lt, Run, done, at, ◌>>=◌,
}
use index_zoo.Static.Entry.{KeyOffsetPair, IsSorted, AllFrom, drop-AllFrom}
use index_zoo.Static.Entry.Between.{in_range, between}
use index_zoo.Static.Find.{push_all}
use index_zoo.Static.Interpolation.{Interpolate, InterpolationIndex, guess_of, find}

-- The two loops from a guess in the range; the arguments count the rounds that are left.
unfoldable pub pass_left : List KeyOffsetPair → ℕ → ℕ → List ℕ → Run (List ℕ)
pass_left c lhs_key zero offsets = done offsets
pass_left c lhs_key (suc guess_lhs) offsets = at c guess_lhs >>= λ x. elim (leb lhs_key x.key) [
  | true ↦ pass_left c lhs_key guess_lhs (offsets ++ x.offset ∷ [])
  | false ↦ done offsets
]

unfoldable pub pass_right : ℕ → List KeyOffsetPair → ℕ → ℕ → List ℕ → Run (List ℕ)
pass_right zero c rhs_key guess_rhs offsets = done offsets
pass_right (suc left) c rhs_key guess_rhs offsets = at c guess_rhs >>= λ x.
    elim (leb x.key rhs_key) [
      | true ↦ pass_right left c rhs_key (guess_rhs + 1) (offsets ++ x.offset ∷ [])
      | false ↦ done offsets
    ]

-- The loop from a guess above the range.
unfoldable pub range_left : List KeyOffsetPair → ℕ → ℕ → ℕ → List ℕ → Run (List ℕ)
range_left c lhs_key rhs_key zero offsets = done offsets
range_left c lhs_key rhs_key (suc guess_lhs) offsets = at c guess_lhs >>= λ x.
    elim (ltb x.key lhs_key) [
      | true ↦ done offsets
      | false ↦ elim (leb x.key rhs_key) [
        | true ↦ range_left c lhs_key rhs_key guess_lhs (offsets ++ x.offset ∷ [])
        | false ↦ range_left c lhs_key rhs_key guess_lhs offsets
      ]
    ]

-- The loop from a guess below the range, which stops before the last index.
unfoldable pub range_right : ℕ → List KeyOffsetPair → ℕ → ℕ → ℕ → List ℕ → Run (List ℕ)
range_right zero c lhs_key rhs_key guess offsets = done offsets
range_right (suc left) c lhs_key rhs_key guess offsets = at c guess >>= λ x.
    elim (ltb x.key lhs_key) [
      | true ↦ range_right left c lhs_key rhs_key (guess + 1) offsets
      | false ↦ elim (ltb rhs_key x.key) [
        | true ↦ done offsets
        | false ↦ range_right left c lhs_key rhs_key (guess + 1) (offsets ++ x.offset ∷ [])
      ]
    ]

-- From the guess on.
unfoldable pub range_from_guess : List KeyOffsetPair → ℕ → ℕ → ℕ → List ℕ → Run (List ℕ)
range_from_guess c lhs_key rhs_key guess offsets = at c guess >>= λ x.
    elim (leb lhs_key x.key && leb x.key rhs_key) [
      | true ↦ pass_left c lhs_key guess (offsets ++ x.offset ∷ []) >>= λ left.
          pass_right (length c - (guess + 1)) c rhs_key (guess + 1) left
      | false ↦ elim (ltb rhs_key x.key) [
        | true ↦ range_left c lhs_key rhs_key guess offsets
        | false ↦ range_right (length c - 1 - (guess + 1)) c lhs_key rhs_key (guess + 1) offsets
      ]
    ]

-- `find_range_by_scan(lhs_key, rhs_key, offsets)`
unfoldable pub find_range_by_scan : Interpolate → InterpolationIndex → ℕ → ℕ → List ℕ → Run (List ℕ)
find_range_by_scan interpolate index lhs_key rhs_key offsets = elim (ltb rhs_key lhs_key) [
  | true ↦ done offsets
  | false ↦ elim (lhs_key == rhs_key) [
    | true ↦ find interpolate index lhs_key offsets
    | false ↦ elim (length index.container == 0) [
      | true ↦ done offsets
      | false ↦ elim (ltb index.key_max lhs_key || ltb rhs_key index.key_min) [
        | true ↦ done offsets
        | false ↦ elim (index.key_min == index.key_max) [
          | true ↦ done (
              if leb lhs_key index.key_min && leb index.key_min rhs_key
              then push_all index.container offsets
              else offsets)
          | false ↦
              elim (ltb index.key_min lhs_key) [
                | true ↦ guess_of interpolate index lhs_key
                | false ↦ done 0
              ]
              >>= λ guess. range_from_guess index.container lhs_key rhs_key guess offsets
        ]
      ]
    ]
  ]
]

AllFrom-take : (n j : ℕ) (c : List KeyOffsetPair) → AllFrom j c → AllFrom j (take n c)
AllFrom-take zero j c h = tt
AllFrom-take (suc n) j [] h = tt
AllFrom-take (suc n) j (x ∷ c) h = (h.0, AllFrom-take n j c h.1)

between-above :
    (lhs_key rhs_key j : ℕ) (c : List KeyOffsetPair)
    → rhs_key < j
    → AllFrom j c
    → between lhs_key rhs_key c ≡ []
between-above lhs_key rhs_key j [] h a = refl
between-above lhs_key rhs_key j (x ∷ c) h a =
    ground (arith, between-above lhs_key rhs_key j c h a.1)

module _ (c : List KeyOffsetPair) (sorted : IsSorted c) (lhs_key rhs_key : ℕ)
    (ordered : lhs_key ≤ rhs_key) where
  right_over :
      (left i : ℕ) (x : KeyOffsetPair) (out : List ℕ)
      → get_elem? c i ≡ some x
      → rhs_key < x.key
      → range_right (suc left) c lhs_key rhs_key i out ≡ done out
  unfolding range_right
  right_over left i x out e over = ground arith

  right_on :
      (left i : ℕ) (x : KeyOffsetPair) (out : List ℕ)
      → get_elem? c i ≡ some x
      → x.key ≤ rhs_key
      → range_right (suc left) c lhs_key rhs_key i out
        ≡ range_right left c lhs_key rhs_key
            (i + 1)
            (if in_range lhs_key rhs_key x then out ++ x.offset ∷ [] else out)
  unfolding range_right
  right_on left i x out e not_over = ground arith

  right_end : (i : ℕ) (out : List ℕ) → range_right 0 c lhs_key rhs_key i out ≡ done out
  unfolding range_right
  right_end i out = refl

  abbrev window : ℕ → ℕ → List ℕ
  window left i = between lhs_key rhs_key (take left (drop i c))

  range_right_lem :
      (left i : ℕ) (out : List ℕ)
      → i + left ≤ length c
      → range_right left c lhs_key rhs_key i out ≡ done (out ++ window left i)
  range_right_lem zero i out h = right_end i out ∙ ap done (ground (arith, append-nil out))
  range_right_lem (suc left) i out h =
      let (x, e) = get_elem?-some c i (omega arith) in
      elim (dec_lt rhs_key x.key) [
        | yes over ↦
            rw
              (
                drop-eq-cons c i x e,
                between-above lhs_key rhs_key x.key (x ∷ take left (drop (suc i) c)) over (
                  omega arith,
                  AllFrom-take left x.key (drop (suc i) c) (drop-AllFrom i c x sorted e),
                ),
                append-nil,
              )
              (right_over left i x out e over)
        | no not_over ↦ rw (drop-eq-cons c i x e) (
            right_on left i x out e (omega arith)
            ∙ range_right_lem left (i + 1)
                (if in_range lhs_key rhs_key x then out ++ x.offset ∷ [] else out) (omega arith)
            ∙ ap done (
                ap
                  (λ j.
                    (if in_range lhs_key rhs_key x then out ++ x.offset ∷ [] else out)
                    ++ window left j)
                  (add-one i)
                ∙ pushed x out (take left (drop (suc i) c))))
      ]
    where
      pushed :
          (y : KeyOffsetPair) (o : List ℕ) (d : List KeyOffsetPair)
          → (if in_range lhs_key rhs_key y then o ++ y.offset ∷ [] else o)
              ++ between lhs_key rhs_key d
            ≡ o ++ between lhs_key rhs_key (y ∷ d)
      pushed y o d = elim (Bool-cases (in_range lhs_key rhs_key y)) [
        | inl hit ↦ rw hit (append_assoc o (y.offset ∷ []) (between lhs_key rhs_key d))
        | inr miss ↦ rw miss refl
      ]

module _ (interpolate : Interpolate) (index : InterpolationIndex)
    (sorted : IsSorted index.container) (lhs_key rhs_key guess : ℕ) (x : KeyOffsetPair)
    (out : List ℕ) (at_guess : get_elem? index.container guess ≡ some x) where
  below_range :
      x.key < lhs_key
      → lhs_key < rhs_key
      → range_from_guess index.container lhs_key rhs_key guess out
        ≡ range_right
            (length index.container - 1 - (guess + 1))
            index.container
            lhs_key
            rhs_key
            (guess + 1)
            out
  unfolding range_from_guess
  below_range below wider = ground arith

  guesses :
      lhs_key < rhs_key
      → index.key_min < lhs_key
      → lhs_key ≤ index.key_max
      → guess_of interpolate index lhs_key ≡ done guess
      → find_range_by_scan interpolate index lhs_key rhs_key out
        ≡ range_from_guess index.container lhs_key rhs_key guess out
  unfolding find_range_by_scan
  guesses wider lo hi guessed =
      ground (arith, get_elem?-lt index.container guess x at_guess, guessed)

  -- On a sorted array, for a range that starts above the first key and a guess whose key is below it,
  -- `find_range_by_scan` adds the offsets of the pairs with keys in the range between the guess and the
  -- last pair of the array, but never that of the last pair, whatever its key.
  pub by_scan_leaves_last :
      lhs_key < rhs_key
      → index.key_min < lhs_key
      → lhs_key ≤ index.key_max
      → guess_of interpolate index lhs_key ≡ done guess
      → x.key < lhs_key
      → find_range_by_scan interpolate index lhs_key rhs_key out
        ≡ done (
            out
            ++ between lhs_key rhs_key (
                take (length index.container - 1 - (guess + 1)) (drop (guess + 1) index.container)))
  by_scan_leaves_last wider lo hi guessed below =
      guesses wider lo hi guessed
      ∙ below_range below wider
      ∙ elim (dec_lt (guess + 1) (length index.container)) [
        | yes more ↦
            range_right_lem index.container sorted lhs_key rhs_key (omega arith)
              (length index.container - 1 - (guess + 1)) (guess + 1) out (omega arith)
        | no end ↦
            range_right_lem index.container sorted lhs_key rhs_key (omega arith)
              (length index.container - 1 - (guess + 1)) (guess + 1) out
              (omega (arith, get_elem?-lt index.container guess x at_guess))
      ]
