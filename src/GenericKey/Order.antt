-- ===== src/GenericKey/Order.antt =====
-- The comparisons of src/generic_key.h are the lexicographic order on byte strings.
use mathlib.Core.Path.{ap₂}
use mathlib.Core.Bool.{true≢false}
use index_zoo.Base.{
  arith, ℕ, suc, ◌≡◌, refl, sym, ap, ◌∙◌, List, [], ◌∷◌, length, Bool, true, false, ltb, ◌==◌,
  if◌then◌else◌, Run, done, fail, Returns, inl, inr, ◌↔◌, Bool-cases, ℕ_discrete,
}
use index_zoo.GenericKey.{
  GenericKey, IsKey, bytes, Sign, equal, below, above, memcmp, cmp_len, less, less_by, greater,
  greater_by, equals, is_equal,
}

-- The first byte that differs decides; a prefix comes first.
unfoldable pub precedes : List ℕ → List ℕ → Bool
precedes [] [] = false
precedes [] (y ∷ ys) = true
precedes (x ∷ xs) [] = false
precedes (x ∷ xs) (y ∷ ys) = if x == y then precedes xs ys else ltb x y

cmp_len-suc : (m n : ℕ) → cmp_len (suc m) (suc n) ≡ suc (cmp_len m n)
cmp_len-suc m n = ground arith

-- What `memcmp` finds over the shorter of two lengths.
sign_of : List ℕ → List ℕ → Sign
sign_of [] ys = equal
sign_of (x ∷ xs) [] = equal
sign_of (x ∷ xs) (y ∷ ys) = if x == y then sign_of xs ys else if ltb x y then below else above

memcmp_lem :
    (xs ys : List ℕ) → memcmp (cmp_len (length xs) (length ys)) xs ys ≡ done (sign_of xs ys)
unfolding memcmp sign_of
memcmp_lem [] [] = ground arith
memcmp_lem [] (y ∷ ys) = ground arith
memcmp_lem (x ∷ xs) [] = ground arith
memcmp_lem (x ∷ xs) (y ∷ ys) =
    rw (cmp_len-suc (length xs) (length ys)) (elim (Bool-cases (x == y)) [
      | inl same ↦ rw same (memcmp_lem xs ys)
      | inr differ ↦
          rw differ (elim (Bool-cases (ltb x y)) [
            | inl lower ↦ rw lower refl
            | inr higher ↦ rw higher refl
          ])
    ])

less_by_lem : (xs ys : List ℕ) → less_by (length xs) (length ys) (sign_of xs ys) ≡ precedes xs ys
unfolding sign_of precedes
less_by_lem [] [] = ground arith
less_by_lem [] (y ∷ ys) = ground arith
less_by_lem (x ∷ xs) [] = ground arith
less_by_lem (x ∷ xs) (y ∷ ys) = elim (Bool-cases (x == y)) [
  | inl same ↦ rw same (less_by-suc (sign_of xs ys) ∙ less_by_lem xs ys)
  | inr differ ↦
      rw differ
        (elim (Bool-cases (ltb x y)) [ inl lower ↦ rw lower refl | inr higher ↦ rw higher refl ])
]
  where
    less_by-suc :
        (s : Sign)
        → less_by (suc (length xs)) (suc (length ys)) s ≡ less_by (length xs) (length ys) s
    less_by-suc equal = ground arith
    less_by-suc below = refl
    less_by-suc above = refl

greater_by_lem :
    (xs ys : List ℕ) → greater_by (length xs) (length ys) (sign_of xs ys) ≡ precedes ys xs
unfolding sign_of precedes
greater_by_lem [] [] = ground arith
greater_by_lem [] (y ∷ ys) = ground arith
greater_by_lem (x ∷ xs) [] = ground arith
greater_by_lem (x ∷ xs) (y ∷ ys) = elim (Bool-cases (x == y)) [
  | inl same ↦
      let back : (y == x) ≡ true = ground arith in
      rw (same, back) (greater_by-suc (sign_of xs ys) ∙ greater_by_lem xs ys)
  | inr differ ↦
      let back : (y == x) ≡ false = ground arith in
      rw (differ, back)
        (elim (Bool-cases (ltb x y)) [
          | inl lower ↦ rw lower (ground arith)
          | inr higher ↦ rw higher (ground arith)
        ])
]
  where
    greater_by-suc :
        (s : Sign)
        → greater_by (suc (length xs)) (suc (length ys)) s ≡ greater_by (length xs) (length ys) s
    greater_by-suc equal = ground arith
    greater_by-suc below = refl
    greater_by-suc above = refl

pub precedes-irreflexive : (xs : List ℕ) → precedes xs xs ≡ false
unfolding precedes
precedes-irreflexive [] = refl
precedes-irreflexive (x ∷ xs) = ground (arith, precedes-irreflexive xs)

pub precedes_trans :
    (xs ys zs : List ℕ) → precedes xs ys ≡ true → precedes ys zs ≡ true → precedes xs zs ≡ true
unfolding precedes
precedes_trans [] [] [] h k = h
precedes_trans [] (y ∷ ys) [] h k = k
precedes_trans [] ys (z ∷ zs) h k = refl
precedes_trans (x ∷ xs) [] zs h k = absurd (true≢false (sym h))
precedes_trans (x ∷ xs) (y ∷ ys) [] h k = k
precedes_trans (x ∷ xs) (y ∷ ys) (z ∷ zs) h k = ground (arith, precedes_trans xs ys zs)

pub precedes-total : (xs ys : List ℕ) → precedes xs ys ≡ false → precedes ys xs ≡ false → xs ≡ ys
unfolding precedes
precedes-total [] [] h k = refl
precedes-total [] (y ∷ ys) h k = cc
precedes-total (x ∷ xs) [] h k = cc
precedes-total (x ∷ xs) (y ∷ ys) h k = ground (arith, precedes-total xs ys)

sign_of_self : (xs : List ℕ) → sign_of xs xs ≡ equal
unfolding sign_of
sign_of_self [] = refl
sign_of_self (x ∷ xs) = ground (arith, sign_of_self xs)

same_bytes : (xs ys : List ℕ) → length xs ≡ length ys → is_equal (sign_of xs ys) ≡ true → xs ≡ ys
unfolding sign_of
same_bytes [] [] h e = refl
same_bytes [] (y ∷ ys) h e = absurd (omega arith)
same_bytes (x ∷ xs) [] h e = absurd (omega arith)
same_bytes (x ∷ xs) (y ∷ ys) h e = elim (Bool-cases (x == y)) [
  | inl same ↦
      let tails : xs ≡ ys = same_bytes xs ys (omega arith) (rw same at e) in
      let heads : x ≡ y = ground arith in ap₂ (λ z zs. z ∷ zs) heads tails
  | inr differ ↦ absurd (true≢false (sym (never differ (rw differ at e))))
]
  where
    never : (x == y) ≡ false → is_equal (if ltb x y then below else above) ≡ true → false ≡ true
    never differ e = ground arith

module _ (a b : GenericKey) (a_ok : IsKey a) (b_ok : IsKey b) where
  -- `operator<`, and with it `GenericKeyComparator`, on keys whose size is that of their memory
  -- reads no byte outside either key, and is the lexicographic order on their bytes.
  pub less-precedes : less a b ≡ done (precedes (bytes a.raw) (bytes b.raw))
  unfolding less
  less-precedes =
      rw (sym a_ok, sym b_ok, memcmp_lem (bytes a.raw) (bytes b.raw))
        (ap done (less_by_lem (bytes a.raw) (bytes b.raw)))

  -- `operator>` on keys whose size is that of their memory reads no byte outside either key, and
  -- is the lexicographic order on their bytes, the other way round.
  pub greater-precedes : greater a b ≡ done (precedes (bytes b.raw) (bytes a.raw))
  unfolding greater
  greater-precedes =
      rw (sym a_ok, sym b_ok, memcmp_lem (bytes a.raw) (bytes b.raw))
        (ap done (greater_by_lem (bytes a.raw) (bytes b.raw)))

  -- `operator==`, and with it `GenericKeyEqualityChecker`, on keys whose size is that of their
  -- memory ends normally, and is true exactly if the two keys have the same bytes.
  pub equals-bytes : Returns (equals a b) (λ r. (r ≡ true) ↔ (bytes a.raw ≡ bytes b.raw))
  unfolding equals
  equals-bytes = elim (ℕ_discrete a.data_size b.data_size) [
    | no differ ↦
        let test : (a.data_size == b.data_size) ≡ false = ground arith in
        rw test (
          (λ e. absurd (true≢false (sym e))),
          (λ e. absurd (differ (sym a_ok ∙ ap length e ∙ b_ok))),
        )
    | yes same ↦
        let test : (a.data_size == b.data_size) ≡ true = ground arith in
        let lengths : length (bytes a.raw) ≡ length (bytes b.raw) = a_ok ∙ same ∙ sym b_ok in
        let one_length : a.data_size ≡ cmp_len (length (bytes a.raw)) (length (bytes b.raw)) =
          ground arith in
        rw (test, one_length, memcmp_lem (bytes a.raw) (bytes b.raw))
          (
            (λ e. same_bytes (bytes a.raw) (bytes b.raw) lengths e),
            (λ e. rw (e, sign_of_self (bytes b.raw)) refl),
          )
  ]

-- `operator<` and `operator==` on keys whose sizes are those of their memory make a strict total
-- order: no key is below itself, the order is transitive, two keys neither of which is below the
-- other have the same bytes and are equal, and two keys that are equal have the same bytes and
-- neither is below the other.
pub less_is_order :
    (a b c : GenericKey)
    → IsKey a
    → IsKey b
    → IsKey c
    → (less a a ≡ done false)
      × (less a b ≡ done true → less b c ≡ done true → less a c ≡ done true)
      × (less a b ≡ done false
          → less b a ≡ done false
          → (bytes a.raw ≡ bytes b.raw) × (equals a b ≡ done true))
      × (equals a b ≡ done true
          → (bytes a.raw ≡ bytes b.raw) × (less a b ≡ done false) × (less b a ≡ done false))
less_is_order a b c a_ok b_ok c_ok =
    rw
      (
        less-precedes a a a_ok a_ok,
        less-precedes a b a_ok b_ok,
        less-precedes b c b_ok c_ok,
        less-precedes a c a_ok c_ok,
        less-precedes b a b_ok a_ok,
        precedes-irreflexive (bytes a.raw),
      )
      (
        refl,
        (λ h k.
            ap done (precedes_trans (bytes a.raw) (bytes b.raw) (bytes c.raw) (value h) (value k))),
        (λ h k.
            let same = precedes-total (bytes a.raw) (bytes b.raw) (value h) (value k) in
            (same, is_true (equals a b) same (equals-bytes a b a_ok b_ok))),
        (λ h.
            let same = same_if (equals a b) h (equals-bytes a b a_ok b_ok) in
            (
              same,
              rw (same, precedes-irreflexive (bytes b.raw)) refl,
              rw (same, precedes-irreflexive (bytes b.raw)) refl,
            )),
      )
  where
    value : {x y : Bool} → done x ≡ done y → x ≡ y
    value h = cc

    same_if :
        (m : Run Bool)
        → m ≡ done true
        → Returns m (λ r. (r ≡ true) ↔ (bytes a.raw ≡ bytes b.raw))
        → bytes a.raw ≡ bytes b.raw
    same_if (done r) h both = both.0 (value h)
    same_if (fail e) h both = absurd both

    is_true :
        (m : Run Bool)
        → bytes a.raw ≡ bytes b.raw
        → Returns m (λ r. (r ≡ true) ↔ (bytes a.raw ≡ bytes b.raw))
        → m ≡ done true
    is_true (done r) same h = ap done (h.1 same)
    is_true (fail e) same h = absurd h
