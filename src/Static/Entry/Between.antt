-- ===== src/Static/Entry/Between.antt =====
-- The pairs of a sorted array (src/base_static_index.h) with keys in a range.
use index_zoo.Base.{
  arith, ℕ, zero, suc, ◌+◌, ◌-◌, ◌<◌, ◌≤◌, ◌≡◌, refl, sym, ap, ◌∙◌, List, [], ◌∷◌, length,
  get_elem?, get_elem?-some, get_elem?-lt, some, true, false, Bool, leb, ◌&&◌, select,
  select_middle, take, drop, dec_lt,
}
use index_zoo.Static.Entry.{KeyOffsetPair, IsSorted, IsSorted-le, offsets_of, matching}

abbrev pub in_range : ℕ → ℕ → KeyOffsetPair → Bool
in_range lhs_key rhs_key x = leb lhs_key x.key && leb x.key rhs_key

-- The offsets of the pairs with keys from `lhs_key` to `rhs_key`, in the order of the array.
abbrev pub between : ℕ → ℕ → List KeyOffsetPair → List ℕ
between lhs_key rhs_key c = offsets_of (select (in_range lhs_key rhs_key) c)

pub take-offsets_of :
    (m : ℕ) (c : List KeyOffsetPair) → take m (offsets_of c) ≡ offsets_of (take m c)
take-offsets_of zero c = refl
take-offsets_of (suc m) [] = refl
take-offsets_of (suc m) (x ∷ c) = ap (λ l. x.offset ∷ l) (take-offsets_of m c)

pub between_none :
    (lhs_key rhs_key : ℕ) (c : List KeyOffsetPair)
    → ((j : ℕ) (x : KeyOffsetPair) → get_elem? c j ≡ some x → in_range lhs_key rhs_key x ≡ false)
    → between lhs_key rhs_key c ≡ []
between_none lhs_key rhs_key [] miss = refl
between_none lhs_key rhs_key (x ∷ c) miss =
    rw (miss 0 x refl) (between_none lhs_key rhs_key c (λ j y e. miss (suc j) y e))

pub between_all :
    (lhs_key rhs_key : ℕ) (c : List KeyOffsetPair)
    → ((j : ℕ) (x : KeyOffsetPair) → get_elem? c j ≡ some x → in_range lhs_key rhs_key x ≡ true)
    → between lhs_key rhs_key c ≡ offsets_of c
between_all lhs_key rhs_key [] hit = refl
between_all lhs_key rhs_key (x ∷ c) hit =
    rw (hit 0 x refl)
      (ap (λ l. x.offset ∷ l) (between_all lhs_key rhs_key c (λ j y e. hit (suc j) y e)))

pub between-matching : (key : ℕ) (c : List KeyOffsetPair) → between key key c ≡ matching key c
between-matching key [] = refl
between-matching key (x ∷ c) = ground (arith, between-matching key c)

-- The first index with a key that is not below `key`.
pub record IsFirst (c : List KeyOffsetPair) (key i : ℕ) : Type 0 where
  pub inside : i < length c
  pub below : (j : ℕ) (x : KeyOffsetPair) → get_elem? c j ≡ some x → j < i → x.key < key
  pub above : (j : ℕ) (x : KeyOffsetPair) → get_elem? c j ≡ some x → i ≤ j → key ≤ x.key

-- The last index with a key that is not above `key`.
pub record IsLast (c : List KeyOffsetPair) (key i : ℕ) : Type 0 where
  pub inside : i < length c
  pub below : (j : ℕ) (x : KeyOffsetPair) → get_elem? c j ≡ some x → j ≤ i → x.key ≤ key
  pub above : (j : ℕ) (x : KeyOffsetPair) → get_elem? c j ≡ some x → i < j → key < x.key

module _ (c : List KeyOffsetPair) (sorted : IsSorted c) (key i : ℕ) (x : KeyOffsetPair)
    (at_i : get_elem? c i ≡ some x) where
  pub IsFirst-intro :
      key ≤ x.key
      → ((j : ℕ) (y : KeyOffsetPair) → get_elem? c j ≡ some y → suc j ≡ i → y.key < key)
      → IsFirst c key i
  IsFirst-intro here before = record {
    inside = get_elem?-lt c i x at_i;
    below = λ j y at_j less.
        let (z, at_z) = get_elem?-some c (i - 1) (omega (arith, get_elem?-lt c i x at_i)) in
        omega (
          arith,
          before (i - 1) z at_z (omega arith),
          IsSorted-le c j (i - 1) y z sorted (omega arith) at_j at_z,
        );
    above = λ j y at_j from. omega (arith, IsSorted-le c i j x y sorted from at_i at_j);
  }

  pub IsLast-intro :
      x.key ≤ key
      → ((j : ℕ) (y : KeyOffsetPair) → get_elem? c j ≡ some y → j ≡ suc i → key < y.key)
      → IsLast c key i
  IsLast-intro here behind = record {
    inside = get_elem?-lt c i x at_i;
    below = λ j y at_j to. omega (arith, IsSorted-le c j i y x sorted to at_j at_i);
    above = λ j y at_j more.
        let (z, at_z) = get_elem?-some c (suc i) (omega (arith, get_elem?-lt c j y at_j)) in
        omega (
          arith,
          behind (suc i) z at_z refl,
          IsSorted-le c (suc i) j z y sorted (omega arith) at_z at_j,
        );
  }

-- The range between the two is what lies between the keys.
pub between-take :
    (c : List KeyOffsetPair) (lhs_key rhs_key l u : ℕ)
    → lhs_key ≤ rhs_key
    → IsFirst c lhs_key l
    → IsLast c rhs_key u
    → (l ≤ u + 1) × (take (u + 1 - l) (offsets_of (drop l c)) ≡ between lhs_key rhs_key c)
between-take c lhs_key rhs_key l u ordered first last = (
  not_apart,
  take-offsets_of (u + 1 - l) (drop l c)
      ∙ ap offsets_of (
          sym (
            select_middle (in_range lhs_key rhs_key) c l (u + 1 - l)
              (λ j x e h. ground (arith, first.below j x e h))
              (λ j x e from to.
                ground (arith, first.above j x e from, last.below j x e (omega (arith, not_apart))))
              (λ j x e h. ground (arith, last.above j x e (omega (arith, not_apart)))))),
)
  where
    not_apart : l ≤ u + 1
    not_apart = elim (dec_lt (u + 1) l) [
      | no h ↦ omega arith
      | yes h ↦
          let (x, e) = get_elem?-some c (u + 1) (omega (arith, first.inside)) in
          absurd (omega (arith, first.below (u + 1) x e h, last.above (u + 1) x e (omega arith)))
    ]
