-- ===== src/Static/Entry.antt =====
-- The pairs of a static index (src/base_static_index.h), sorted arrays of them, and what a lookup
-- is to find.
pub mod Absent
pub mod Between
use mathlib.Core.List.{reverse-append, reverse-reverse}
use index_zoo.Base.{
  ℕ, zero, suc, ◌<◌, ◌≤◌, ◌≡◌, ◌≢◌, refl, sym, ap, ◌∙◌, List, [], ◌∷◌, ◌++◌, reverse, arith, length,
  get_elem?, some, ◌⊎◌, inl, inr, Bool, ◌==◌, ltb, select, take_while, take, drop, ℕ_discrete,
  get_elem?-lt, ◌-◌,
}

-- `struct KeyOffsetPair`
pub record KeyOffsetPair : Type 0 where
  pub key : ℕ
  pub offset : ℕ

-- `compare_func`
abbrev pub compare_func : KeyOffsetPair → KeyOffsetPair → Bool
compare_func lhs rhs = ltb lhs.key rhs.key

abbrev pub AllFrom : ℕ → List KeyOffsetPair → Type 0
AllFrom k [] = Unit
AllFrom k (x ∷ xs) = (k ≤ x.key) × AllFrom k xs

abbrev pub AllUpTo : ℕ → List KeyOffsetPair → Type 0
AllUpTo k [] = Unit
AllUpTo k (x ∷ xs) = (x.key ≤ k) × AllUpTo k xs

abbrev pub IsSorted : List KeyOffsetPair → Type 0
IsSorted [] = Unit
IsSorted (x ∷ xs) = AllFrom x.key xs × IsSorted xs

abbrev pub has_key : ℕ → KeyOffsetPair → Bool
has_key k x = x.key == k

abbrev pub offsets_of : List KeyOffsetPair → List ℕ
offsets_of [] = []
offsets_of (x ∷ xs) = x.offset ∷ offsets_of xs

-- The offsets of the pairs with key `k`, in the order of the array: what `find` is to return.
abbrev pub matching : ℕ → List KeyOffsetPair → List ℕ
matching k c = offsets_of (select (has_key k) c)

pub offsets_of-append :
    (xs ys : List KeyOffsetPair) → offsets_of (xs ++ ys) ≡ offsets_of xs ++ offsets_of ys
offsets_of-append [] ys = refl
offsets_of-append (x ∷ xs) ys = ap (λ l. x.offset ∷ l) (offsets_of-append xs ys)

AllFrom-get :
    (k : ℕ) (c : List KeyOffsetPair) (i : ℕ) (x : KeyOffsetPair)
    → AllFrom k c
    → get_elem? c i ≡ some x
    → k ≤ x.key
AllFrom-get k [] i x a h = cc
AllFrom-get k (y ∷ c) zero x a h = ground arith
AllFrom-get k (y ∷ c) (suc i) x a h = AllFrom-get k c i x a.1 h

-- Keys grow with the index.
pub IsSorted-le :
    (c : List KeyOffsetPair) (i j : ℕ) (x y : KeyOffsetPair)
    → IsSorted c
    → i ≤ j
    → get_elem? c i ≡ some x
    → get_elem? c j ≡ some y
    → x.key ≤ y.key
IsSorted-le [] i j x y s h p q = cc
IsSorted-le (z ∷ c) zero zero x y s h p q = ground arith
IsSorted-le (z ∷ c) zero (suc j) x y s h p q = ground (arith, AllFrom-get z.key c j y s.0 q)
IsSorted-le (z ∷ c) (suc i) zero x y s h p q = absurd (omega arith)
IsSorted-le (z ∷ c) (suc i) (suc j) x y s h p q = IsSorted-le c i j x y s.1 (omega arith) p q

pub AllFrom-trans : (j k : ℕ) (c : List KeyOffsetPair) → j ≤ k → AllFrom k c → AllFrom j c
AllFrom-trans j k [] h a = tt
AllFrom-trans j k (x ∷ c) h a = (omega arith, AllFrom-trans j k c h a.1)

-- Of pairs with larger keys none is selected.
pub select-above :
    (k j : ℕ) (c : List KeyOffsetPair) → k < j → AllFrom j c → select (has_key k) c ≡ []
select-above k j [] h a = refl
select-above k j (x ∷ c) h a = ground (arith, select-above k j c h)

-- In a sorted array that starts at `k`, the pairs with key `k` stand in front.
pub select-take_while :
    (k : ℕ) (c : List KeyOffsetPair)
    → IsSorted c
    → AllFrom k c
    → select (has_key k) c ≡ take_while (has_key k) c
select-take_while k [] s a = refl
select-take_while k (x ∷ c) s a = ground (arith, select-take_while k c s.1, select-above k x.key c)

take_while-append_fail :
    (k : ℕ) (c : List KeyOffsetPair) (x : KeyOffsetPair)
    → x.key ≢ k
    → take_while (has_key k) (c ++ x ∷ []) ≡ take_while (has_key k) c
take_while-append_fail k [] x h = ground arith
take_while-append_fail k (y ∷ c) x h = ground (arith, take_while-append_fail k c x h)

-- All keys are `k`.
abbrev pub AllAt : ℕ → List KeyOffsetPair → Type 0
AllAt k [] = Unit
AllAt k (x ∷ xs) = (x.key ≡ k) × AllAt k xs

AllAt-append : (k : ℕ) (c d : List KeyOffsetPair) → AllAt k c → AllAt k d → AllAt k (c ++ d)
AllAt-append k [] d a b = b
AllAt-append k (x ∷ c) d a b = (a.0, AllAt-append k c d a.1 b)

AllAt-reverse : (k : ℕ) (c : List KeyOffsetPair) → AllAt k c → AllAt k (reverse c)
AllAt-reverse k [] a = tt
AllAt-reverse k (x ∷ c) a =
    rw (reverse-append (x ∷ []) c)
      (AllAt-append k (reverse c) (x ∷ []) (AllAt-reverse k c a.1) (a.0, tt))

take_while-AllAt : (k : ℕ) (c : List KeyOffsetPair) → AllAt k c → take_while (has_key k) c ≡ c
take_while-AllAt k [] a = refl
take_while-AllAt k (x ∷ c) a = ground (arith, take_while-AllAt k c a.1)

pub select-AllAt : (k : ℕ) (c : List KeyOffsetPair) → AllAt k c → select (has_key k) c ≡ c
select-AllAt k [] a = refl
select-AllAt k (x ∷ c) a = ground (arith, select-AllAt k c a.1)

pub AllAt-between : (k : ℕ) (c : List KeyOffsetPair) → AllFrom k c → AllUpTo k c → AllAt k c
AllAt-between k [] a b = tt
AllAt-between k (x ∷ c) a b = (omega arith, AllAt-between k c a.1 b.1)

-- In a sorted array that ends at `k`, the pairs with key `k` stand at the end.
pub select-take_while-reverse :
    (k : ℕ) (c : List KeyOffsetPair)
    → IsSorted c
    → AllUpTo k c
    → reverse (take_while (has_key k) (reverse c)) ≡ select (has_key k) c
select-take_while-reverse k [] s a = refl
select-take_while-reverse k (x ∷ c) s a = elim (ℕ_discrete x.key k) [
  | yes here ↦
      let all : AllAt k (x ∷ c) =
        AllAt-between k (x ∷ c) (omega arith, AllFrom-trans k x.key c (omega arith) s.0) a in
      rw
        (
          take_while-AllAt k (reverse (x ∷ c)) (AllAt-reverse k (x ∷ c) all),
          reverse-reverse (x ∷ c),
        )
        (sym (select-AllAt k (x ∷ c) all))
  | no other ↦
      ap reverse (
        ap (take_while (has_key k)) (reverse-append (x ∷ []) c)
        ∙ take_while-append_fail k (reverse c) x other)
      ∙ select-take_while-reverse k c s.1 a.1
      ∙ ground arith
]

-- The parts of a sorted array before and behind an index.
pub IsSorted-take : (n : ℕ) (c : List KeyOffsetPair) → IsSorted c → IsSorted (take n c)
IsSorted-take zero c s = tt
IsSorted-take (suc n) [] s = tt
IsSorted-take (suc n) (x ∷ c) s = (AllFrom-take x.key n c s.0, IsSorted-take n c s.1)
  where
    AllFrom-take : (k m : ℕ) (d : List KeyOffsetPair) → AllFrom k d → AllFrom k (take m d)
    AllFrom-take k zero d a = tt
    AllFrom-take k (suc m) [] a = tt
    AllFrom-take k (suc m) (y ∷ d) a = (a.0, AllFrom-take k m d a.1)

pub IsSorted-drop : (n : ℕ) (c : List KeyOffsetPair) → IsSorted c → IsSorted (drop n c)
IsSorted-drop zero c s = s
IsSorted-drop (suc n) [] s = tt
IsSorted-drop (suc n) (x ∷ c) s = IsSorted-drop n c s.1

pub take-AllUpTo :
    (n : ℕ) (c : List KeyOffsetPair) (x : KeyOffsetPair)
    → IsSorted c
    → get_elem? c n ≡ some x
    → AllUpTo x.key (take n c)
take-AllUpTo zero c x s h = tt
take-AllUpTo (suc n) [] x s h = tt
take-AllUpTo (suc n) (y ∷ c) x s h = (AllFrom-get y.key c n x s.0 h, take-AllUpTo n c x s.1 h)

pub drop-AllFrom :
    (n : ℕ) (c : List KeyOffsetPair) (x : KeyOffsetPair)
    → IsSorted c
    → get_elem? c n ≡ some x
    → AllFrom x.key (drop (suc n) c)
drop-AllFrom n [] x s h = cc
drop-AllFrom zero (y ∷ c) x s h = let same : y ≡ x = cc in rw (← same) s.0
drop-AllFrom (suc n) (y ∷ c) x s h = drop-AllFrom n c x s.1 h

-- `key_min_` and `key_max_` as `reorganize` sets them: the keys of the first and the last pair.
pub record IsBounds (c : List KeyOffsetPair) (key_min key_max : ℕ) : Type 0 where
  pub first : KeyOffsetPair
  pub last : KeyOffsetPair
  pub at_first : get_elem? c 0 ≡ some first
  pub at_last : get_elem? c (length c - 1) ≡ some last
  pub min_is : key_min ≡ first.key
  pub max_is : key_max ≡ last.key

pub key_in_bounds :
    (c : List KeyOffsetPair) (key_min key_max i : ℕ) (x : KeyOffsetPair)
    → IsSorted c
    → IsBounds c key_min key_max
    → get_elem? c i ≡ some x
    → (key_min ≤ x.key) × (x.key ≤ key_max)
key_in_bounds c key_min key_max i x s bounds at_i = (
  omega
      (arith, bounds.min_is, IsSorted-le c 0 i bounds.first x s (omega arith) bounds.at_first at_i),
  omega (
    arith,
    bounds.max_is,
    IsSorted-le c i (length c - 1) x bounds.last s (omega (arith, get_elem?-lt c i x at_i)) at_i
        bounds.at_last,
  ),
)
