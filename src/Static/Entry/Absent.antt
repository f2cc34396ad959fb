-- ===== src/Static/Entry/Absent.antt =====
-- Sorted arrays of src/base_static_index.h in which a key does not occur.
use mathlib.Core.List.{reverse-append}
use index_zoo.Base.{
  ℕ, zero, suc, ◌≡◌, ◌≢◌, refl, ap, List, [], ◌∷◌, ◌++◌, reverse, arith, get_elem?, some, ◌⊎◌, inl,
  inr, select, take_while, take, drop, ℕ_discrete,
}
use index_zoo.Static.Entry.{KeyOffsetPair, has_key, offsets_of, matching, AllAt}

-- Where no pair has the key nothing is selected, from either end.
abbrev pub NoneAt : ℕ → List KeyOffsetPair → Type 0
NoneAt k [] = Unit
NoneAt k (x ∷ xs) = (x.key ≢ k) × NoneAt k xs

pub select-none : (k : ℕ) (c : List KeyOffsetPair) → NoneAt k c → select (has_key k) c ≡ []
select-none k [] a = refl
select-none k (x ∷ c) a = ground (arith, select-none k c)

pub NoneAt-intro :
    (k : ℕ) (c : List KeyOffsetPair)
    → ((i : ℕ) (x : KeyOffsetPair) → get_elem? c i ≡ some x → x.key ≢ k)
    → NoneAt k c
NoneAt-intro k [] h = tt
NoneAt-intro k (x ∷ c) h = (h 0 x refl, NoneAt-intro k c (λ i y e. h (suc i) y e))

pub take_while-none : (k : ℕ) (c : List KeyOffsetPair) → NoneAt k c → take_while (has_key k) c ≡ []
take_while-none k [] a = refl
take_while-none k (x ∷ c) a = ground arith

pub NoneAt-take : (k n : ℕ) (c : List KeyOffsetPair) → NoneAt k c → NoneAt k (take n c)
NoneAt-take k zero c a = tt
NoneAt-take k (suc n) [] a = tt
NoneAt-take k (suc n) (x ∷ c) a = (a.0, NoneAt-take k n c a.1)

pub NoneAt-drop : (k n : ℕ) (c : List KeyOffsetPair) → NoneAt k c → NoneAt k (drop n c)
NoneAt-drop k zero c a = a
NoneAt-drop k (suc n) [] a = tt
NoneAt-drop k (suc n) (x ∷ c) a = NoneAt-drop k n c a.1

NoneAt-append : (k : ℕ) (c d : List KeyOffsetPair) → NoneAt k c → NoneAt k d → NoneAt k (c ++ d)
NoneAt-append k [] d a b = b
NoneAt-append k (x ∷ c) d a b = (a.0, NoneAt-append k c d a.1 b)

pub NoneAt-reverse : (k : ℕ) (c : List KeyOffsetPair) → NoneAt k c → NoneAt k (reverse c)
NoneAt-reverse k [] a = tt
NoneAt-reverse k (x ∷ c) a =
    rw (reverse-append (x ∷ []) c)
      (NoneAt-append k (reverse c) (x ∷ []) (NoneAt-reverse k c a.1) (a.0, tt))

pub AllAt-intro :
    (k : ℕ) (c : List KeyOffsetPair)
    → ((i : ℕ) (x : KeyOffsetPair) → get_elem? c i ≡ some x → x.key ≡ k)
    → AllAt k c
AllAt-intro k [] h = tt
AllAt-intro k (x ∷ c) h = (h 0 x refl, AllAt-intro k c (λ i y e. h (suc i) y e))

none_in_cons :
    (k : ℕ) (y : KeyOffsetPair) (c : List KeyOffsetPair)
    → y.key ≢ k
    → ((i : ℕ) (x : KeyOffsetPair) → get_elem? c i ≡ some x → x.key ≢ k)
    → (i : ℕ) (x : KeyOffsetPair) → get_elem? (y ∷ c) i ≡ some x
    → x.key ≢ k
none_in_cons k y c other absent zero x h = let same : y ≡ x = cc in rw (← same) other
none_in_cons k y c other absent (suc i) x h = absent i x h

-- Either some pair has the key, or none has.
pub present_or_absent :
    (k : ℕ) (c : List KeyOffsetPair)
    → ((i : ℕ) × (x : KeyOffsetPair) × (get_elem? c i ≡ some x) × (x.key ≡ k))
      ⊎ ((i : ℕ) (x : KeyOffsetPair) → get_elem? c i ≡ some x → x.key ≢ k)
present_or_absent k [] = inr (λ i x h. cc)
present_or_absent k (y ∷ c) = elim (ℕ_discrete y.key k) [
  | yes here ↦ inl (0, y, refl, here)
  | no other ↦ elim (present_or_absent k c) [
    | inl p ↦ inl (suc p.0, p.1, p.2, p.3)
    | inr absent ↦ inr (none_in_cons k y c other absent)
  ]
]

pub matching-absent :
    (k : ℕ) (c : List KeyOffsetPair)
    → ((i : ℕ) (x : KeyOffsetPair) → get_elem? c i ≡ some x → x.key ≢ k)
    → matching k c ≡ []
matching-absent k c h = ap offsets_of (select-none k c (NoneAt-intro k c h))
