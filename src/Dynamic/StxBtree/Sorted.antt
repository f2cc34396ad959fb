-- ===== src/Dynamic/StxBtree/Sorted.antt =====
-- A sorted list meets the laws that the index over the STX B+ tree
-- (src/dynamic_index/singlethread/stx_btree_index.h) relies on.
use mathlib.Core.List.Perm
use index_zoo.Base.{
  arith, ℕ, zero, suc, ◌≤◌, ◌<◌, ◌≡◌, refl, [], ◌∷◌, length, get_elem?, some, Bool, true, false,
  not, if◌then◌else◌, Bool-cases, inl, inr, Perm,
}
use index_zoo.Dynamic.Keys.{Keys}
use index_zoo.Dynamic.Spec.{Entries, without}
use index_zoo.Dynamic.StxBtree.{IsOrdered, IsLowerBound, IsUpperBound, Multimap}

module _ (keys : Keys) where
  open keys use {Key, less, equals}

  -- Behind the entries with smaller or equal keys.
  abbrev pub put : Key × ℕ → Entries keys → Entries keys
  put x [] = x ∷ []
  put x (y ∷ m) = if less x.0 y.0 then x ∷ y ∷ m else y ∷ put x m

  -- No key of the list is below `k`.
  abbrev pub AllFrom : Key → Entries keys → Type 0
  AllFrom k [] = Unit
  AllFrom k (x ∷ m) = (less x.0 k ≡ false) × AllFrom k m

  abbrev pub Sorted : Entries keys → Type 0
  Sorted [] = Unit
  Sorted (x ∷ m) = AllFrom x.0 m × Sorted m

  not_below_trans : (a b c : Key) → less b a ≡ false → less c b ≡ false → less c a ≡ false
  not_below_trans a b c h k = elim (Bool-cases (less c a)) [
    | inr f ↦ f
    | inl t ↦ elim (keys.less_split c b a t) [ inl u ↦ cc | inr u ↦ cc ]
  ]

  above : (a b : Key) → less a b ≡ true → less b a ≡ false
  above a b h = elim (Bool-cases (less b a)) [
    | inr f ↦ f
    | inl t ↦
        let loop : less a a ≡ true = keys.less_trans a b a h t in
        let none : less a a ≡ false = keys.less_irrefl a in cc
  ]

  AllFrom-trans : (a b : Key) (m : Entries keys) → less b a ≡ false → AllFrom b m → AllFrom a m
  AllFrom-trans a b [] h all = tt
  AllFrom-trans a b (x ∷ m) h all = (not_below_trans a b x.0 h all.0, AllFrom-trans a b m h all.1)

  AllFrom-get :
      (k : Key) (m : Entries keys) (j : ℕ) (x : Key × ℕ)
      → AllFrom k m
      → get_elem? m j ≡ some x
      → less x.0 k ≡ false
  AllFrom-get k [] j x all e = cc
  AllFrom-get k (y ∷ m) zero x all e = let same : y ≡ x = cc in rw (← same) all.0
  AllFrom-get k (y ∷ m) (suc j) x all e = AllFrom-get k m j x all.1 e

  put-AllFrom :
      (k : Key) (x : Key × ℕ) (m : Entries keys)
      → less x.0 k ≡ false
      → AllFrom k m
      → AllFrom k (put x m)
  put-AllFrom k x [] h all = (h, tt)
  put-AllFrom k x (y ∷ m) h all = elim (Bool-cases (less x.0 y.0)) [
    | inl before ↦ rw before (h, all)
    | inr behind ↦ rw behind (all.0, put-AllFrom k x m h all.1)
  ]

  pub put-Sorted : (x : Key × ℕ) (m : Entries keys) → Sorted m → Sorted (put x m)
  put-Sorted x [] s = (tt, tt)
  put-Sorted x (y ∷ m) s = elim (Bool-cases (less x.0 y.0)) [
    | inl before ↦
        rw before ((above x.0 y.0 before, AllFrom-trans x.0 y.0 m (above x.0 y.0 before) s.0), s)
    | inr behind ↦ rw behind (put-AllFrom y.0 x m behind s.0, put-Sorted x m s.1)
  ]

  pub put-perm : (x : Key × ℕ) (m : Entries keys) → Perm (put x m) (x ∷ m)
  put-perm x [] = Perm.refl (x ∷ [])
  put-perm x (y ∷ m) = elim (Bool-cases (less x.0 y.0)) [
    | inl before ↦ rw before (Perm.refl (x ∷ y ∷ m))
    | inr behind ↦ rw behind (Perm.trans (Perm.cons y (put-perm x m)) (Perm.swap x y m))
  ]

  without-AllFrom : (k j : Key) (m : Entries keys) → AllFrom k m → AllFrom k (without keys j m)
  without-AllFrom k j [] all = tt
  without-AllFrom k j (x ∷ m) all = elim (Bool-cases (equals x.0 j)) [
    | inl hit ↦ rw hit (without-AllFrom k j m all.1)
    | inr miss ↦ rw miss (all.0, without-AllFrom k j m all.1)
  ]

  pub without-Sorted : (k : Key) (m : Entries keys) → Sorted m → Sorted (without keys k m)
  without-Sorted k [] s = tt
  without-Sorted k (x ∷ m) s = elim (Bool-cases (equals x.0 k)) [
    | inl hit ↦ rw hit (without-Sorted k m s.1)
    | inr miss ↦ rw miss (without-AllFrom x.0 k m s.0, without-Sorted k m s.1)
  ]

  pub Sorted-IsOrdered : (m : Entries keys) → Sorted m → IsOrdered keys m
  Sorted-IsOrdered [] s i j x y h e f = cc
  Sorted-IsOrdered (z ∷ m) s zero zero x y h e f =
      let same : x ≡ y = cc in rw same (keys.less_irrefl y.0)
  Sorted-IsOrdered (z ∷ m) s zero (suc j) x y h e f =
      let same : z ≡ x = cc in rw (← same) (AllFrom-get z.0 m j y s.0 f)
  Sorted-IsOrdered (z ∷ m) s (suc i) zero x y h e f = absurd (omega arith)
  Sorted-IsOrdered (z ∷ m) s (suc i) (suc j) x y h e f =
      Sorted-IsOrdered m s.1 i j x y (omega arith) e f

  -- The number of entries before the bound.
  abbrev pub count_below : (Key × ℕ → Bool) → Entries keys → ℕ
  count_below p [] = 0
  count_below p (x ∷ m) = if p x then suc (count_below p m) else 0

  count_below-le : (p : Key × ℕ → Bool) (m : Entries keys) → count_below p m ≤ length m
  count_below-le p [] = omega arith
  count_below-le p (x ∷ m) = ground (arith, count_below-le p m)

  count_below-hit :
      (p : Key × ℕ → Bool) (m : Entries keys) (j : ℕ) (x : Key × ℕ)
      → get_elem? m j ≡ some x
      → j < count_below p m
      → p x ≡ true
  count_below-hit p [] j x e h = cc
  count_below-hit p (y ∷ m) zero x e h = elim (Bool-cases (p y)) [
    | inl t ↦ let same : y ≡ x = cc in rw (← same) t
    | inr f ↦ let none : 0 < 0 = rw f at h in absurd (omega arith)
  ]
  count_below-hit p (y ∷ m) (suc j) x e h = elim (Bool-cases (p y)) [
    | inl t ↦
        let more : suc j < suc (count_below p m) = rw t at h in
        count_below-hit p m j x e (omega arith)
    | inr f ↦ let none : suc j < 0 = rw f at h in absurd (omega arith)
  ]

  -- A test that stays false along the order.
  count_below-miss :
      (p : Key × ℕ → Bool)
      → ((y x : Key × ℕ) → p y ≡ false → less x.0 y.0 ≡ false → p x ≡ false)
      → (m : Entries keys) → Sorted m
      → (j : ℕ) (x : Key × ℕ) → get_elem? m j ≡ some x
      → count_below p m ≤ j
      → p x ≡ false
  count_below-miss p stays [] s j x e h = cc
  count_below-miss p stays (y ∷ m) s zero x e h = elim (Bool-cases (p y)) [
    | inl t ↦ let none : suc (count_below p m) ≤ 0 = rw t at h in absurd (omega arith)
    | inr f ↦ let same : y ≡ x = cc in rw (← same) f
  ]
  count_below-miss p stays (y ∷ m) s (suc j) x e h = elim (Bool-cases (p y)) [
    | inl t ↦
        let more : suc (count_below p m) ≤ suc j = rw t at h in
        count_below-miss p stays m s.1 j x e (omega arith)
    | inr f ↦ stays y x f (AllFrom-get y.0 m j x s.0 e)
  ]

  not-false : (b : Bool) → not b ≡ false → b ≡ true
  not-false true h = refl
  not-false false h = cc

  not-true : (b : Bool) → not b ≡ true → b ≡ false
  not-true true h = cc
  not-true false h = refl

  abbrev pub first_from : Entries keys → Key → ℕ
  first_from m k = count_below (λ x. less x.0 k) m

  abbrev pub first_past : Entries keys → Key → ℕ
  first_past m k = count_below (λ x. not (less k x.0)) m

  pub first_from-IsLowerBound :
      (m : Entries keys) (k : Key) → Sorted m → IsLowerBound keys m k (first_from m k)
  first_from-IsLowerBound m k s = record {
    inside = count_below-le (λ x. less x.0 k) m;
    below = λ j x e h. count_below-hit (λ z. less z.0 k) m j x e h;
    above = λ j x e h. count_below-miss (λ z. less z.0 k) stays m s j x e h;
  }
    where
      stays : (y x : Key × ℕ) → less y.0 k ≡ false → less x.0 y.0 ≡ false → less x.0 k ≡ false
      stays y x f g = not_below_trans k y.0 x.0 f g

  pub first_past-IsUpperBound :
      (m : Entries keys) (k : Key) → Sorted m → IsUpperBound keys m k (first_past m k)
  first_past-IsUpperBound m k s = record {
    inside = count_below-le (λ x. not (less k x.0)) m;
    below = λ j x e h. not-true (less k x.0) (count_below-hit (λ z. not (less k z.0)) m j x e h);
    above = λ j x e h.
        not-false (less k x.0) (count_below-miss (λ z. not (less k z.0)) stays m s j x e h);
  }
    where
      stays :
          (y x : Key × ℕ)
          → not (less k y.0) ≡ false
          → less x.0 y.0 ≡ false
          → not (less k x.0) ≡ false
      stays y x f g = elim (keys.less_split k x.0 y.0 (not-false (less k y.0) f)) [
        | inl t ↦ rw t refl
        | inr t ↦ cc
      ]

  abbrev pub sorted_list : Multimap keys
  sorted_list = record {
    Container = (m : Entries keys) × Sorted m;
    empty = ([], tt);
    insert = λ c x. (put x c.0, put-Sorted x c.0 c.1);
    erase = λ c k. (without keys k c.0, without-Sorted k c.0 c.1);
    size = λ c. length c.0;
    lower_bound = λ c k. first_from c.0 k;
    upper_bound = λ c k. first_past c.0 k;
    equal_range = λ c k. (first_from c.0 k, first_past c.0 k);
    entries = λ c. c.0;
    ordered = λ c. Sorted-IsOrdered c.0 c.1;
    empty-entries = refl;
    insert-perm = λ c x. put-perm x c.0;
    erase-entries = λ c k. refl;
    size-entries = λ c. refl;
    lower_bound-IsLowerBound = λ c k. first_from-IsLowerBound c.0 k c.1;
    upper_bound-IsUpperBound = λ c k. first_past-IsUpperBound c.0 k c.1;
    equal_range-eq = λ c k. refl;
  }
