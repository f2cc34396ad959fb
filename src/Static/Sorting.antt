-- ===== src/Static/Sorting.antt =====
-- `std::sort` with `compare_func`, as src/base_static_index.h calls it: the order that it leaves
-- pairs with equal keys in is not specified, so an index takes any function with these two laws.
use mathlib.Core.List.Perm
use index_zoo.Base.{ℕ, ◌≤◌, List, [], ◌∷◌, arith, if◌then◌else◌, Perm, Bool-cases, inl, inr}
use index_zoo.Static.Entry.{KeyOffsetPair, IsSorted, AllFrom, AllFrom-trans, compare_func}

pub record Sorter : Type 0 where
  pub sort : List KeyOffsetPair → List KeyOffsetPair
  pub sort-perm : (c : List KeyOffsetPair) → Perm (sort c) c
  pub sort-IsSorted : (c : List KeyOffsetPair) → IsSorted (sort c)

-- One such function, by insertion: pairs with equal keys keep their order.
unfoldable pub insert_sorted : KeyOffsetPair → List KeyOffsetPair → List KeyOffsetPair
insert_sorted x [] = x ∷ []
insert_sorted x (y ∷ c) = if compare_func y x then y ∷ insert_sorted x c else x ∷ y ∷ c

unfoldable pub insertion_sort : List KeyOffsetPair → List KeyOffsetPair
insertion_sort [] = []
insertion_sort (x ∷ c) = insert_sorted x (insertion_sort c)

insert_sorted-perm : (x : KeyOffsetPair) (c : List KeyOffsetPair) → Perm (insert_sorted x c) (x ∷ c)
unfolding insert_sorted
insert_sorted-perm x [] = Perm.refl (x ∷ [])
insert_sorted-perm x (y ∷ c) = elim (Bool-cases (compare_func y x)) [
  | inl less ↦ rw less (Perm.trans (Perm.cons y (insert_sorted-perm x c)) (Perm.swap x y c))
  | inr not_less ↦ rw not_less (Perm.refl (x ∷ y ∷ c))
]

pub insertion_sort-perm : (c : List KeyOffsetPair) → Perm (insertion_sort c) c
unfolding insertion_sort
insertion_sort-perm [] = Perm.refl []
insertion_sort-perm (x ∷ c) =
    Perm.trans (insert_sorted-perm x (insertion_sort c)) (Perm.cons x (insertion_sort-perm c))

insert_sorted-AllFrom :
    (k : ℕ) (x : KeyOffsetPair) (c : List KeyOffsetPair)
    → k ≤ x.key
    → AllFrom k c
    → AllFrom k (insert_sorted x c)
unfolding insert_sorted
insert_sorted-AllFrom k x [] h a = (h, tt)
insert_sorted-AllFrom k x (y ∷ c) h a = elim (Bool-cases (compare_func y x)) [
  | inl less ↦ rw less (a.0, insert_sorted-AllFrom k x c h a.1)
  | inr not_less ↦ rw not_less (h, a)
]

insert_sorted-IsSorted :
    (x : KeyOffsetPair) (c : List KeyOffsetPair) → IsSorted c → IsSorted (insert_sorted x c)
unfolding insert_sorted
insert_sorted-IsSorted x [] s = (tt, tt)
insert_sorted-IsSorted x (y ∷ c) s = elim (Bool-cases (compare_func y x)) [
  | inl less ↦
      rw less (insert_sorted-AllFrom y.key x c (ground arith) s.0, insert_sorted-IsSorted x c s.1)
  | inr not_less ↦
      let le : x.key ≤ y.key = ground arith in
      rw not_less ((le, AllFrom-trans x.key y.key c le s.0), s)
]

pub insertion_sort-IsSorted : (c : List KeyOffsetPair) → IsSorted (insertion_sort c)
unfolding insertion_sort
insertion_sort-IsSorted [] = tt
insertion_sort-IsSorted (x ∷ c) =
    insert_sorted-IsSorted x (insertion_sort c) (insertion_sort-IsSorted c)

abbrev pub by_insertion : Sorter
by_insertion = record {
  sort = insertion_sort;
  sort-perm = insertion_sort-perm;
  sort-IsSorted = insertion_sort-IsSorted;
}
