-- ===== src/Static/Reorganize/Sorted.antt =====
-- `base_reorganize` of src/base_static_index.h leaves the pairs of all tuples, sorted.
use mathlib.Core.List.Perm
use mathlib.Core.Nat as Unary
use mathlib.Core.List as Lists
use mathlib.Core.List.{append-nil, append_assoc}
use index_zoo.Base.{
  arith, ℕ, suc, ◌+◌, ◌<◌, ◌≤◌, ◌≡◌, refl, sym, ap, ◌∙◌, List, [], ◌∷◌, ◌++◌, length, length-append,
  lt→ltb, Run, done, fail, Returns, ◌>>=◌, Perm,
}
use index_zoo.Table.Generic.{GenericDataTable, size}
use index_zoo.Table.Generic.Valid.{IsValid}
use index_zoo.Table.Iterator.{IteratorEntry, TableIterator, new_iterator, iterate}
use index_zoo.Table.Iterator.Order.{entries_from}
use index_zoo.Table.Iterator.Start.{iterate_table}
use index_zoo.Table.Iterator.Total.{entries_from-length}
use index_zoo.Static.Entry.{KeyOffsetPair, IsSorted}
use index_zoo.Static.Sorting.{Sorter}
use index_zoo.Static.Reorganize.{pair_of, fill, base_reorganize}

-- The pairs of the entries, in order.
abbrev pub pairs_of : List IteratorEntry → List KeyOffsetPair
pairs_of [] = []
pairs_of (entry ∷ entries) = pair_of entry ∷ pairs_of entries

pub length-pairs_of : (entries : List IteratorEntry) → length (pairs_of entries) ≡ length entries
length-pairs_of [] = refl
length-pairs_of (entry ∷ entries) = ap suc (length-pairs_of entries)

to_native : Unary.ℕ → ℕ
to_native Unary.zero = 0
to_native (Unary.suc n) = suc (to_native n)

length-to_native : (c : List KeyOffsetPair) → length c ≡ to_native (Lists.length c)
unfolding to_native
length-to_native [] = refl
length-to_native (x ∷ c) = ap suc (length-to_native c)

pub Perm-length : (c d : List KeyOffsetPair) → Perm c d → length c ≡ length d
Perm-length c d p = length-to_native c ∙ ap to_native (Perm.length-eq p) ∙ sym (length-to_native d)

fill_lem :
    (capacity : ℕ) (c : List KeyOffsetPair) (entries : List IteratorEntry)
    → length c + length entries ≤ capacity
    → fill capacity c entries ≡ done (c ++ pairs_of entries)
unfolding fill
fill_lem capacity c [] h = ap done (sym (append-nil c))
fill_lem capacity c (entry ∷ entries) h =
    rw
      (
        lt→ltb (length c) capacity (omega arith),
        fill_lem capacity (c ++ pair_of entry ∷ []) entries
            (omega (arith, length-append c (pair_of entry ∷ []))),
      )
      (ap done (append_assoc c (pair_of entry ∷ []) (pairs_of entries)))

-- What `base_reorganize` leaves for the entries of the table.
pub record Sorts (t : GenericDataTable) (n : ℕ) (c : List KeyOffsetPair) : Type 0 where
  pub entries : List IteratorEntry
  pub all : entries_from t 0 n ≡ done entries
  pub count_is : length c ≡ n
  pub same : Perm c (pairs_of entries)
  pub sorted : IsSorted c

bind_assoc :
    (m : Run TableIterator) (f : TableIterator → Run (List IteratorEntry))
    (g : List IteratorEntry → Run (List KeyOffsetPair))
    → (m >>= (λ it. f it >>= g)) ≡ ((m >>= f) >>= g)
bind_assoc (done it) f g = refl
bind_assoc (fail e) f g = refl

module _ (std : Sorter) (t : GenericDataTable) (v : IsValid t) (n : ℕ) (counted : size t ≡ done n)
    (held : 0 < n) where
  from_entries :
      (r : Run (List IteratorEntry))
      → entries_from t 0 n ≡ r
      → Returns r (λ entries. length entries ≡ n)
      → Returns
          (r >>= λ entries. fill n [] entries >>= λ filled. done (std.sort filled))
          (Sorts t n)
  from_entries (fail e) is_run h = absurd h
  from_entries (done entries) is_run h = rw (fill_lem n [] entries (omega arith)) (record {
    entries = entries;
    all = is_run;
    count_is =
        Perm-length (std.sort (pairs_of entries)) (pairs_of entries)
          (std.sort-perm (pairs_of entries))
        ∙ length-pairs_of entries
        ∙ h;
    same = std.sort-perm (pairs_of entries);
    sorted = std.sort-IsSorted (pairs_of entries);
  })

  -- For any sort with the laws of `std::sort`, `base_reorganize` of an index that is empty, on a
  -- valid table of `n` tuples, `n` above 0, ends normally, writes inside its array only, and
  -- leaves `n` pairs in the order of their keys: a permutation of the keys and offsets that the
  -- iterator visits.
  pub base_reorganize-Sorts : Returns (base_reorganize std [] t) (Sorts t n)
  unfolding base_reorganize
  base_reorganize-Sorts =
      rw
        (
          counted,
          bind_assoc (new_iterator t) (iterate (n + 1) t)
              (λ entries. fill n [] entries >>= λ filled. done (std.sort filled)),
          iterate_table t v n (n + 1) counted held (omega arith),
        )
        (from_entries (entries_from t 0 n) refl (entries_from-length t v n counted))
