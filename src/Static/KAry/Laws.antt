-- ===== src/Static/KAry/Laws.antt =====
-- A lookup in a k-ary index without inner layers over a table: `reorganize` and then `find` of
-- src/static_index/kary_index.h.
use mathlib.Core.List.Perm
use native.Mathlib.Numerals.{add-one}
use native.Mathlib.Nat.{pow-zero}
use index_zoo.Base.{
  arith, ℕ, ◌+◌, ◌-◌, ◌^◌, ◌<◌, ◌≤◌, ◌≡◌, refl, List, [], ◌++◌, length, get_elem?, get_elem?-some,
  some, le→leb, lt→ltb, done, Returns, Returns-bind, Returns-map, ◌>>=◌, pos, before_pos,
  to_int_small, Perm,
}
use index_zoo.Table.Generic.{GenericDataTable, size}
use index_zoo.Table.Generic.Valid.{IsValid}
use index_zoo.Table.Iterator.{IteratorEntry}
use index_zoo.Table.Iterator.Order.{entries_from}
use index_zoo.Static.Entry.{KeyOffsetPair, matching}
use index_zoo.Static.Find.{find_by}
use index_zoo.Static.Find.Flat.{find_flat}
use index_zoo.Static.Sorting.{Sorter}
use index_zoo.Static.Reorganize.{base_reorganize}
use index_zoo.Static.Reorganize.Sorted.{Sorts, base_reorganize-Sorts, pairs_of}
use index_zoo.Static.Reorganize.Matching.{Sorts-matching}
use index_zoo.Static.KAry.{KAryIndex, new_index, reorganize, find, find_inner_layers}

no_layers :
    (index : KAryIndex) (key : ℕ)
    → index.num_layers ≡ 0
    → length index.container ≤ 2 ^ 30 - 1
    → find_inner_layers index key ≡ done (pos 0, before_pos (length index.container + 1))
unfolding find_inner_layers
no_layers index key none_at_all small =
    rw (add-one (length index.container))
      (ground (arith, none_at_all, to_int_small (length index.container), small))

module _ (std : Sorter) (arys n : ℕ) (t : GenericDataTable) (v : IsValid t)
    (counted : size t ≡ done n) (several : 2 ≤ arys) (held : 0 < n) (small : n ≤ 2 ^ 30 - 1)
    (entries : List IteratorEntry) (all : entries_from t 0 n ≡ done entries) (key : ℕ)
    (out : List ℕ) where
  abbrev flat : List KeyOffsetPair → KeyOffsetPair → KeyOffsetPair → KAryIndex
  flat c first last = record {
    num_layers = 0;
    num_arys = arys;
    container = c;
    key_min = first.key;
    key_max = last.key;
    inner_nodes = [];
    inner_node_count = arys ^ 0 - 1;
  }

  flat_find :
      (c : List KeyOffsetPair) (first last : KeyOffsetPair)
      → Sorts t n c
      → get_elem? c 0 ≡ some first
      → get_elem? c (length c - 1) ≡ some last
      → Returns
          (find (flat c first last) key out)
          (λ r. Perm r (out ++ matching key (pairs_of entries)))
  unfolding find
  flat_find c first last s at_first at_last =
      Returns-map (find_by c first.key last.key (find_inner_layers (flat c first last)) key out)
        (λ r p. Perm.trans p (Perm.append_left out (Sorts-matching t n c s entries all key)))
        (find_flat c first.key last.key (find_inner_layers (flat c first last)) key out s.sorted
          (record {
            first = first;
            last = last;
            at_first = at_first;
            at_last = at_last;
            min_is = refl;
            max_is = refl;
          })
          (omega (arith, s.count_is))
          (no_layers (flat c first last) key refl (omega (arith, s.count_is))))

  -- A k-ary index with no layers, any number of children from two on and any sort with the laws of
  -- `std::sort`, on a valid table of `n` tuples, 0 < n < 2^30: making it, reorganizing it and
  -- looking a key up ends normally, and adds the offsets of exactly the tuples with the key, each
  -- once.
  pub kary_find_no_layers :
      Returns
        (new_index 0 arys >>= λ index. reorganize std index t >>= λ built. find built key out)
        (λ r. Perm r (out ++ matching key (pairs_of entries)))
  unfolding new_index reorganize
  kary_find_no_layers = rw (le→leb 2 arys several) (
      Returns-bind
        (λ built.
          Returns (find built key out) (λ r. Perm r (out ++ matching key (pairs_of entries))))
        (λ r. Perm r (out ++ matching key (pairs_of entries))) _ (λ built. find built key out)
        (Returns-bind (Sorts t n)
          (λ built.
            Returns (find built key out) (λ r. Perm r (out ++ matching key (pairs_of entries))))
          (base_reorganize std [] t) _ (base_reorganize-Sorts std t v n counted held)
          (λ c s.
            let (first, at_first) = get_elem?-some c 0 (omega (arith, s.count_is)) in
            let (last, at_last) = get_elem?-some c (length c - 1) (omega (arith, s.count_is)) in
            rw
              (
                lt→ltb (arys ^ 0 - 1) (length c) (omega (arith, s.count_is, pow-zero arys)),
                at_first,
                at_last,
              )
              (flat_find c first last s at_first at_last)))
        (λ built h. h))
