-- ===== src/Static/Binary/Lookup.antt =====
-- A lookup in a binary index over a table: `reorganize` and then `find` of
-- src/static_index/binary_index.h.
use mathlib.Core.List.Perm
use index_zoo.Base.{
  ℕ, ◌-◌, ◌^◌, ◌≤◌, ◌≡◌, sym, ◌∙◌, List, [], ◌++◌, get_elem?, some, done, Returns, Returns-bind,
  Returns-map, ◌>>=◌, Perm, inl, inr,
}
use index_zoo.Table.Generic.{GenericDataTable, size}
use index_zoo.Table.Generic.Valid.{IsValid}
use index_zoo.Table.Iterator.{IteratorEntry}
use index_zoo.Table.Iterator.Order.{entries_from}
use index_zoo.Static.Entry.{KeyOffsetPair, matching}
use index_zoo.Static.Entry.Absent.{present_or_absent, matching-absent}
use index_zoo.Static.Sorting.{Sorter}
use index_zoo.Static.Reorganize.Sorted.{pairs_of}
use index_zoo.Static.Reorganize.Matching.{matching-some, Sorts-matching}
use index_zoo.Static.Binary.{BinaryIndex, new_index, reorganize, find}
use index_zoo.Static.Binary.Reorganize.{Reorganized, reorganize-Reorganized}
use index_zoo.Static.Binary.Laws.{find-present, find_no_layers}

module _ (std : Sorter) (layers n : ℕ) (t : GenericDataTable) (v : IsValid t)
    (counted : size t ≡ done n) (few : 2 ^ layers ≤ n) (small : n ≤ 2 ^ 30 - 1)
    (entries : List IteratorEntry) (all : entries_from t 0 n ≡ done entries) (key : ℕ)
    (out : List ℕ) where
  abbrev Answer : List ℕ → Type 0
  Answer r = Perm r (out ++ matching key (pairs_of entries))

  moved :
      (index : BinaryIndex)
      → Reorganized t n layers index
      → Perm (matching key index.container) (matching key (pairs_of entries))
  moved index r = Sorts-matching t n index.container r.sorts entries all key

  as-Answer :
      (index : BinaryIndex)
      → Reorganized t n layers index
      → Returns (find index key out) (λ r. Perm r (out ++ matching key index.container))
      → Returns (find index key out) Answer
  as-Answer index r h =
      Returns-map (find index key out)
        (λ res p. Perm.trans p (Perm.append_left out (moved index r))) h

  nothing :
      (index : BinaryIndex)
      → Reorganized t n layers index
      → matching key index.container ≡ []
      → matching key (pairs_of entries) ≡ []
  nothing index r none_there = sym (Perm.nil-eq (rw none_there at (moved index r)))

  -- For any sort with the laws of `std::sort` and a valid table of `n` tuples, where 2^layers ≤ n
  -- < 2^30: in the index that `reorganize` builds from a new one with that many layers, the lookup
  -- of the key of some tuple of the table ends normally and adds the offsets of all tuples with
  -- the key, each once.
  pub reorganize_find :
      (i : ℕ) (x : KeyOffsetPair)
      → get_elem? (pairs_of entries) i ≡ some x
      → x.key ≡ key
      → Returns
          (reorganize std (new_index layers) t >>= λ index. find index key out)
          (λ r. Perm r (out ++ matching key (pairs_of entries)))
  reorganize_find i x at_i same =
      Returns-bind (Reorganized t n layers) Answer (reorganize std (new_index layers) t)
        (λ index. find index key out) (reorganize-Reorganized std layers n t v counted few small)
        (λ index r. as-Answer index r (elim (present_or_absent key index.container) [
          | inl (j, y, at_j, same_y) ↦ find-present index r.built key out j y at_j same_y
          | inr absent ↦ absurd (
              matching-some key (pairs_of entries) i x at_i same
                (nothing index r (matching-absent key index.container absent)))
        ]))

  -- For any sort with the laws of `std::sort` and a valid table of `n` tuples, where 0 < n < 2^30:
  -- in the index that `reorganize` builds from a new one with no layers, the lookup of any key
  -- ends normally and adds the offsets of exactly the tuples with the key, each once; none if no
  -- tuple has it.
  pub reorganize_find_no_layers :
      layers ≡ 0
      → Returns
          (reorganize std (new_index layers) t >>= λ index. find index key out)
          (λ r. Perm r (out ++ matching key (pairs_of entries)))
  reorganize_find_no_layers none_at_all =
      Returns-bind (Reorganized t n layers) Answer (reorganize std (new_index layers) t)
        (λ index. find index key out) (reorganize-Reorganized std layers n t v counted few small)
        (λ index r.
          as-Answer index r (find_no_layers index r.built key out (r.same_layers ∙ none_at_all)))
