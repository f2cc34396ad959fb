-- ===== src/Static/Reorganize.antt =====
-- `base_reorganize` of src/base_static_index.h: the pairs of all tuples of the table, sorted.
pub mod Sorted
pub mod Matching
use index_zoo.Base.{
  ℕ, ◌+◌, List, [], ◌∷◌, ◌++◌, length, ltb, ◌==◌, if◌then◌else◌, Run, done, fail, out_of_bounds,
  assert, ◌>>=◌, ◌>>◌,
}
use index_zoo.Table.Generic.{GenericDataTable, size}
use index_zoo.Table.Iterator.{IteratorEntry, new_iterator, iterate}
use index_zoo.Table.Numeric.{from_bytes}
use index_zoo.Static.Entry.{KeyOffsetPair}
use index_zoo.Static.Sorting.{Sorter}

-- `container_[size_].key_ = *(entry.key_)`, `container_[size_].offset_ = entry.offset_`
abbrev pub pair_of : IteratorEntry → KeyOffsetPair
pair_of entry = record { key = from_bytes entry.key; offset = entry.offset }

-- The loop that fills an array of `capacity` pairs; a pair past its end is a fault.
unfoldable pub fill : ℕ → List KeyOffsetPair → List IteratorEntry → Run (List KeyOffsetPair)
fill capacity container [] = done container
fill capacity container (entry ∷ entries) =
    let rest = fill capacity (container ++ pair_of entry ∷ []) entries in
    if ltb (length container) capacity then rest else fail out_of_bounds

-- The array must be empty before.
unfoldable pub base_reorganize :
    Sorter → List KeyOffsetPair → GenericDataTable → Run (List KeyOffsetPair)
base_reorganize std container table = do
  assert (length container == 0)
  capacity ← size table
  iterator ← new_iterator table
  entries ← iterate (capacity + 1) table iterator
  filled ← fill capacity container entries
  done (std.sort filled)
