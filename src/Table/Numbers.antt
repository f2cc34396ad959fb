-- ===== src/Table/Numbers.antt =====
-- `size` and the iterator of the table of numbers (src/data_table.h), whose text is that of the table
-- of byte strings.
use index_zoo.Base.{ℕ, Bool, Run, done, ◌>>=◌}
use index_zoo.Table.Generic.{GenericDataTable, size, size_approx}
use index_zoo.Table.Iterator.{TableIterator, IteratorEntry, new_iterator, has_next, next}
use index_zoo.Table.Numeric.{from_bytes}

-- `size()`
abbrev pub number_size : GenericDataTable → Run ℕ
number_size t = size t

-- `size_approx()`
abbrev pub number_size_approx : GenericDataTable → Run ℕ
number_size_approx t = size_approx t

-- `struct IteratorEntry`, with the numbers behind its two pointers.
pub record NumberEntry : Type 0 where
  pub offset : ℕ
  pub key : ℕ
  pub value : ℕ

abbrev pub number_entry : IteratorEntry → NumberEntry
number_entry entry = record {
  offset = entry.offset;
  key = from_bytes entry.key;
  value = from_bytes entry.value;
}

-- The constructor of `DataTableIterator`.
abbrev pub number_iterator : GenericDataTable → Run TableIterator
number_iterator t = new_iterator t

-- `has_next()`
abbrev pub number_has_next : TableIterator → Bool
number_has_next it = has_next it

-- `next()`
unfoldable pub number_next : GenericDataTable → TableIterator → Run (TableIterator × NumberEntry)
number_next t it = do (it', entry) ← next t it; done (it', number_entry entry)
