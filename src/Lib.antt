-- ===== src/Lib.antt =====
-- IndexZoo: in-memory indexes over a table of tuples.
--
-- The program has two layers. A data table (src/data_table.h, src/generic_data_table.h) stores
-- tuples in blocks of a fixed number of slots (src/data_block.h) and names a tuple by an offset, a
-- 64-bit word that packs the number of its block and its position (src/offset.h). An index maps
-- keys to offsets. A static index (src/base_static_index.h and src/static_index/) copies all keys
-- with their offsets out of the table with an iterator, sorts them into an array, and builds a
-- small search structure over the array; the binary index keeps the top layers of the binary
-- search tree of the array. A dynamic index (src/dynamic_index/) hands keys and offsets to a
-- container of another project. src/index_all.h makes an index from its number, and the
-- programs insert tuples with keys from a generator (src/key_generator_all.h).
--
-- The files:
--   Base: Boolean tests (Base/Tests), lists as arrays (Base/Lists, Base/Cells, Base/Select), the
--     results of code that can stop (Base/Faults), C++ `int` (Base/Ints) and powers of two
--     (Base/Powers).
--   Table/Offset: `OffsetT`. Table/Memory: `memcpy` and reads of byte arrays. Table/Block:
--     `DataBlock`. Table/Generic: `GenericDataTable`, with its invariant (Valid), the result of
--     an insertion in closed form (Insert), the invariant kept (Preserve), what is read
--     afterwards (Reads), the number of tuples (Size), and the contract of `insert_tuple` (Laws).
--     Table/Iterator: `GenericDataTableIterator`, its order (Order, Start) and
--     that every tuple can be read (Total). Table/Numeric,
--     Table/Numbers: `DataTable<KeyT, ValueT>` and its iterator. Table/Concurrent: `insert_tuple` by
--     several threads, as steps; what they keep (Safe, Kept, Live, Reached), the slots given out (Slots)
--     and the return of the calls (Progress).
--   Static/Entry: `KeyOffsetPair` and sorted arrays of pairs. Static/Scan: the scans.
--     Static/Sorting: the interface for `std::sort`. Static/Reorganize: `base_reorganize`, what
--     it leaves (Sorted) and for one key (Matching). Static/Search: `find_internal`. Static/Walk:
--     the two loops that collect equal keys. Static/Find: the method `find`, which has the same
--     text in three of the static indexes. Static/Collect, Static/Find/Range and
--     Static/Find/By: what these return.
--   Static/Binary: `BinaryIndex`. Heap: the range of the array that belongs to a cell. Place: where a
--     recursive call stands in the tree. Build, Root: `construct_inner_layers`. Descend, Narrow:
--     `find_inner_layers`. Laws: `find`. Reorganize, Lookup: `reorganize`, and a lookup after it.
--   Static/KAry: `KAryIndex` of src/static_index/kary_index.h, and a lookup without layers
--     (Laws). Static/Find/Flat: `find` without layers.
--   Static/Fast: `FastIndex` of src/static_index/fast_index.h, the SIMD lookup (Simd) and a SIMD block
--     that was built (Block). Static/Loops: the `for` loops of these two.
--   Static/Interpolation: `InterpolationIndex` of src/static_index/interpolation_index.h. Left,
--     Search: the search from a guess. Laws: `find`. Segments: `reorganize`, its loops (Boundaries,
--     Partition) and what it leaves (Built, Reorganize). Guess: the guess in an index that was
--     built. Lookup: `find` after `reorganize`. Range: `find_range`, its loops (Ends), its bounds
--     (Bounds) and what it returns (Between). ByScan: `find_range_by_scan`.
--   Dynamic: the dynamic indexes. Keys: their key types, numbers and byte strings. Spec: the
--     contract of `BaseIndex` (src/base_index.h). StxBtree: `StxBtreeIndex` of
--     src/dynamic_index/singlethread/stx_btree_index.h, its ranges (Sorted, Laws), its scans
--     (Scans) and the contract (Contract). Libcuckoo: src/dynamic_index/multithread/libcuckoo_index.h.
--     ByteSwap: `byte_swap` of src/utils.h. ArtTree and ArtTreeMulti: the two files art_tree_index.h, the
--     keys read from the table (Loads).
--     BwTree and Masstree: bw_tree_index.h and masstree_index.h of src/dynamic_index/multithread. The
--     generic indexes differ from these in the key type, which is an argument.
--   GenericKey: `GenericKey` of src/generic_key.h, its comparisons (Order) and its copies (Assign).
--   FastRandom: `FastRandom` of src/fast_random.h.
--   KeyGenerator: src/sequence_key_generator.h (Distinct), src/uniform_key_generator.h (Bounds),
--     src/key_generator_all.h, and the generator of generic keys of
--     src/synthetic_generic_key_generator.h (Generic). IndexSelection: src/index_all.h.
--   Examples: runs on small inputs.
--
-- How C++ is represented. A `uint64_t` or `size_t` is a natural number with the wrap-around
-- written out where the source can leave the range; an `int` is an integer, whose sums are checked
-- against 2^31. A failed ASSERT raises SIGTRAP and is the fault `trap`. An access outside an array, a
-- read of a cell that was never written, an overflow of an `int` and a division by zero are
-- faults too; C++ leaves their effect undefined. Every definition that can stop returns a `Run`,
-- and a theorem with `Returns` says that it ends normally. `assert` is compiled in.
-- A block's address space is its list of bytes. `operator new` never fails. Keys of a
-- static index are unsigned numbers.
--
-- Loops and recursion run on fuel. `insert_loop` needs one round, `iterate` one more than there
-- are tuples, `find_internal` and the loops over the entries of a container one more than the range
-- has indices, and the two recursions over layers one call for each layer; the theorems give these
-- amounts. The number of batches of `lookupRange` is an argument.
-- The order of the two draws in a sum, which C++ leaves open, is an argument.
--
-- The guess of the interpolation index, a computation with doubles, is an argument too; where a
-- theorem needs it, it assumes that the guess is exact at the last key of a segment.
--
-- A container of another project (stx::btree_multimap, cuckoohash_map, the ART trees, BwTree,
-- Masstree) is a record of its operations with their documented behaviour as laws; each record is
-- filled with a concrete container in Examples. Nothing is assumed of the range scans of the two ART
-- trees, and so nothing is proved of `find_range` of the indexes over them. The indexes over ART, BwTree and Masstree are run by
-- one thread. The steps of Table/Concurrent interleave in any order over a sequentially consistent
-- memory; a counter of a block does not wrap around, nor does the counter of threads.
--
-- What is not modelled: the statistics of the interpolation index, the draws of normal and
-- lognormal keys, the generic index over the ART tree for several threads, the threads inside the
-- containers, the stub `SdTreeGenericIndex`, the hash of a generic key, printing, the benchmark
-- programs and the tests.
pub mod Base
pub mod Table
pub mod Static
pub mod Dynamic
pub mod Examples
pub mod GenericKey
pub mod FastRandom
pub mod KeyGenerator
pub mod IndexSelection
