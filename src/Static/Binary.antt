-- ===== src/Static/Binary.antt =====
-- The binary index (src/static_index/binary_index.h): the top layers of the binary search tree over
-- the array, level by level, in an array of keys.
pub mod Heap
pub mod Place
pub mod Build
pub mod Root
pub mod Descend
pub mod Narrow
pub mod Laws
pub mod Reorganize
pub mod Lookup
use index_zoo.Base.{
  ℕ, zero, suc, ◌+◌, ◌-◌, ◌*◌, ◌/◌, ◌^◌, ◌%◌, List, [], ◌∷◌, length, Option, none, some, true,
  false, Bool, ◌==◌, ltb, if◌then◌else◌, Run, done, fail, no_fuel, assert, at, read_cell,
  write_cell, ◌>>=◌, ◌>>◌, ℤ, pos, negsuc, ltb_ℤ, ◌+ℤ◌, ◌-ℤ◌, to_int, to_size, midpoint, at_int,
  replicate, not, ◌||◌,
}
use index_zoo.Table.Offset.{word}
use index_zoo.Table.Generic.{GenericDataTable}
use index_zoo.Static.Entry.{KeyOffsetPair}
use index_zoo.Static.Search.{Turn, found, go_right, go_left, turn}
use index_zoo.Static.Find.{find_by}
use index_zoo.Static.Sorting.{Sorter}
use index_zoo.Static.Reorganize.{base_reorganize}

-- `class BinaryIndex`. `inner_nodes` is empty where `inner_nodes_` is null.
pub record BinaryIndex : Type 0 where
  pub num_layers : ℕ
  pub container : List KeyOffsetPair
  pub key_min : ℕ
  pub key_max : ℕ
  pub inner_nodes : List (Option ℕ)
  pub inner_node_count : ℕ

-- The constructor, with zero for the members that it leaves unset.
unfoldable pub new_index : ℕ → BinaryIndex
new_index num_layers = record {
  num_layers = num_layers;
  container = [];
  key_min = 0;
  key_max = 0;
  inner_nodes = [];
  inner_node_count = 0;
}

-- `(base_pos + 1) * 2 - 1`
abbrev pub next_base : ℕ → ℕ
next_base base_pos = ((base_pos + 1) * 2 + word - 1) % word

-- `construct_inner_layers_internal(begin, end, base_pos, dst_pos, curr_layer)`.
unfoldable pub construct_inner_layers_internal :
    ℕ → BinaryIndex → List (Option ℕ) → ℤ → ℤ → ℕ → ℕ → ℕ → Run (List (Option ℕ))
construct_inner_layers_internal zero index nodes begin_offset end_offset base dst layer =
    fail no_fuel
construct_inner_layers_internal (suc fuel) index nodes begin_offset end_offset base dst layer =
    elim (ltb_ℤ end_offset begin_offset) [
      | true ↦ done nodes
      | false ↦ do
        mid ← midpoint begin_offset end_offset
        assert (ltb (base + dst) index.inner_node_count)
        x ← at_int index.container mid
        written ← write_cell nodes (base + dst) x.key
        elim (index.num_layers == layer + 1) [
          | true ↦ done written
          | false ↦ do
            left ←
                construct_inner_layers_internal fuel index written begin_offset
                  (to_int ((to_size mid + word - 1) % word)) (next_base base) (dst * 2) (layer + 1)
            construct_inner_layers_internal fuel index left (to_int ((to_size mid + 1) % word))
                end_offset (next_base base) (dst * 2 + 1) (layer + 1)
        ]
    ]

-- `construct_inner_layers()`
unfoldable pub construct_inner_layers : BinaryIndex → Run (List (Option ℕ))
construct_inner_layers index = do
  assert (not (index.num_layers == 0))
  let end_offset = (length index.container + word - 1) % word
  let mid = end_offset / 2
  x ← at index.container mid
  written ← write_cell index.inner_nodes 0 x.key
  elim (index.num_layers == 1) [
    | true ↦ done written
    | false ↦ do
      left ←
          construct_inner_layers_internal index.num_layers index written (to_int 0)
            (to_int ((mid + word - 1) % word)) 1 0 1
      construct_inner_layers_internal index.num_layers index left (to_int (mid + 1))
          (to_int end_offset) 1 1 1
  ]

-- `reorganize()`. `std::pow(2.0, num_layers_)` is exact.
unfoldable pub reorganize : Sorter → BinaryIndex → GenericDataTable → Run BinaryIndex
reorganize std index table = do
  container ← base_reorganize std index.container table
  let count = 2 ^ index.num_layers - 1
  assert (ltb count (length container))
  first ← at container 0
  last ← at container (length container - 1)
  let sorted = record index {
    container = container;
    key_min = first.key;
    key_max = last.key;
    inner_node_count = count;
  }
  elim (index.num_layers == 0) [
    | true ↦ done (record sorted { inner_nodes = [] })
    | false ↦ do
      let allocated = record sorted { inner_nodes = replicate count none }
      nodes ← construct_inner_layers allocated
      done (record allocated { inner_nodes = nodes })
  ]

-- `find_inner_layers_internal(key, begin, end, base_pos, dst_pos, curr_layer)`
unfoldable pub find_inner_layers_internal : ℕ → BinaryIndex → ℕ → ℤ → ℤ → ℕ → ℕ → ℕ → Run (ℤ × ℤ)
find_inner_layers_internal zero index key begin_offset end_offset base dst layer = fail no_fuel
find_inner_layers_internal (suc fuel) index key begin_offset end_offset base dst layer =
    elim (index.num_layers == layer) [
      | true ↦ done (begin_offset, end_offset)
      | false ↦ midpoint begin_offset end_offset >>= λ mid.
          read_cell index.inner_nodes (base + dst) >>= λ node. elim (turn key node) [
            | found ↦ done (mid, mid)
            | go_left ↦
                find_inner_layers_internal fuel index key begin_offset (mid -ℤ pos 1)
                  (to_size (to_int (next_base base))) (dst * 2) (layer + 1)
            | go_right ↦
                find_inner_layers_internal fuel index key (mid +ℤ pos 1) end_offset
                  (to_size (to_int (next_base base))) (dst * 2 + 1) (layer + 1)
          ]
    ]

-- `find_inner_layers(key)`
unfoldable pub find_inner_layers : BinaryIndex → ℕ → Run (ℤ × ℤ)
find_inner_layers index key =
    if index.num_layers == 0 then done (to_int 0, to_int (length index.container)) else do
      let end_offset = to_int ((length index.container + word - 1) % word)
      mid ← midpoint (pos 0) end_offset
      root ← read_cell index.inner_nodes 0
      elim (turn key root) [
        | found ↦ done (mid, mid)
        | go_left ↦
            find_inner_layers_internal index.num_layers index key (pos 0) (mid -ℤ pos 1) 1 0 1
        | go_right ↦
            find_inner_layers_internal index.num_layers index key (mid +ℤ pos 1) end_offset 1 1 1
      ]

-- `find(key, offsets)`
unfoldable pub find : BinaryIndex → ℕ → List ℕ → Run (List ℕ)
find index = find_by index.container index.key_min index.key_max (find_inner_layers index)

-- `find_range(lhs_key, rhs_key, offsets)`: the guards are all there is; nothing is collected.
unfoldable pub find_range : BinaryIndex → ℕ → ℕ → List ℕ → Run (List ℕ)
find_range index lhs_key rhs_key offsets = do
  assert (ltb lhs_key rhs_key)
  if length index.container == 0 then done offsets else range_guard
  where
    range_guard : Run (List ℕ)
    range_guard =
        if ltb index.key_max lhs_key || ltb rhs_key index.key_min
        then done offsets
        else done offsets
