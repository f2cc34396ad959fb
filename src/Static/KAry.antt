-- ===== src/Static/KAry.antt =====
-- The k-ary index (src/static_index/kary_index.h): the top layers of a search tree with
-- `num_arys` children a node over the array, level by level, in an array of keys.
pub mod Laws
use index_zoo.Base.{
  ℕ, zero, suc, ◌+◌, ◌-◌, ◌*◌, ◌/◌, ◌%◌, ◌^◌, List, [], ◌∷◌, length, Option, none, some, true,
  false, Bool, ◌==◌, ltb, leb, if◌then◌else◌, Run, done, fail, no_fuel, assert, at, read_cell,
  write_cell, ◌>>=◌, ◌>>◌, ℤ, pos, ltb_ℤ, ◌-ℤ◌, to_int, to_size, replicate, not, ◌||◌,
}
use index_zoo.Table.Offset.{word}
use index_zoo.Table.Generic.{GenericDataTable}
use index_zoo.Static.Entry.{KeyOffsetPair}
use index_zoo.Static.Find.{find_by}
use index_zoo.Static.Sorting.{Sorter}
use index_zoo.Static.Reorganize.{base_reorganize}
use index_zoo.Static.Loops.{for_each, first_such}

-- `class KAryIndex`. `inner_nodes` is empty where `inner_nodes_` is null.
pub record KAryIndex : Type 0 where
  pub num_layers : ℕ
  pub num_arys : ℕ
  pub container : List KeyOffsetPair
  pub key_min : ℕ
  pub key_max : ℕ
  pub inner_nodes : List (Option ℕ)
  pub inner_node_count : ℕ

-- The constructor, with zero for the members that it leaves unset.
unfoldable pub new_index : ℕ → ℕ → Run KAryIndex
new_index num_layers num_arys = do
  assert (leb 2 num_arys)
  done (record {
    num_layers = num_layers;
    num_arys = num_arys;
    container = [];
    key_min = 0;
    key_max = 0;
    inner_nodes = [];
    inner_node_count = 0;
  })

-- `begin_offset + step_offset * (i + 1)`, the index of separator `i`.
abbrev pub separator : ℤ → ℕ → ℕ → ℕ
separator begin_offset step_offset i = (to_size begin_offset + step_offset * (i + 1)) % word

-- `begin_offset + step_offset * i + 1`, as an `int`.
abbrev pub child_begin : ℤ → ℕ → ℕ → ℤ
child_begin begin_offset step_offset i =
    to_int ((to_size begin_offset + step_offset * i + 1) % word)

-- `begin_offset + step_offset * (i + 1) - 1`, as an `int`.
abbrev pub child_end : ℤ → ℕ → ℕ → ℤ
child_end begin_offset step_offset i =
    to_int ((to_size begin_offset + step_offset * (i + 1) + word - 1) % word)

-- `(end_offset - begin_offset) / num_arys_`
abbrev pub step_of : KAryIndex → ℤ → ℤ → ℕ
step_of index begin_offset end_offset = to_size (end_offset -ℤ begin_offset) / index.num_arys

-- `(base_pos + 1) * num_arys_ - 1`
abbrev pub next_base : KAryIndex → ℕ → ℕ
next_base index base_pos = ((base_pos + 1) * index.num_arys + word - 1) % word

-- The loop that writes the separators of one node, at `cell` and behind it.
unfoldable pub write_separators : KAryIndex → ℤ → ℕ → ℕ → List (Option ℕ) → Run (List (Option ℕ))
write_separators index begin_offset step_offset cell = for_each (index.num_arys - 1) 0 (λ i nodes.
    assert (ltb (cell + i) index.inner_node_count)
    >> (at index.container (separator begin_offset step_offset i) >>= λ x.
        write_cell nodes (cell + i) x.key))

-- `construct_inner_layers_internal(begin, end, base_pos, dst_pos, curr_layer)`
unfoldable pub construct_inner_layers_internal :
    ℕ → KAryIndex → List (Option ℕ) → ℤ → ℤ → ℕ → ℕ → ℕ → Run (List (Option ℕ))
construct_inner_layers_internal zero index nodes begin_offset end_offset base dst layer =
    fail no_fuel
construct_inner_layers_internal (suc fuel) index nodes begin_offset end_offset base dst layer =
    elim (ltb_ℤ end_offset begin_offset) [
      | true ↦ done nodes
      | false ↦ do
        let step = step_of index begin_offset end_offset
        written ← write_separators index begin_offset step (base + dst) nodes
        elim (index.num_layers == layer + 1) [
          | true ↦ done written
          | false ↦ do
            first ←
                construct_inner_layers_internal fuel index written begin_offset
                  (child_end begin_offset step 0) (next_base index base) (dst * index.num_arys)
                  (layer + 1)
            inner ←
                for_each (index.num_arys - 2) 1
                  (λ i ns.
                    construct_inner_layers_internal fuel index ns (child_begin begin_offset step i)
                      (child_end begin_offset step i) (next_base index base)
                      (dst * index.num_arys + i * (index.num_arys - 1)) (layer + 1))
                  first
            construct_inner_layers_internal fuel index inner
                (child_begin begin_offset step (index.num_arys - 1)) end_offset
                (next_base index base)
                (dst * index.num_arys + (index.num_arys - 1) * (index.num_arys - 1)) (layer + 1)
        ]
    ]

-- `construct_inner_layers()`
unfoldable pub construct_inner_layers : KAryIndex → Run (List (Option ℕ))
construct_inner_layers index = do
  assert (not (index.num_layers == 0))
  let end_offset = (length index.container + word - 1) % word
  let step = end_offset / index.num_arys
  written ← write_separators index (pos 0) step 0 index.inner_nodes
  elim (index.num_layers == 1) [
    | true ↦ done written
    | false ↦ do
      let base = index.num_arys - 1
      first ←
          construct_inner_layers_internal index.num_layers index written (to_int 0)
            (child_end (pos 0) step 0) base 0 1
      inner ←
          for_each (index.num_arys - 2) 1
            (λ i ns.
              construct_inner_layers_internal index.num_layers index ns (child_begin (pos 0) step i)
                (child_end (pos 0) step i) base (i * (index.num_arys - 1)) 1)
            first
      construct_inner_layers_internal index.num_layers index inner
          (child_begin (pos 0) step (index.num_arys - 1)) (to_int end_offset) base
          ((index.num_arys - 1) * (index.num_arys - 1)) 1
  ]

-- `reorganize()`. `std::pow(num_arys_, num_layers_)` is exact below 2^53.
unfoldable pub reorganize : Sorter → KAryIndex → GenericDataTable → Run KAryIndex
reorganize std index table = do
  container ← base_reorganize std index.container table
  let count = index.num_arys ^ index.num_layers - 1
  assert (ltb count (length container))
  first ← at container 0
  last ← at container (length container - 1)
  let sorted = record index {
    container = container;
    key_min = first.key;
    key_max = last.key;
    inner_node_count = count;
  }
  elim (index.num_layers == 0) [
    | true ↦ done (record sorted { inner_nodes = [] })
    | false ↦ do
      let allocated = record sorted { inner_nodes = replicate count none }
      nodes ← construct_inner_layers allocated
      done (record allocated { inner_nodes = nodes })
  ]

-- The loop `if (key == inner_nodes_[cell + i])` over all separators of a node.
unfoldable pub equal_separator : KAryIndex → ℕ → ℕ → Run (Option ℕ)
equal_separator index key cell =
    first_such (index.num_arys - 1) 0
      (λ i. read_cell index.inner_nodes (cell + i) >>= λ node. done (key == node))

-- The loop `if (key < inner_nodes_[cell + i])` over all but the first.
unfoldable pub larger_separator : KAryIndex → ℕ → ℕ → Run (Option ℕ)
larger_separator index key cell =
    first_such (index.num_arys - 2) 1
      (λ i. read_cell index.inner_nodes (cell + i) >>= λ node. done (ltb key node))

-- `find_inner_layers_internal(key, begin, end, base_pos, dst_pos, curr_layer)`
unfoldable pub find_inner_layers_internal : ℕ → KAryIndex → ℕ → ℤ → ℤ → ℕ → ℕ → ℕ → Run (ℤ × ℤ)
find_inner_layers_internal zero index key begin_offset end_offset base dst layer = fail no_fuel
find_inner_layers_internal (suc fuel) index key begin_offset end_offset base dst layer =
    elim (index.num_layers == layer) [
      | true ↦ done (begin_offset, end_offset)
      | false ↦ do
        let step = step_of index begin_offset end_offset
        hit ← equal_separator index key (base + dst)
        elim hit [
          | some i ↦
              done (to_int (separator begin_offset step i), to_int (separator begin_offset step i))
          | none ↦ do
            node ← read_cell index.inner_nodes (base + dst)
            elim (ltb key node) [
              | true ↦
                  find_inner_layers_internal fuel index key begin_offset
                    (child_end begin_offset step 0) (next_base index base) (dst * index.num_arys)
                    (layer + 1)
              | false ↦ do
                child ← larger_separator index key (base + dst)
                elim child [
                  | some i ↦
                      find_inner_layers_internal fuel index key (child_begin begin_offset step i)
                        (child_end begin_offset step i) (next_base index base)
                        (dst * index.num_arys + i * (index.num_arys - 1)) (layer + 1)
                  | none ↦
                      find_inner_layers_internal fuel index key
                        (child_begin begin_offset step (index.num_arys - 1)) end_offset
                        (next_base index base)
                        (dst * index.num_arys + (index.num_arys - 1) * (index.num_arys - 1))
                        (layer + 1)
                ]
            ]
        ]
    ]

-- `find_inner_layers(key)`
unfoldable pub find_inner_layers : KAryIndex → ℕ → Run (ℤ × ℤ)
find_inner_layers index key = elim (index.num_layers == 0) [
  | true ↦ done (to_int 0, to_int (length index.container))
  | false ↦ do
    let end_offset = to_int ((length index.container + word - 1) % word)
    let step = step_of index (pos 0) end_offset
    let base = index.num_arys - 1
    hit ← equal_separator index key 0
    elim hit [
      | some i ↦ done (to_int (separator (pos 0) step i), to_int (separator (pos 0) step i))
      | none ↦ do
        node ← read_cell index.inner_nodes 0
        elim (ltb key node) [
          | true ↦
              find_inner_layers_internal index.num_layers index key (pos 0)
                (child_end (pos 0) step 0) base 0 1
          | false ↦ do
            child ← larger_separator index key 0
            elim child [
              | some i ↦
                  find_inner_layers_internal index.num_layers index key (child_begin (pos 0) step i)
                    (child_end (pos 0) step i) base (i * (index.num_arys - 1)) 1
              | none ↦
                  find_inner_layers_internal index.num_layers index key
                    (child_begin (pos 0) step (index.num_arys - 1)) end_offset base
                    ((index.num_arys - 1) * (index.num_arys - 1)) 1
            ]
        ]
    ]
]

-- `find(key, offsets)`
unfoldable pub find : KAryIndex → ℕ → List ℕ → Run (List ℕ)
find index = find_by index.container index.key_min index.key_max (find_inner_layers index)

-- `find_range(lhs_key, rhs_key, offsets)`: every branch behind the ASSERT returns, and nothing is
-- collected.
unfoldable pub find_range : KAryIndex → ℕ → ℕ → List ℕ → Run (List ℕ)
find_range index lhs_key rhs_key offsets = do
  assert (ltb lhs_key rhs_key)
  elim (length index.container == 0) [
    | true ↦ done offsets
    | false ↦ elim (ltb index.key_max lhs_key || ltb rhs_key index.key_min) [
      | true ↦ done offsets
      | false ↦ done offsets
    ]
  ]
