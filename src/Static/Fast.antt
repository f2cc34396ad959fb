-- ===== src/Static/Fast.antt =====
-- The FAST index (src/static_index/fast_index.h): the top layers of the binary search tree over the
-- array in blocks of 16 keys, one cache line each, of five blocks of three keys for one SIMD
-- comparison.
pub mod Simd
pub mod Block
use index_zoo.Base.{
  ℕ, zero, suc, ◌+◌, ◌-◌, ◌*◌, ◌/◌, ◌%◌, ◌^◌, List, [], ◌∷◌, length, set, true, false, Bool, ◌==◌,
  ltb, if◌then◌else◌, Run, done, fail, out_of_bounds, assert, at, ◌>>=◌, ◌>>◌, ℤ, ltb_ℤ, to_int,
  replicate, not, ◌||◌,
}
use index_zoo.Table.Offset.{word}
use index_zoo.Table.Generic.{GenericDataTable}
use index_zoo.Static.Entry.{KeyOffsetPair}
use index_zoo.Static.Find.{find_by}
use index_zoo.Static.Sorting.{Sorter}
use index_zoo.Static.Reorganize.{base_reorganize}
use index_zoo.Static.Loops.{for_each}

-- `class FastIndex`. `inner_nodes` is empty where `inner_nodes_` is null.
pub record FastIndex : Type 0 where
  pub num_layers : ℕ
  pub container : List KeyOffsetPair
  pub key_min : ℕ
  pub key_max : ℕ
  pub inner_nodes : List ℕ
  pub inner_size : ℕ
  pub lhs_offset : ℕ
  pub rhs_offset : ℕ
  pub last_level_step : ℕ
  pub cacheline_levels : ℕ
  pub num_cachelines : List ℕ

-- The constructor for keys of `key_size` bytes, with zero for the members that it leaves unset.
unfoldable pub new_index : ℕ → ℕ → Run FastIndex
new_index key_size num_layers = do
  assert (key_size == 4)
  done (record {
    num_layers = num_layers;
    container = [];
    key_min = 0;
    key_max = 0;
    inner_nodes = [];
    inner_size = 0;
    lhs_offset = 0;
    rhs_offset = 0;
    last_level_step = 0;
    cacheline_levels = 0;
    num_cachelines = [];
  })

-- `inner_nodes_[i] = key`
unfoldable pub write_key : List ℕ → ℕ → ℕ → Run (List ℕ)
write_key nodes i key = if ltb i (length nodes) then done (set nodes i key) else fail out_of_bounds

-- `(rhs_offset - lhs_offset + 1) / parts`
abbrev pub step_of : ℕ → ℕ → ℕ → ℕ
step_of lhs_offset rhs_offset parts = (rhs_offset + word - lhs_offset + 1) % word / parts

-- `construct_simd_block(current_pos, lhs_offset, rhs_offset)`: the key at the middle first.
unfoldable pub construct_simd_block : List KeyOffsetPair → ℕ → ℕ → ℕ → List ℕ → Run (List ℕ)
construct_simd_block c current_pos lhs_offset rhs_offset nodes = do
  let step = step_of lhs_offset rhs_offset 4
  middle ← at c ((lhs_offset + 2 * step + word - 1) % word)
  first ← write_key nodes (current_pos + 0) middle.key
  low ← at c ((lhs_offset + 1 * step + word - 1) % word)
  second ← write_key first (current_pos + 1) low.key
  high ← at c ((lhs_offset + 3 * step + word - 1) % word)
  write_key second (current_pos + 2) high.key

-- `construct_cacheline_block(current_pos, lhs_offset, rhs_offset)`
unfoldable pub construct_cacheline_block : List KeyOffsetPair → ℕ → ℕ → ℕ → List ℕ → Run (List ℕ)
construct_cacheline_block c current_pos lhs_offset rhs_offset nodes =
    let step = step_of lhs_offset rhs_offset 4 in
    construct_simd_block c current_pos lhs_offset rhs_offset nodes >>= λ root.
    for_each 4 0
      (λ i ns.
        construct_simd_block c (current_pos + 3 * (i + 1)) (lhs_offset + step * i)
          ((lhs_offset + step * (i + 1) + word - 1) % word) ns)
      root

-- The loop over the blocks of one cache line level, from `current_pos` on.
unfoldable pub construct_level : FastIndex → ℕ → List ℕ × ℕ → Run (List ℕ × ℕ)
construct_level index i state =
    let step = step_of index.lhs_offset index.rhs_offset (16 ^ i) in
    for_each (16 ^ i) 0
      (λ j (s : List ℕ × ℕ).
        construct_cacheline_block index.container s.1 (step * j)
          ((step * (j + 1) + word - 1) % word) s.0
        >>= λ nodes. done (nodes, s.1 + 16))
      state

-- `construct_inner_layers()`
unfoldable pub construct_inner_layers : FastIndex → Run (List ℕ)
construct_inner_layers index = do
  assert (not (index.num_layers == 0))
  root ←
      construct_cacheline_block index.container 0 index.lhs_offset index.rhs_offset
        index.inner_nodes
  (nodes, current_pos) ←
      for_each (index.cacheline_levels - 1) 1 (λ i state. construct_level index i state) (root, 16)
  done nodes

-- `num_cachelines_[i] = std::pow(16, i)` for `count` values from `i` on.
unfoldable pub powers_of_16 : ℕ → ℕ → List ℕ
powers_of_16 zero i = []
powers_of_16 (suc count) i = 16 ^ i ∷ powers_of_16 count (i + 1)

-- `reorganize()`. All powers are exact.
unfoldable pub reorganize : Sorter → FastIndex → GenericDataTable → Run FastIndex
reorganize std index table = do
  container ← base_reorganize std index.container table
  let size = length container
  let inner_node_size = 2 ^ index.num_layers - 1
  assert (ltb inner_node_size size)
  let levels = index.num_layers / 4
  let cachelines = powers_of_16 (levels + 1) 0
  leaves ← at cachelines levels
  let rhs = ((size + word - 1) % word + word - size % leaves) % word
  first ← at container 0
  last ← at container (size - 1)
  let sorted = record index {
    container = container;
    key_min = first.key;
    key_max = last.key;
    lhs_offset = 0;
    rhs_offset = rhs;
    last_level_step = step_of 0 rhs leaves;
    cacheline_levels = levels;
    num_cachelines = cachelines;
  }
  elim (index.num_layers == 0) [
    | true ↦ done (record sorted { inner_nodes = [] })
    | false ↦ do
      let inner_size = inner_node_size / 15 * 64 % word / 4
      let allocated = record sorted {
        inner_size = inner_size;
        inner_nodes = replicate inner_size 0;
      }
      nodes ← construct_inner_layers allocated
      done (record allocated { inner_nodes = nodes })
  ]

-- `_mm_cmpgt_epi32`, in one lane: both numbers are read as signed.
abbrev pub lane_greater : ℕ → ℕ → ℕ
lane_greater key separator = if ltb_ℤ (to_int separator) (to_int key) then 1 else 0

-- `table`; 9 stands for impossible.
abbrev pub branch_table : List ℕ
branch_table = 0 ∷ 9 ∷ 1 ∷ 2 ∷ 9 ∷ 9 ∷ 9 ∷ 3 ∷ []

-- `lookup_simd_block(key, current_pos)`. Four lanes are loaded; the mask keeps three.
unfoldable pub lookup_simd_block : List ℕ → ℕ → ℕ → Run ℕ
lookup_simd_block nodes key current_pos = at nodes current_pos >>= λ lane_0.
    at nodes (current_pos + 1) >>= λ lane_1. at nodes (current_pos + 2) >>= λ lane_2.
    at nodes (current_pos + 3) >>= λ lane_3.
    at branch_table
      (lane_greater key lane_0 + 2 * lane_greater key lane_1 + 4 * lane_greater key lane_2)

-- `lookup_cacheline_block(key, current_pos)`
unfoldable pub lookup_cacheline_block : List ℕ → ℕ → ℕ → Run ℕ
lookup_cacheline_block nodes key current_pos = do
  branch_id ← lookup_simd_block nodes key current_pos
  new_branch_id ← lookup_simd_block nodes key (current_pos + 3 * (branch_id + 1))
  done (branch_id * 4 + new_branch_id)

-- The locals of the loop of `find_inner_layers`.
pub record Descent : Type 0 where
  pub branch_id : ℕ
  pub current_pos : ℕ
  pub num_cachelines : ℕ

unfoldable pub descend_level : FastIndex → ℕ → ℕ → Descent → Run Descent
descend_level index key i d = do
  new_branch_id ← lookup_cacheline_block index.inner_nodes key (d.current_pos + d.branch_id * 16)
  done (record {
    branch_id = d.branch_id * 16 + new_branch_id;
    current_pos = d.current_pos + 16 * d.num_cachelines;
    num_cachelines = 16 ^ (i + 1);
  })

-- `find_inner_layers(key)`
unfoldable pub find_inner_layers : FastIndex → ℕ → Run (ℤ × ℤ)
find_inner_layers index key = elim (index.num_layers == 0) [
  | true ↦ done (to_int 0, to_int ((length index.container + word - 1) % word))
  | false ↦ do
    branch_id ← lookup_cacheline_block index.inner_nodes key 0
    d ←
        for_each (index.cacheline_levels - 1) 1 (λ i d. descend_level index key i d)
          (record { branch_id = branch_id; current_pos = 16; num_cachelines = 16 ^ 1 })
    let begin_offset = d.branch_id * index.last_level_step % word
    elim (ltb d.branch_id (d.num_cachelines - 1)) [
      | true ↦ done (
        to_int begin_offset,
        to_int (((d.branch_id + 1) * index.last_level_step + word - 1) % word),
      )
      | false ↦ done (to_int begin_offset, to_int ((length index.container + word - 1) % word))
    ]
]

-- `find(key, offsets)`
unfoldable pub find : FastIndex → ℕ → List ℕ → Run (List ℕ)
find index = find_by index.container index.key_min index.key_max (find_inner_layers index)

-- `find_range(lhs_key, rhs_key, offsets)`: every branch behind the assertion returns, and nothing
-- is collected.
unfoldable pub find_range : FastIndex → ℕ → ℕ → List ℕ → Run (List ℕ)
find_range index lhs_key rhs_key offsets = do
  assert (ltb lhs_key rhs_key)
  elim (length index.container == 0) [
    | true ↦ done offsets
    | false ↦ elim (ltb index.key_max lhs_key || ltb rhs_key index.key_min) [
      | true ↦ done offsets
      | false ↦ done offsets
    ]
  ]
