-- ===== src/Static/Interpolation/Segments.antt =====
-- `reorganize` of src/static_index/interpolation_index.h: the keys at which the segments start, their
-- first offsets and their sizes.
use index_zoo.Base.{
  ℕ, zero, suc, ◌+◌, ◌-◌, ◌*◌, ◌/◌, List, length, set, true, false, ltb, if◌then◌else◌, Run, done,
  fail, no_fuel, out_of_bounds, at, ◌>>=◌,
}
use index_zoo.Table.Generic.{GenericDataTable}
use index_zoo.Static.Entry.{KeyOffsetPair}
use index_zoo.Static.Sorting.{Sorter}
use index_zoo.Static.Reorganize.{base_reorganize}
use index_zoo.Static.Loops.{for_each}
use index_zoo.Static.Interpolation.{InterpolationIndex}

-- `xs[i] = value`
unfoldable pub write_at : List ℕ → ℕ → ℕ → Run (List ℕ)
write_at xs i value = if ltb i (length xs) then done (set xs i value) else fail out_of_bounds

-- `while (container_[current_offset].key_ < boundary) ++current_offset`
unfoldable pub skip_below : ℕ → List KeyOffsetPair → ℕ → ℕ → Run ℕ
skip_below zero c boundary current_offset = fail no_fuel
skip_below (suc fuel) c boundary current_offset = at c current_offset >>= λ x.
    elim (ltb x.key boundary) [
      | true ↦ skip_below fuel c boundary (current_offset + 1)
      | false ↦ done current_offset
    ]

-- The loop that sets `segment_key_boundaries_`.
unfoldable pub key_boundaries : InterpolationIndex → Run (List ℕ)
key_boundaries index =
    let segment_key_range = (index.key_max - index.key_min) / index.num_segments in
    write_at index.segment_key_boundaries 0 index.key_min >>= λ first.
    write_at first index.num_segments index.key_max >>= λ last.
    for_each (index.num_segments - 1) 1
      (λ i boundaries. write_at boundaries i (index.key_min + segment_key_range * i)) last

-- The locals of the loop that finds where the segments start.
pub record Boundaries : Type 0 where
  pub current_offset : ℕ
  pub offsets : List ℕ
  pub sizes : List ℕ

unfoldable pub next_segment : InterpolationIndex → ℕ → Boundaries → Run Boundaries
next_segment index i b = do
  boundary ← at index.segment_key_boundaries (i + 1)
  current_offset ← skip_below (length index.container + 1) index.container boundary b.current_offset
  size ← at b.sizes i
  sizes ← write_at b.sizes i (size + (current_offset - b.current_offset))
  offsets ← write_at b.offsets (i + 1) current_offset
  done (record { current_offset = current_offset; offsets = offsets; sizes = sizes })

-- `reorganize()`
unfoldable pub reorganize : Sorter → InterpolationIndex → GenericDataTable → Run InterpolationIndex
reorganize std index table = do
  container ← base_reorganize std index.container table
  first ← at container 0
  last ← at container (length container - 1)
  let sorted = record index { container = container; key_min = first.key; key_max = last.key }
  boundaries ← key_boundaries sorted
  let bounded = record sorted { segment_key_boundaries = boundaries }
  start ← write_at bounded.segment_offset_boundaries 0 0
  b ←
      for_each (bounded.num_segments - 1) 0 (λ i s. next_segment bounded i s)
        (record { current_offset = 0; offsets = start; sizes = bounded.segment_sizes })
  sizes ← write_at b.sizes (bounded.num_segments - 1) (length container - b.current_offset)
  done (record bounded { segment_offset_boundaries = b.offsets; segment_sizes = sizes })
