-- ===== src/Table/Concurrent.antt =====
-- `insert_tuple` of src/generic_data_table.h by several threads at once, as steps between the accesses to
-- what the threads share: `active_data_block_`, the counter of a block (src/data_block.h), and
-- `data_blocks_`. Each call is a process of its own. Memory is taken to be sequentially consistent. What a
-- call copies lies in its own slot and is left out.
pub mod Safe
pub mod Kept
pub mod Slots
pub mod Live
pub mod Reached
pub mod Progress
use index_zoo.Base.{ℕ, ◌+◌, ◌<◌, ◌≤◌, ◌≡◌, ◌≢◌, Option, none, some, ◌==◌, if◌then◌else◌}
use index_zoo.Table.Offset.{word}

-- Where a call stands; a block is named by its index in `data_blocks_`.
pub data Phase : Type 0 where
  -- at the head of the loop
  reading : Phase
  -- with `tmp_block`
  loaded : (block : ℕ) → Phase
  -- with a slot, before the copy
  holding : (block rel_offset : ℕ) → Phase
  -- with the last slot, before `emplace_back`
  growing : (block rel_offset : ℕ) → Phase
  -- with the new block in the vector, before the store to `active_data_block_`
  publishing : (block rel_offset new_block : ℕ) → Phase
  -- with the offset returned, by block number
  returned : (block_id rel_offset : ℕ) → Phase

pub record World : Type 0 where
  pub block_count : ℕ
  pub block_ids : ℕ → ℕ
  pub next_rel_offsets : ℕ → ℕ
  pub active_data_block : ℕ
  pub phases : ℕ → Phase

abbrev pub set_at {ℓ} : {A : Type ℓ} → (ℕ → A) → ℕ → A → ℕ → A
set_at f i v j = if j == i then v else f j

-- A table with one empty block.
abbrev pub start : World
start = record {
  block_count = 1;
  block_ids = λ block. 0;
  next_rel_offsets = λ block. 0;
  active_data_block = 0;
  phases = λ call. reading;
}

-- The steps of the call `t`, for blocks of `cap` slots. The counter does not wrap around: that takes
-- 2^64 calls of `fetch_add` on one block.
pub data Step (cap : ℕ) (w : World) (t : ℕ) (w' : World) : Type 0 where
  load :
      w.phases t ≡ reading
      → w' ≡ record w { phases = set_at w.phases t (loaded w.active_data_block) }
      → Step cap w t w'
  take :
      (b : ℕ)
      → w.phases t ≡ loaded b
      → w.next_rel_offsets b < cap
      → w' ≡ record w {
        next_rel_offsets = set_at w.next_rel_offsets b (w.next_rel_offsets b + 1);
        phases = set_at w.phases t (holding b (w.next_rel_offsets b));
      }
      → Step cap w t w'
  retry :
      (b : ℕ)
      → w.phases t ≡ loaded b
      → cap ≤ w.next_rel_offsets b
      → w.next_rel_offsets b + 1 < word
      → w' ≡ record w {
        next_rel_offsets = set_at w.next_rel_offsets b (w.next_rel_offsets b + 1);
        phases = set_at w.phases t reading;
      }
      → Step cap w t w'
  copy :
      (b n : ℕ)
      → w.phases t ≡ holding b n
      → n + 1 ≢ cap
      → w' ≡ record w { phases = set_at w.phases t (returned (w.block_ids b) n) }
      → Step cap w t w'
  copy_last :
      (b n : ℕ)
      → w.phases t ≡ holding b n
      → n + 1 ≡ cap
      → w' ≡ record w { phases = set_at w.phases t (growing b n) }
      → Step cap w t w'
  emplace :
      (b n : ℕ)
      → w.phases t ≡ growing b n
      → w' ≡ record w {
        block_count = w.block_count + 1;
        block_ids = set_at w.block_ids w.block_count (w.block_ids b + 1);
        next_rel_offsets = set_at w.next_rel_offsets w.block_count 0;
        phases = set_at w.phases t (publishing b n w.block_count);
      }
      → Step cap w t w'
  publish :
      (b n new_block : ℕ)
      → w.phases t ≡ publishing b n new_block
      → w' ≡ record w {
        active_data_block = new_block;
        phases = set_at w.phases t (returned (w.block_ids b) n);
      }
      → Step cap w t w'

-- What the calls can reach in any order of their steps.
pub data Reach (cap : ℕ) : World → Type 0 where
  here : Reach cap start
  next : {w w' : World} → Reach cap w → (t : ℕ) → Step cap w t w' → Reach cap w'
