-- ===== src/Table/Offset.antt =====
-- Tuple offsets (src/offset.h): a block's number and a position in it, in one 64-bit word.
use index_zoo.Base.{ℕ, ◌+◌, ◌-◌, ◌*◌, ◌/◌, ◌%◌, ◌^◌, ◌<◌, ◌≤◌, ◌≡◌, ◌≢◌, arith}

-- `Uint64`, `size_t`: values below this.
abbrev pub word : ℕ
word = 2 ^ 64

abbrev pub blockid_bits : ℕ
blockid_bits = 40

-- `std::numeric_limits<RelOffsetT>::max()`
abbrev pub invalid_offset : ℕ
invalid_offset = 2 ^ 64 - 1

-- `OffsetT(bid, rel_offset)` and `construct_raw_data`: the shift and the sum wrap.
unfoldable pub construct_raw_data : ℕ → ℕ → ℕ
construct_raw_data bid rel = (bid * 2 ^ 24 % word + rel) % word

unfoldable pub block_id : ℕ → ℕ
block_id offset = offset / 2 ^ 24

-- `(offset_ << BLOCKID_BITS) >> BLOCKID_BITS`
unfoldable pub rel_offset : ℕ → ℕ
rel_offset offset = (offset * 2 ^ blockid_bits % word) / 2 ^ blockid_bits

-- A block number below 2^40 and a position below 2^24 are both read back from the raw word
-- that packs them.
pub offset_fields :
    (bid rel : ℕ)
    → bid < 2 ^ 40
    → rel < 2 ^ 24
    → (block_id (construct_raw_data bid rel) ≡ bid)
      × (rel_offset (construct_raw_data bid rel) ≡ rel)
unfolding construct_raw_data block_id rel_offset
offset_fields bid rel h k = omega arith

-- Every 64-bit word is the packing of the two fields that are read from it.
pub construct_raw_data-fields :
    (offset : ℕ) → offset < word → construct_raw_data (block_id offset) (rel_offset offset) ≡ offset
unfolding construct_raw_data block_id rel_offset
construct_raw_data-fields offset h = omega arith

-- A position of 2^24 or more is packed with a block number to the same word as a position below 2^24 with
-- a larger block number, if that number is below 2^40; from the word a wrong block number and a wrong
-- position are read.
pub offset_aliases :
    (bid rel : ℕ)
    → 2 ^ 24 ≤ rel
    → bid + rel / 2 ^ 24 < 2 ^ 40
    → (construct_raw_data bid rel ≡ construct_raw_data (bid + rel / 2 ^ 24) (rel % 2 ^ 24))
      × (block_id (construct_raw_data bid rel) ≢ bid)
      × (rel_offset (construct_raw_data bid rel) ≢ rel)
unfolding construct_raw_data block_id rel_offset
offset_aliases bid rel large fits = (omega arith, omega arith, omega arith)
