-- ===== src/Dynamic.antt =====
-- The dynamic indexes (src/dynamic_index): classes over containers of other projects, each of which is a
-- parameter with the documented behaviour of its operations as laws.
pub mod Keys
pub mod Spec
pub mod Rearrange
pub mod StxBtree
pub mod Libcuckoo
pub mod ByteSwap
pub mod ArtTree
pub mod ArtTreeMulti
pub mod BwTree
pub mod Masstree
