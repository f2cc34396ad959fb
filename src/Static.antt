-- ===== src/Static.antt =====
-- The static indexes (src/base_static_index.h, src/static_index/): a sorted array of key and
-- offset pairs, and four ways to look a key up in it.
pub mod Entry
pub mod Scan
pub mod Walk
pub mod Search
pub mod Collect
pub mod Find
pub mod Sorting
pub mod Reorganize
pub mod Binary
pub mod Loops
pub mod KAry
pub mod Fast
pub mod Interpolation
