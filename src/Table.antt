-- ===== src/Table.antt =====
-- The data tables (src/data_table.h, src/generic_data_table.h) with their blocks and offsets.
pub mod Offset
pub mod Memory
pub mod Block
pub mod Generic
pub mod Iterator
pub mod Numeric
pub mod Numbers
pub mod Concurrent
