-- ===== src/Examples.antt =====
-- Runs of the model on small tables and indexes.
pub mod Tables
pub mod Binaries
pub mod Lookups
pub mod Keys
pub mod Blocks
pub mod Interpolations
pub mod Dynamics
pub mod Threads
