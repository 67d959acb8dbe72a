-- ===== src/Store.antt =====
-- state_store.py: the tables, and every method of `StateStore` on them. The clock's text and a fresh
-- UUID are arguments of the methods that read them, and a payload is kept as the value whose JSON
-- text the column holds.
pub mod Rows
pub mod Table
pub mod Operations
pub mod Upserts
pub mod Reachable
pub mod Stays
pub mod Grows
pub mod Kept
