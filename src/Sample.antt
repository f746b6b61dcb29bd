-- ===== src/Sample.antt =====
-- A small machine and a small hash table, which show that what the theorems assume of the kernel
-- and of uthash can hold, and the theorems at inputs over them.
pub mod Machine
pub mod Reporting
pub mod Running
pub mod Table
mod Examples
