-- ===== src/Task.antt =====
-- Include/asm/task.h: the two usage maps with their allocators (`Task/Map`), and the creation of a
-- task (`Task/Create`), with what they promise.
pub mod Map
pub mod MapWrite
pub mod MapScan
pub mod Alloc
pub mod Create
pub mod Failure
pub mod Leak
pub mod Number
pub mod Stores
pub mod First
mod Examples
