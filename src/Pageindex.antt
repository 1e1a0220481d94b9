-- ===== src/Pageindex.antt =====
-- The index of big allocations: src/pageindex.c and include/pageindex.h.
pub mod Vas
pub mod Memset
pub mod State
pub mod Forest
pub mod Find
pub mod Resize
pub mod Link
pub mod Toplevel
pub mod Depth
pub mod Sanity
pub mod Create
pub mod Delete
pub mod Split
pub mod Lookup
pub mod Indexed
mod Tests
pub mod Examples
mod Runs
