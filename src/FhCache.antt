-- ===== src/FhCache.antt =====
-- src/fh_cache.c: the cache of paths by device and inode, and its users `fh_decomp` and `fh_comp`.
-- `Table` is the array and its operations; the other files prove.
pub mod Table
pub mod Find
pub mod Lru
pub mod Invariant
pub mod Keep
pub mod Paths
pub mod Decomp
pub mod Objects
