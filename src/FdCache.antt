-- ===== src/FdCache.antt =====
-- src/fd_cache.c: the cache of open file descriptors. `Table` is the array and what works on one
-- entry, `Calls` the functions that the rest of the server calls; the other files prove.
pub mod Table
pub mod Calls
pub mod Counts
pub mod Keep
pub mod Sweep
pub mod Reports
