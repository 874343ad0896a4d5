-- ===== src/Mount.antt =====
-- src/mount.c: the list of mounts.
pub mod Table
pub mod Laws
pub mod Mnt
pub mod Named
pub mod Guard
