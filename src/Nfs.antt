-- ===== src/Nfs.antt =====
-- src/nfs.c: the procedures of the protocol.
pub mod Paths
pub mod Private
pub mod Prep
pub mod Admitted
pub mod Access
pub mod Change
pub mod Create
pub mod Data
pub mod Transfer
pub mod Info
pub mod Laws
