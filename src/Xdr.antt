-- ===== src/Xdr.antt =====
-- src/xdr.c: the coding of the arguments and results of the procedures.
pub mod Codec
pub mod Scalars
pub mod Attr
pub mod Setattrs
pub mod Lookups
pub mod Reads
pub mod Writes
pub mod Creates
pub mod Specials
pub mod Removes
pub mod Renames
pub mod Listings
pub mod Pluses
pub mod Info
pub mod Mounts
pub mod Laws
