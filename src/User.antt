-- ===== src/User.antt =====
-- src/user.c: which user and group a request acts as.
pub mod Ids
pub mod Switch
pub mod Laws
