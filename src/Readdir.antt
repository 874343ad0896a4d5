-- ===== src/Readdir.antt =====
-- src/readdir.c: READDIR, page by page.
pub mod Page
pub mod Laws
pub mod Walk
pub mod Hash
