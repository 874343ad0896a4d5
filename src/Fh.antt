-- ===== src/Fh.antt =====
-- src/fh.h and src/fh.c: file handles. `Handles` composes and extends them, `Resolve` resolves them.
pub mod Handles
pub mod Resolve
pub mod Roundtrip
pub mod Bounds
