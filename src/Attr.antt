-- ===== src/Attr.antt =====
-- src/attr.c: attributes of objects, as the protocol gives and sets them.
pub mod Get
pub mod Put
pub mod Asked
pub mod Mode
pub mod Reports
pub mod Changes
pub mod Digits
