-- ===== src/Exports.antt =====
-- src/Config/exports.y: the export points, with the hosts that may mount them.
pub mod Options
pub mod Names
pub mod Parse
pub mod Lookup
pub mod Hosts
pub mod Longest
pub mod Laws
pub mod Writable
pub mod Normal
use nfsrods.Prelude.{ℕ, List, Option}

-- `e_host`: an address and a mask, as 32-bit words, and what the host is given.
pub record EHost : Type 0 where
  pub orig : List ℕ
  pub options : ℕ
  pub password : List ℕ
  pub password_hash : ℕ
  pub addr : ℕ
  pub mask : ℕ
  pub anonuid : ℕ
  pub anongid : ℕ

-- `e_item`: an export point; the list is the chain of its hosts. `path` is what requests are matched
-- with, `orig` what the file says.
pub record EItem : Type 0 where
  pub path : List ℕ
  pub orig : List ℕ
  pub hosts : List EHost
  pub fsid : ℕ
  pub last_mtime : ℕ
  pub dir_hash : ℕ
