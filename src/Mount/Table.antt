-- ===== src/Mount/Table.antt =====
-- src/mount.c: the list of mounts, its count, and the calls that end mounts.
use nfsrods.Prelude.{
  ℕ, ◌+◌, ◌-◌, ◌==◌, ltb, Bool, true, not, ◌&&◌, if◌then◌else◌, List, [], ◌∷◌, ◌++◌, Option, none,
  some, str_eq,
}
use nfsrods.Backend.{FilePath}
use nfsrods.FdCache.Table.{Cache, Sys}
use nfsrods.FdCache.Calls.{fd_cache_purge}

-- `struct mountbody`
pub record Mountbody : Type 0 where
  pub hostname : List ℕ
  pub directory : FilePath

-- `mount_list`, `mount_cnt`
pub record Mounts : Type 0 where
  pub mount_list : List Mountbody
  pub mount_cnt : ℕ

abbrev pub no_mounts : Mounts
no_mounts = record { mount_list = []; mount_cnt = 0 }

-- `memory` is whether the three allocations succeed; `host` is the caller's address, as text.
unfoldable pub add_mount : Bool → List ℕ → FilePath → Mounts → Mounts
add_mount memory host path m = if not memory then m else record {
  mount_list = m.mount_list ++ (record { hostname = host; directory = path } ∷ []);
  mount_cnt = m.mount_cnt + 1;
}

-- The test of the loop of `remove_mount`; no path stands for every path.
unfoldable pub is_removed : List ℕ → Option FilePath → Mountbody → Bool
is_removed host path b =
    str_eq b.hostname host && elim path [ none ↦ true | some p ↦ str_eq b.directory p ]

-- The loop: each removed entry decrements the count, which stops at 0.
unfoldable pub remove_from : List ℕ → Option FilePath → List Mountbody → ℕ → Mounts
unfolding is_removed
remove_from host path [] count = record { mount_list = []; mount_cnt = count }
remove_from host path (b ∷ bs) count =
    let gone = is_removed host path b in
    let rest = remove_from host path bs (if gone && ltb 0 count then count - 1 else count) in
    if gone then rest else record rest { mount_list = b ∷ rest.mount_list }

unfoldable pub remove_mount : List ℕ → Option FilePath → Mounts → Mounts
unfolding remove_from
remove_mount host path m = remove_from host path m.mount_list m.mount_cnt

-- `mountproc_dump_3_svc`
unfoldable pub mountproc_dump : Mounts → List Mountbody
mountproc_dump m = m.mount_list

-- What both procedures end with: without mounts, every cached descriptor is closed.
abbrev pub flush_if_idle : Sys → Mounts → Cache → Mounts × Cache
flush_if_idle sys m c = (m, if m.mount_cnt == 0 then fd_cache_purge sys c else c)

-- `mountproc_umnt_3_svc`
unfoldable pub mountproc_umnt : Sys → List ℕ → FilePath → Mounts → Cache → Mounts × Cache
unfolding remove_mount
mountproc_umnt sys host path m c = flush_if_idle sys (remove_mount host (some path) m) c

-- `mountproc_umntall_3_svc`
unfoldable pub mountproc_umntall : Sys → List ℕ → Mounts → Cache → Mounts × Cache
unfolding remove_mount
mountproc_umntall sys host m c = flush_if_idle sys (remove_mount host none m) c
