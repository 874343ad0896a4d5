-- ===== src/Tests/Descriptors.antt =====
-- Runs of the models of src/fd_cache.c and src/mount.c.
use nfsrods.Prelude.{
  ℕ, ◌%◌, ◌≡◌, ◌⊎◌, refl, true, false, [], ◌∷◌, none, some, bytes, get_elem?, if◌then◌else◌, ◌==◌,
  arith,
}
use nfsrods.Fh.Handles.{get_gen}
use nfsrods.FdCache.Table.{
  Entry, Cache, Kind, Result, Sys, init, search_slot, idx_by_fh, fd_cache_unused, fd_cache_add,
  fd_cache_del, del_at, finish_del, has_fh, regenerate_write_verifier,
}
use nfsrods.FdCache.Calls.{fd_open, fd_sync, fd_cache_purge, open_new, sweep, sweep_one}
use nfsrods.FdCache.Counts.{init-Counted}
use nfsrods.FdCache.Keep.{fd_open-Counted}
use nfsrods.FdCache.Sweep.{fd_cache_purge-closed}
use nfsrods.FdCache.Reports.{fd_sync-verifier}
use nfsrods.Mount.Table.{Mounts}
use nfsrods.Tests.Samples.{file_stat, file_a, handle_a}

-- Files are opened as descriptor 30; `fsync` of it fails.
abbrev pub sys : Sys
sys = record {
  now = 50;
  pid_rand = λ i. 1000;
  fsync_ok = λ fd. if fd == 30 then false else true;
  close_ok = λ fd. true;
  open_file = λ path kind. Result.opened 30;
  fstat = λ fd. some file_stat;
}

-- The file is opened for writing, closed, and left in the cache.
abbrev with_fd : Cache
with_fd = (fd_open sys init file_a handle_a Kind.write true).0

fd_sync-verifier_example :
    (((fd_sync sys with_fd handle_a).1 ≡ true)
      × ((fd_sync sys with_fd handle_a).0.verifier ≡ with_fd.verifier))
    ⊎ (((fd_sync sys with_fd handle_a).1 ≡ false)
        × (i : ℕ) × (e : Entry) × (get_elem? with_fd.entries i ≡ some e)
        × (has_fh handle_a Kind.write e ≡ true)
        × (get_elem? (fd_sync sys with_fd handle_a).0.verifier 4 ≡ (
            if 4 == 0
            then some (sys.pid_rand i % 256)
            else if 4 == 4
            then some (sys.now % 256)
            else get_elem? with_fd.verifier 4)))
unfolding init fd_open open_new fd_cache_add fd_cache_unused idx_by_fh search_slot get_gen
fd_sync-verifier_example = fd_sync-verifier sys with_fd handle_a 4 refl

-- What the sync of that file gives.
failed_sync : get_elem? (fd_sync sys with_fd handle_a).0.verifier 4 ≡ some 50
unfolding fd_sync idx_by_fh search_slot fd_open open_new fd_cache_add fd_cache_unused init get_gen
    fd_cache_del del_at finish_del regenerate_write_verifier
failed_sync = refl

-- A slot whose descriptor is gone, after the failure of an earlier close.
abbrev pending_entry : Entry
pending_entry = record { fd = none; kind = Kind.write; use_time = 40; dev = 1; ino = 5; gen = 5 }

abbrev pending : Cache
pending = record {
  entries = pending_entry ∷ [];
  readers = 0;
  writers = 0;
  verifier = [];
  closed = [];
}

-- The only open descriptor after the file was opened stands in slot 0; a purge closes it.
abbrev swept : Entry
swept = record { fd = none; kind = Kind.write; use_time = 50; dev = 1; ino = 5; gen = 5 }

fd_cache_purge-closed_example : swept.fd ≡ none
unfolding fd_cache_purge sweep sweep_one fd_cache_del del_at finish_del fd_open open_new idx_by_fh
    search_slot fd_cache_add fd_cache_unused init get_gen
fd_cache_purge-closed_example =
    fd_cache_purge-closed sys with_fd 0 swept
      (fd_open-Counted sys init file_a handle_a Kind.write true (omega arith) init-Counted) refl

abbrev mounts : Mounts
mounts = record {
  mount_list =
      record { hostname = bytes "h1"; directory = bytes "/a" }
      ∷ (record { hostname = bytes "h1"; directory = bytes "/b" } ∷ []);
  mount_cnt = 2;
}
