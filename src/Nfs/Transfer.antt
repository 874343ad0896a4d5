-- ===== src/Nfs/Transfer.antt =====
-- src/nfs.c: READ and WRITE.
use nfsrods.Prelude.{
  ℕ, ltb, Bool, true, false, not, if◌then◌else◌, List, [], ◌∷◌, Option, none, some, length,
}
use nfsrods.Backend.{FilePath}
use nfsrods.Status.{Nfsstat3, nfs3_ok, is_ok}
use nfsrods.Error.{join, read_err, write_open_err, write_write_err}
use nfsrods.Fh.Handles.{NfsFh}
use nfsrods.FdCache.Table.{Kind, Result, Sys, Cache}
use nfsrods.FdCache.Calls.{fd_open, fd_close}
use nfsrods.User.Switch.{read_executable, read_by_owner, write_by_owner}
use nfsrods.Attr.Get.{Fattr3, is_reg, get_post_stat}
use nfsrods.Exports.Lookup.{exports_rw}
use nfsrods.Nfs.Paths.{real_path}
use nfsrods.Nfs.Prep.{
  Env, State, Handled, replied, stopped, with_prep, prep, prepared, turned_down, ended, view, site,
  collection_path, wcc, WccData, i_write, backend_pwrite,
}

-- `NFS_MAXDATA_TCP`, `NFS_MAXDATA_UDP`
abbrev pub maxdata : Bool → ℕ
maxdata is_stream = if is_stream then 524288 else 32768

pub record ReadRes : Type 0 where
  pub status : Nfsstat3
  pub file_attributes : Option Fattr3
  pub count : ℕ
  pub eof : Bool
  pub contents : List ℕ

abbrev pub no_data : Nfsstat3 → Option Fattr3 → ReadRes
no_data status attr = record {
  status = status;
  file_attributes = attr;
  count = 0;
  eof = false;
  contents = [];
}

-- The length that is asked of the iRODS server: at most what a reply can carry.
unfoldable pub read_count : Bool → ℕ → ℕ
read_count is_stream count = if ltb (maxdata is_stream) count then maxdata is_stream else count

-- What the iRODS client answers: the object cannot be opened; the bytes read, if it reads any; or a
-- count of 0 or below, as the 64-bit word that it becomes.
pub data Pulled : Type 0 where
  not_opened : Pulled
  pulled : List ℕ → Pulled
  no_bytes : ℕ → Pulled

-- The attributes have `bytesRead` for both sizes, whatever the status is.
pub sized : ℕ → Option Fattr3 → Option Fattr3
sized bytes_read attr = elim attr [
  | none ↦ none
  | some a ↦ some (record a { size = bytes_read; used = bytes_read })
]

-- The process with the rights to read, after `read_executable` and `read_by_owner`.
as_reader : Env → State → State
as_reader env now =
    let buf = now.stat_cache.stat in
    record now {
      process =
          read_by_owner now.settings env.host env.req buf
            (read_executable now.settings env.host env.req buf now.process);
    }

-- `errno` is what is left of a failure, and `unset` what `bytesRead` happens to hold where nothing
-- is stored in it.
unfoldable pub read :
    Env → (FilePath → ℕ → ℕ → Pulled) → ℕ → ℕ → Bool → NfsFh → ℕ → ℕ → State → Handled ReadRes
unfolding read_count collection_path sized as_reader
read env read_object errno unset is_stream file offset count st =
    with_prep env file st (λ status. no_data status none)
      (λ path now.
        let status = is_reg now.stat_cache in
        let later = as_reader env now in
        let attr =
          get_post_stat env.fs_after (view env later) later.stat_cache (some path) env.req in
        let asked = read_count is_stream count in
        if not (is_ok status)
        then replied (no_data status (sized unset attr)) later []
        else elim (read_object (collection_path env now path) offset asked) [
          | not_opened ↦ replied (no_data (read_err errno) (sized unset attr)) later []
          | no_bytes bytes_read ↦
              replied (no_data (read_err errno) (sized bytes_read attr)) later []
          | pulled got ↦
              replied
                (record {
                  status = nfs3_ok;
                  file_attributes = sized (length got) attr;
                  count = length got;
                  eof = ltb (length got) asked;
                  contents = got;
                })
                later []
        ])

-- `UNSTABLE`, `DATA_SYNC`, `FILE_SYNC`
pub data StableHow : Type 0 where
  unstable data_sync file_sync : StableHow

abbrev pub is_unstable : StableHow → Bool
is_unstable unstable = true
is_unstable data_sync = false
is_unstable file_sync = false

-- `fsync` is always called, never `fdatasync`.
abbrev committed_as : StableHow → StableHow
committed_as unstable = unstable
committed_as data_sync = file_sync
committed_as file_sync = file_sync

-- With NFS3_OK: `count`, `committed`, and the verifier of the descriptor cache.
pub record Written : Type 0 where
  pub count : ℕ
  pub committed : StableHow
  pub verf : List ℕ

pub record WriteRes : Type 0 where
  pub status : Nfsstat3
  pub file_wcc : Option WccData
  pub resok : Option Written

abbrev pub no_write : Nfsstat3 → WriteRes
no_write status = record { status = status; file_wcc = none; resok = none }

-- `pwrite` answers for a descriptor, as `backend_pwrite` does: the number of bytes, or none. Also
-- what the cache of descriptors becomes: of the descriptor, of `pwrite` and of `fd_close`.
unfoldable pub write_data :
    Sys
    → (ℕ → Option ℕ)
    → ℕ
    → StableHow
    → FilePath
    → NfsFh
    → Cache
    → (Nfsstat3 × Option Written) × (Cache × Bool)
write_data sys pwrite errno stable path file fds =
    let (opened, result) = fd_open sys fds path file.obj Kind.write (is_unstable stable) in
    elim result [
      | Result.failed e ↦ ((write_open_err e, none), (opened, false))
      | Result.opened fd ↦
          let (closed, close_ok) = fd_close sys opened fd Kind.write (not (is_unstable stable)) in
          elim (pwrite fd) [
            | none ↦ ((write_write_err errno, none), (closed, true))
            | some res ↦
                if close_ok
                then (
                  (
                    nfs3_ok,
                    some (record {
                      count = res;
                      committed = committed_as stable;
                      verf = closed.verifier;
                    }),
                  ),
                  (closed, true),
                )
                else ((write_write_err errno, none), (closed, true))
          ]
    ]

-- The reply, with the cache of descriptors.
unfoldable pub write :
    Env
    → Sys
    → (ℕ → Option ℕ)
    → ℕ
    → NfsFh
    → ℕ
    → StableHow
    → List ℕ
    → State
    → Cache
    → Handled WriteRes × Cache
unfolding write_data wcc collection_path prep
write env sys pwrite errno file offset stable contents st fds = elim (prep env file st) [
  | turned_down status now ↦ (replied (no_write status) now [], fds)
  | ended ↦ (stopped, fds)
  | prepared dir now ↦
      let path = real_path (site env now) env.auth.uid dir in
      let status = join (is_reg now.stat_cache) (exports_rw now.last) in
      let proc = write_by_owner now.settings env.host env.req now.stat_cache.stat now.process in
      let later = record now { process = proc } in
      let after = wcc env path later in
      if not (is_ok status)
      then (replied (record { status = status; file_wcc = some after; resok = none }) later [], fds)
      else (let ((final, written), (kept, was_open)) =
            write_data sys pwrite errno stable path file fds in
          let calls =
            if was_open
            then backend_pwrite path contents offset
              ∷ i_write (collection_path env later path) contents offset
              ∷ []
            else [] in
          (
            replied (record { status = final; file_wcc = some after; resok = written }) later calls,
            kept,
          ))
]
