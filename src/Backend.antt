-- ===== src/Backend.antt =====
-- src/backend_unix.h: what the sources ask of the file system, as far as it does not change it.
-- The calls themselves are the system's; one value of `FileSys` is its state during one operation.
use nfsrods.Prelude.{ℕ, ◌/◌, ◌%◌, ◌^◌, Bool, ◌==◌, List, Option}

abbrev pub FilePath : Type 0
FilePath = List ℕ

-- `struct stat`, with the fields that the sources read.
pub record Stat : Type 0 where
  pub dev : ℕ
  pub ino : ℕ
  pub mode : ℕ
  pub nlink : ℕ
  pub uid : ℕ
  pub gid : ℕ
  pub rdev : ℕ
  pub size : ℕ
  pub blksize : ℕ
  pub blocks : ℕ
  pub atime : ℕ
  pub mtime : ℕ
  pub ctime : ℕ

-- `lstat`, and `opendir` with the names that `readdir` then returns; `none` is an error.
pub record FileSys : Type 0 where
  pub lstat : FilePath → Option Stat
  pub list_dir : FilePath → Option (List FilePath)

abbrev pub u32_mod : ℕ
u32_mod = 2 ^ 32

-- `S_IFMT` selects the four bits above the twelve of the permissions.
abbrev pub file_type : ℕ → ℕ
file_type mode = (mode / 2 ^ 12) % 16

abbrev pub s_isfifo : ℕ → Bool
s_isfifo mode = file_type mode == 1

abbrev pub s_ischr : ℕ → Bool
s_ischr mode = file_type mode == 2

abbrev pub s_isdir : ℕ → Bool
s_isdir mode = file_type mode == 4

abbrev pub s_isblk : ℕ → Bool
s_isblk mode = file_type mode == 6

abbrev pub s_isreg : ℕ → Bool
s_isreg mode = file_type mode == 8

abbrev pub s_islnk : ℕ → Bool
s_islnk mode = file_type mode == 10

abbrev pub s_issock : ℕ → Bool
s_issock mode = file_type mode == 12

-- `#define NFS_MAXPATHLEN 1024` of src/nfs.h.
abbrev pub nfs_maxpathlen : ℕ
nfs_maxpathlen = 1024

-- The stat cache of src/fh.c: `st_cache_valid` and `st_cache`.
pub record StatCache : Type 0 where
  pub valid : Bool
  pub stat : Stat
