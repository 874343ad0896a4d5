-- ===== src/Tests/Samples.antt =====
-- A small file system for the runs: the directory "/", inode 2 of device 1, with one file "a",
-- inode 5, of user 7 and group 8.
use nfsrods.Prelude.{
  ℕ, true, false, ◌==◌, if◌then◌else◌, List, [], ◌∷◌, Option, none, some, str_eq, bytes,
}
use nfsrods.Backend.{FilePath, Stat, FileSys, StatCache}
use nfsrods.Fh.Handles.{Handle, slash, fh_hash}
use nfsrods.User.Ids.{Settings, AuthUnix, Request}

abbrev pub stat_of : ℕ → ℕ → Stat
stat_of ino mode = record {
  dev = 1;
  ino = ino;
  mode = mode;
  nlink = 1;
  uid = 7;
  gid = 8;
  rdev = 0;
  size = 10;
  blksize = 512;
  blocks = 1;
  atime = 100;
  mtime = 200;
  ctime = 300;
}

-- `drwxr-xr-x` and `-rwxr--r--`.
abbrev pub dir_stat : Stat
dir_stat = stat_of 2 16877

abbrev pub file_stat : Stat
file_stat = stat_of 5 33252

abbrev pub relative : FilePath → FilePath
relative [] = []
relative (c ∷ cs) = if c == slash then relative cs else c ∷ cs

abbrev pub stat_at : FilePath → Option Stat
stat_at name =
    if str_eq name []
    then some dir_stat
    else if str_eq name (bytes ".")
    then some dir_stat
    else if str_eq name (bytes "..")
    then some dir_stat
    else if str_eq name (bytes "a")
    then some file_stat
    else none

abbrev pub file_a : FilePath
file_a = bytes "/a"

abbrev pub names_of_root : List FilePath
names_of_root = bytes "." ∷ (bytes ".." ∷ (bytes "a" ∷ []))

abbrev pub small_fs : FileSys
small_fs = record {
  lstat = λ p. stat_at (relative p);
  list_dir = λ p. if str_eq (relative p) [] then some names_of_root else none;
}

-- The handle of "/a".
abbrev pub handle_a : Handle
handle_a = record { dev = 1; ino = 5; gen = 5; pwhash = 0; inos = fh_hash 5 ∷ [] }

abbrev pub no_stat : StatCache
no_stat = record { valid = false; stat = dir_stat }

-- A server that squashes root, and one more that lets it through.
abbrev pub squashing : Settings
squashing = record {
  squash_uid = 65534;
  squash_gid = 65534;
  can_switch = true;
  exports_opts = 4;
  anonuid = 4294967295;
  anongid = 4294967295;
}

abbrev pub root_user : AuthUnix
root_user = record { uid = 0; gid = 0; gids = 0 ∷ (20 ∷ []) }

abbrev pub root_request : Request
root_request = Request.auth_unix root_user
