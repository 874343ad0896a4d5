-- ===== src/Attr/Put.antt =====
-- src/attr.c: setting attributes. The calls that change a file are answered by the system; what is
-- recorded of them is which were made, and in which order.
use nfsrods.Prelude.{
  ℕ, ◌==◌, Bool, true, false, not, ◌&&◌, ◌||◌, if◌then◌else◌, List, [], ◌∷◌, ◌++◌, Option, none,
  some,
}
use nfsrods.Status.{Nfsstat3, is_ok, nfs3_ok, nfs3err_stale, nfs3err_inval, nfs3err_io}
use nfsrods.Error.{setattr_err}
use nfsrods.Backend.{Stat, s_ischr, s_isblk, s_islnk}
use nfsrods.Fh.Handles.{Handle, get_gen}
use nfsrods.User.Ids.{Settings, mangle_uid, mangle_gid}

-- `set_atime` and `set_mtime` of src/nfs.h.
pub data SetTime : Type 0 where
  dont_change : SetTime
  set_to_server_time : SetTime
  set_to_client_time : ℕ → SetTime

-- `sattr3`; none is a field whose `set_it` is FALSE.
pub record Sattr3 : Type 0 where
  pub mode : Option ℕ
  pub uid : Option ℕ
  pub gid : Option ℕ
  pub size : Option ℕ
  pub atime : SetTime
  pub mtime : SetTime

-- The calls that change a file; an id of none is -1, which leaves it.
pub data Change : Type 0 where
  truncate : ℕ → Change
  chown : Option ℕ → Option ℕ → Change
  chmod : ℕ → Change
  utime : ℕ → ℕ → Change

-- The answers during one operation: `lstat` of the path, `open` for writing and, after that fails,
-- for reading (whether it succeeds), `fstat`, the changes (whether they succeed), `close`, `time`,
-- and the `errno` that a failed change leaves.
pub record Answers : Type 0 where
  pub lstat : Option Stat
  pub open_write : Bool
  pub open_read : Bool
  pub fstat : Option Stat
  pub change_ok : Change → Bool
  pub close_ok : Bool
  pub now : ℕ
  pub errno : Change → ℕ

-- What an operation reports, and the changes that it made, in their order.
pub record Outcome : Type 0 where
  pub status : Nfsstat3
  pub made : List Change

abbrev pub outcome : Nfsstat3 → Outcome
outcome status = record { status = status; made = [] }

-- The changes asked for, one after the other, up to the first that fails.
unfoldable pub apply : Answers → List Change → Outcome
unfolding setattr_err
apply w [] = outcome nfs3_ok
apply w (ch ∷ chs) =
    let rest = apply w chs in
    if w.change_ok ch
    then record rest { made = ch ∷ rest.made }
    else outcome (setattr_err (w.errno ch))

abbrev pub is_unchanged : SetTime → Bool
is_unchanged SetTime.dont_change = true
is_unchanged _ = false

abbrev pub time_of : ℕ → SetTime → ℕ → ℕ
time_of now SetTime.set_to_server_time old = now
time_of now (SetTime.set_to_client_time seconds) old = seconds
time_of now SetTime.dont_change old = old

unfoldable pub set_time : Answers → Stat → Sattr3 → List Change
set_time w buf new =
    if is_unchanged new.atime && is_unchanged new.mtime
    then []
    else Change.utime (time_of w.now new.atime buf.atime) (time_of w.now new.mtime buf.mtime) ∷ []

-- A uid that the file has already becomes -1; the gid is passed on as it is.
abbrev pub new_uid : Stat → Option ℕ → Option ℕ
new_uid buf none = none
new_uid buf (some uid) = if uid == buf.uid then none else some uid

unfoldable pub chown_args : Stat → Sattr3 → List Change
chown_args buf new = elim new.uid [
  | some u ↦ Change.chown (new_uid buf new.uid) new.gid ∷ []
  | none ↦ elim new.gid [ none ↦ [] | some g ↦ Change.chown (new_uid buf new.uid) new.gid ∷ [] ]
]

abbrev pub size_args : Sattr3 → List Change
size_args new = elim new.size [ none ↦ [] | some size ↦ Change.truncate size ∷ [] ]

abbrev pub mode_args : Sattr3 → List Change
mode_args new = elim new.mode [ none ↦ [] | some mode ↦ Change.chmod mode ∷ [] ]

-- The size, the owner and the mode, in the order in which both functions set them.
unfoldable pub wanted : Stat → Sattr3 → List Change
unfolding chown_args
wanted buf new = size_args new ++ (chown_args buf new ++ mode_args new)

-- One list of changes after another; the second is not reached after a failure.
abbrev pub and_then : Outcome → Outcome → Outcome
and_then first second =
    if is_ok first.status then record second { made = first.made ++ second.made } else first

unfoldable pub set_attr_unsafe : Answers → Handle → Sattr3 → Outcome
unfolding apply wanted set_time
set_attr_unsafe w fh new = elim w.lstat [
  | none ↦ outcome nfs3err_stale
  | some buf ↦
      if not (buf.dev == fh.dev) || not (buf.ino == fh.ino)
      then outcome nfs3err_stale
      else and_then (apply w (wanted buf new)) (apply w (set_time w buf new))
]

-- The part of `set_attr` that works on an open descriptor.
unfoldable pub set_attr_open : Answers → Handle → Sattr3 → Outcome
unfolding apply wanted set_time get_gen
set_attr_open w fh new = elim w.fstat [
  | none ↦ outcome nfs3err_stale
  | some buf ↦
      if not (fh.dev == buf.dev) || not (fh.ino == buf.ino) || not (fh.gen == get_gen buf)
      then outcome nfs3err_stale
      else and_then (apply w (wanted buf new))
          (if not w.close_ok then outcome nfs3err_io else apply w (set_time w buf new))
]

-- Device nodes and symlinks are not opened.
unfoldable pub set_attr : Answers → Handle → Sattr3 → Outcome
unfolding set_attr_unsafe set_attr_open
set_attr w fh new = elim w.lstat [
  | none ↦ outcome nfs3err_stale
  | some buf ↦
      if s_isblk buf.mode || s_ischr buf.mode
      then set_attr_unsafe w fh new
      else if s_islnk buf.mode
      then set_attr_unsafe w fh new
      else if not (w.open_write || w.open_read)
      then set_attr_unsafe w fh new
      else set_attr_open w fh new
]

-- `rwxrwxr-x` if no mode is given.
unfoldable pub create_mode : Sattr3 → ℕ
create_mode new = elim new.mode [ none ↦ 509 | some mode ↦ mode ]

abbrev pub differs : (ℕ → ℕ) → Option ℕ → ℕ → Bool
differs used none current = false
differs used (some id) current = not (used id == current)

abbrev pub is_client_time : SetTime → Bool
is_client_time (SetTime.set_to_client_time seconds) = true
is_client_time _ = false

abbrev pub has_size : Option ℕ → Bool
has_size none = false
has_size (some size) = not (size == 0)

-- `euid` and `egid` answer `geteuid` and `getegid`.
unfoldable pub atomic_attr : Settings → ℕ → ℕ → Sattr3 → Nfsstat3
unfolding mangle_uid mangle_gid
atomic_attr s euid egid attr =
    if differs (mangle_uid s) attr.uid euid
      || differs (mangle_gid s) attr.gid egid
      || has_size attr.size
      || is_client_time attr.atime
      || is_client_time attr.mtime
    then nfs3err_inval
    else nfs3_ok
