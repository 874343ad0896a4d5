-- ===== src/Readdir/Page.antt =====
-- src/readdir.c: `read_dir`.
use nfsrods.Prelude.{
  ℕ, suc, ◌+◌, ◌*◌, ◌/◌, ◌%◌, ◌==◌, ltb, Bool, true, false, not, ◌&&◌, if◌then◌else◌, List, [], ◌∷◌,
  ◌++◌, none, some, length, drop, str_eq,
}
use nfsrods.Status.{Nfsstat3, nfs3err_io}
use nfsrods.Error.{readdir_err}
use nfsrods.Backend.{FilePath, FileSys, nfs_maxpathlen, u32_mod}
use nfsrods.Fh.Handles.{slash}

-- `MAX_ENTRIES`, `RESOK_SIZE`, `ENTRY_SIZE`.
abbrev pub max_entries : ℕ
max_entries = 143

abbrev pub resok_size : ℕ
resok_size = 104

abbrev pub entry_size : ℕ
entry_size = 24

-- `NAME_SIZE`
abbrev pub name_size : FilePath → ℕ
name_size name = ((length name + 3) / 4) * 4

-- `entry3`; the list is the chain of `nextentry`.
pub record Entry3 : Type 0 where
  pub fileid : ℕ
  pub name : FilePath
  pub cookie : ℕ

-- `READDIR3res`: a status, or the entries and `eof`. The cookie verifier is always 0.
pub data Readdir3res : Type 0 where
  resok : List Entry3 → Bool → Readdir3res
  resfail : Nfsstat3 → Readdir3res

-- `sprintf` of the path of a name.
abbrev pub path_of : FilePath → FilePath → FilePath
path_of dir name = if str_eq dir (slash ∷ []) then slash ∷ name else dir ++ (slash ∷ name)

-- `(cookie + 1 + i) | rcookie`, for a `rcookie` whose lower half is 0 and a cookie below 2^32: the
-- sum, as long as it stays below 2^32.
abbrev pub cookie_of : ℕ → ℕ → ℕ
cookie_of rcookie place = rcookie * u32_mod + place + 1

-- The cookie that a client sent, without its upper half; a cookie of another run is 0. `rcookie` is
-- given by its upper half.
unfoldable pub start_of : ℕ → ℕ → ℕ
start_of rcookie cookie = if not (cookie / u32_mod == rcookie) then 0 else cookie % u32_mod

-- The loop over the names that are left, at `entry[i]`, with `real_count` bytes so far. An entry
-- that overflows `count` is unlinked again, unless it is the first.
unfoldable pub fill :
    FileSys → (FilePath → ℕ) → FilePath → ℕ → ℕ → ℕ → ℕ → ℕ → List FilePath → Readdir3res
unfolding readdir_err
fill fs errno dir rcookie start count real_count i [] = Readdir3res.resok [] true
fill fs errno dir rcookie start count real_count i (name ∷ names) =
    let size = real_count + entry_size + name_size name in
    let rest = fill fs errno dir rcookie start count size (suc i) names in
    if not (ltb real_count count && ltb i max_entries)
    then Readdir3res.resok [] false
    else if not (ltb (length dir + length name + 1) nfs_maxpathlen)
    then Readdir3res.resfail nfs3err_io
    else elim (fs.lstat (path_of dir name)) [
      | none ↦ Readdir3res.resfail (readdir_err (errno (path_of dir name)))
      | some buf ↦ if ltb count size && ltb 0 i then Readdir3res.resok [] false else elim rest [
        | Readdir3res.resfail status ↦ Readdir3res.resfail status
        | Readdir3res.resok entries eof ↦
            Readdir3res.resok
              (record { fileid = buf.ino; name = name; cookie = cookie_of rcookie (start + i) }
                ∷ entries)
              eof
      ]
    ]

-- `is_removable` is `(exports_opts & OPT_REMOVABLE) && export_point(path)`, and `errno` is what a
-- failing call on a path leaves.
unfoldable pub read_dir : FileSys → (FilePath → ℕ) → Bool → ℕ → FilePath → ℕ → ℕ → Readdir3res
unfolding fill start_of readdir_err
read_dir fs errno is_removable rcookie dir cookie count =
    let start = start_of rcookie cookie in
    let room = if ltb 4096 count then 4096 else count in
    elim (fs.list_dir dir) [
      | none ↦
          if is_removable
          then Readdir3res.resok [] true
          else Readdir3res.resfail (readdir_err (errno dir))
      | some names ↦ fill fs errno dir rcookie start room resok_size 0 (drop start names)
    ]
