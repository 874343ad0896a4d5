-- ===== src/Nfs/Paths.antt =====
-- src/nfs.c and src/irodsapi/rodscapi.c: the name of an object in a directory, and the paths that a
-- request is carried out on: in the directory of the user, and in the collection of the user.
use nfsrods.Prelude.{
  ℕ, ◌+◌, ◌==◌, ltb, Bool, false, ◌||◌, if◌then◌else◌, List, [], ◌∷◌, ◌++◌, Option, none, some,
  length, drop, bytes, str_eq,
}
use nfsrods.Backend.{FilePath}
use nfsrods.Status.{Nfsstat3, nfs3_ok, nfs3err_stale, nfs3err_acces, nfs3err_nametoolong}
use nfsrods.Fh.Handles.{slash}
use nfsrods.Backend.{nfs_maxpathlen}
use nfsrods.Exports.Lookup.{has_part}

-- `strchr(name, '/') != NULL`
abbrev has_slash : List ℕ → Bool
has_slash [] = false
has_slash (c ∷ cs) = c == slash || has_slash cs

-- What stands before the last slash, if there is one.
abbrev pub before_last : FilePath → Option FilePath
before_last [] = none
before_last (c ∷ cs) = elim (before_last cs) [
  | some p ↦ some (c ∷ p)
  | none ↦ if c == slash then some [] else none
]

-- "..": the path up to its last slash, or "/".
unfoldable pub parent : FilePath → FilePath
parent path = elim (before_last path) [
  | none ↦ slash ∷ []
  | some [] ↦ slash ∷ []
  | some (c ∷ p) ↦ c ∷ p
]

-- The status, and what is stored in `result` if it is NFS3_OK; none is a null pointer.
unfoldable pub cat_name : Option FilePath → Option (List ℕ) → Nfsstat3 × Option FilePath
unfolding parent
cat_name none name = (nfs3err_stale, none)
cat_name (some path) none = (nfs3err_acces, none)
cat_name (some path) (some name) =
    if length name == 0 || has_slash name
    then (nfs3err_acces, none)
    else if ltb nfs_maxpathlen (length path + length name + 2)
    then (nfs3err_nametoolong, none)
    else if str_eq name (bytes ".")
    then (nfs3_ok, some path)
    else if str_eq name (bytes "..")
    then (nfs3_ok, some (parent path))
    else (nfs3_ok, some (path ++ (slash ∷ name)))

-- The configuration: `isPublic()`, `ZONE`, `export_path`; and of the C library `sprintf` with "%d"
-- and the name that `getpwuid` has for an id.
pub record Site : Type 0 where
  pub is_public : Bool
  pub zone : List ℕ
  pub export_path : FilePath
  pub sprintf_d : ℕ → List ℕ
  pub getpwuid : ℕ → Option (List ℕ)

-- The copy from a position, which starts at 1; it ends with the string, as long as the position is
-- not behind its end.
unfoldable pub substring : List ℕ → ℕ → List ℕ
substring string skipped = drop skipped string

-- `getNFSDirectory`
unfoldable pub nfs_directory : Site → ℕ → List ℕ
nfs_directory site uid = if site.is_public then bytes "public" else site.sprintf_d uid

-- The directory of a user below the export.
unfoldable pub user_root : Site → ℕ → FilePath
unfolding nfs_directory
user_root site uid = (site.export_path ++ (slash ∷ [])) ++ nfs_directory site uid

-- `getRealPathNFS`
unfoldable pub real_path : Site → ℕ → FilePath → FilePath
unfolding user_root substring
real_path site uid path =
    if site.is_public
    then path
    else if has_part (user_root site uid) path
    then path
    else user_root site uid ++ substring path (length site.export_path)

-- `getIRODSpathGetAttr`
unfoldable pub irods_path : Site → ℕ → FilePath → FilePath
unfolding substring
irods_path site uid path =
    if site.is_public
    then substring path (length site.export_path)
    else substring path (length site.export_path + length (site.sprintf_d uid) + 1)

-- `concatProxy`
concat_proxy : List ℕ → List ℕ → List ℕ → List ℕ
concat_proxy zone user_name path = ((zone ++ bytes "/home/") ++ user_name) ++ path

-- `getRodsPath`; an id without a name is an empty name.
unfoldable pub rods_path : Site → ℕ → FilePath → FilePath
unfolding concat_proxy
rods_path site uid path =
    let zone = slash ∷ site.zone in
    if site.is_public then concat_proxy zone (bytes "public") path else elim (site.getpwuid uid) [
      | none ↦ concat_proxy zone [] path
      | some name ↦ concat_proxy zone name path
    ]
