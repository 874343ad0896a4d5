-- ===== src/Locate.antt =====
-- src/locate.c: the exhaustive search for an object that the other ways do not find. `/etc/mtab` is
-- read through the C library, so the list of mount points is an argument.
pub mod Laws
use nfsrods.Prelude.{
  ℕ, zero, suc, ◌+◌, ◌≡◌, Bool, true, false, not, ◌&&◌, ◌||◌, ◌==◌, ltb, leb, if◌then◌else◌, List,
  [], ◌∷◌, Option, none, some, length, str_eq,
}
use nfsrods.Backend.{FilePath, Stat, FileSys, nfs_maxpathlen, s_isdir}
use nfsrods.Fh.Resolve.{Found, join_path, is_dot}

module _ (fs : FileSys) (dev ino : ℕ) where
  -- The loop of `locate_pfx` over the names of a directory; `rec` descends.
  unfoldable pub locate_scan : (FilePath → Option Found) → FilePath → List FilePath → Option Found
  locate_scan rec pfx [] = none
  locate_scan rec pfx (name ∷ names) =
      let next = locate_scan rec pfx names in
      let path = join_path pfx name in
      if leb nfs_maxpathlen (length pfx + length name + 2) then next else elim (fs.lstat path) [
        | none ↦ next
        | some buf ↦
            if buf.dev == dev && buf.ino == ino
            then some (record { path = path; stat = buf })
            else if buf.dev == dev && s_isdir buf.mode && not (is_dot name)
            then elim (rec path) [ none ↦ next | some f ↦ some f ]
            else next
      ]

  -- `locate_pfx`, on fuel: a path of NFS_MAXPATHLEN bytes has nothing below it.
  unfoldable pub locate_pfx : ℕ → FilePath → Option Found
  unfolding locate_scan
  locate_pfx zero pfx = none
  locate_pfx (suc fuel) pfx = elim (fs.list_dir pfx) [
    | none ↦ none
    | some names ↦ locate_scan (locate_pfx fuel) pfx names
  ]

  -- The first mount point on the device.
  unfoldable pub mount_point : List FilePath → Option FilePath
  mount_point [] = none
  mount_point (dir ∷ dirs) =
      let next = mount_point dirs in
      elim (fs.lstat dir) [ none ↦ next | some buf ↦ if buf.dev == dev then some dir else next ]

  -- `locate_file`; `brute_force` is the option -b, `mtab` the mount points, if they can be read.
  unfoldable pub locate_file : Bool → Option (List FilePath) → Option Found
  unfolding mount_point locate_pfx
  locate_file brute_force mtab = if not brute_force then none else elim mtab [
    | none ↦ none
    | some dirs ↦ elim (mount_point dirs) [ none ↦ none | some dir ↦ locate_pfx nfs_maxpathlen dir ]
  ]
