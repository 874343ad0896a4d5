-- ===== src/Error.antt =====
-- src/error.c: the translation of `errno` to the status codes of the protocol. `errno`, a global
-- of the C library, is an argument.
pub mod Laws
use nfsrods.Prelude.{ℕ, Bool, not, ◌||◌, ◌==◌, if◌then◌else◌}
use nfsrods.Errno.{
  eacces, edquot, eexist, efbig, einval, eisdir, eloop, emlink, enametoolong, enodev, enoent,
  enomedium, enospc, enosys, enotdir, enotempty, enxio, eperm, erofs, exdev,
}
use nfsrods.Status.{
  Nfsstat3, is_ok, of_code, nfs3err_acces, nfs3err_dquot, nfs3err_exist, nfs3err_fbig,
  nfs3err_inval, nfs3err_io, nfs3err_isdir, nfs3err_mlink, nfs3err_noent, nfs3err_nospc,
  nfs3err_notdir, nfs3err_notempty, nfs3err_notsupp, nfs3err_nxio, nfs3err_perm, nfs3err_rofs,
  nfs3err_stale, nfs3err_xdev,
}

is_stale : ℕ → Bool
is_stale errno = errno == enotdir || errno == eloop || errno == enoent || errno == enametoolong

unfoldable pub symlink_err : ℕ → Nfsstat3
unfolding is_stale
symlink_err errno =
    if errno == eacces || errno == eperm
    then nfs3err_acces
    else if is_stale errno
    then nfs3err_stale
    else if errno == erofs
    then nfs3err_rofs
    else if errno == eexist
    then nfs3err_exist
    else if errno == enospc
    then nfs3err_nospc
    else if errno == edquot
    then nfs3err_dquot
    else if errno == enosys
    then nfs3err_notsupp
    else if errno == einval
    then nfs3err_inval
    else nfs3err_io

unfoldable pub mkdir_err : ℕ → Nfsstat3
unfolding symlink_err
mkdir_err errno = symlink_err errno

unfoldable pub mknod_err : ℕ → Nfsstat3
unfolding symlink_err
mknod_err errno = symlink_err errno

unfoldable pub link_err : ℕ → Nfsstat3
unfolding symlink_err
link_err errno =
    if errno == exdev
    then nfs3err_xdev
    else if errno == emlink
    then nfs3err_mlink
    else if errno == edquot
    then nfs3err_dquot
    else symlink_err errno

unfoldable pub lookup_err : ℕ → Nfsstat3
lookup_err errno =
    if errno == enoent
    then nfs3err_noent
    else if errno == enomedium
    then nfs3err_noent
    else if errno == eacces
    then nfs3err_acces
    else if errno == enotdir || errno == eloop || errno == enametoolong
    then nfs3err_stale
    else if errno == einval
    then nfs3err_inval
    else nfs3err_io

unfoldable pub readlink_err : ℕ → Nfsstat3
unfolding is_stale
readlink_err errno =
    if errno == einval
    then nfs3err_inval
    else if errno == eacces
    then nfs3err_acces
    else if errno == enosys
    then nfs3err_notsupp
    else if is_stale errno
    then nfs3err_stale
    else nfs3err_io

unfoldable pub read_err : ℕ → Nfsstat3
unfolding is_stale
read_err errno =
    if errno == einval
    then nfs3err_inval
    else if is_stale errno
    then nfs3err_stale
    else if errno == eacces
    then nfs3err_acces
    else if errno == enxio || errno == enodev
    then nfs3err_nxio
    else nfs3err_io

unfoldable pub write_open_err : ℕ → Nfsstat3
unfolding is_stale
write_open_err errno =
    if errno == eacces
    then nfs3err_acces
    else if is_stale errno
    then nfs3err_stale
    else if errno == einval
    then nfs3err_inval
    else if errno == erofs
    then nfs3err_rofs
    else nfs3err_io

unfoldable pub write_write_err : ℕ → Nfsstat3
write_write_err errno =
    if errno == einval
    then nfs3err_inval
    else if errno == efbig
    then nfs3err_fbig
    else if errno == enospc
    then nfs3err_nospc
    else if errno == edquot
    then nfs3err_dquot
    else nfs3err_io

unfoldable pub create_err : ℕ → Nfsstat3
unfolding is_stale
create_err errno =
    if errno == eacces
    then nfs3err_acces
    else if is_stale errno
    then nfs3err_stale
    else if errno == erofs
    then nfs3err_rofs
    else if errno == enospc
    then nfs3err_nospc
    else if errno == eexist
    then nfs3err_exist
    else if errno == edquot
    then nfs3err_dquot
    else nfs3err_io

unfoldable pub rename_err : ℕ → Nfsstat3
rename_err errno =
    if errno == eisdir
    then nfs3err_isdir
    else if errno == exdev
    then nfs3err_xdev
    else if errno == eexist
    then nfs3err_exist
    else if errno == enotempty
    then nfs3err_notempty
    else if errno == einval
    then nfs3err_inval
    else if errno == enotdir
    then nfs3err_notdir
    else if errno == eacces || errno == eperm
    then nfs3err_acces
    else if errno == enoent
    then nfs3err_noent
    else if errno == eloop || errno == enametoolong
    then nfs3err_stale
    else if errno == erofs
    then nfs3err_rofs
    else if errno == enospc
    then nfs3err_nospc
    else if errno == edquot
    then nfs3err_dquot
    else nfs3err_io

unfoldable pub remove_err : ℕ → Nfsstat3
unfolding of_code
remove_err errno =
    if errno == eacces || errno == eperm
    then nfs3err_acces
    else if errno == enoent
    then of_code enoent
    else if errno == enotdir || errno == eloop || errno == enametoolong
    then nfs3err_stale
    else if errno == einval
    then nfs3err_inval
    else if errno == erofs
    then nfs3err_rofs
    else nfs3err_io

unfoldable pub rmdir_err : ℕ → Nfsstat3
unfolding remove_err
rmdir_err errno = if errno == enotempty then nfs3err_notempty else remove_err errno

unfoldable pub setattr_err : ℕ → Nfsstat3
unfolding is_stale
setattr_err errno =
    if errno == eperm
    then nfs3err_perm
    else if errno == erofs
    then nfs3err_rofs
    else if is_stale errno
    then nfs3err_stale
    else if errno == eacces
    then nfs3err_acces
    else if errno == edquot
    then nfs3err_dquot
    else if errno == einval
    then nfs3err_inval
    else nfs3err_io

unfoldable pub readdir_err : ℕ → Nfsstat3
unfolding is_stale
readdir_err errno =
    if errno == eperm
    then nfs3err_perm
    else if errno == eacces
    then nfs3err_acces
    else if errno == enotdir
    then nfs3err_notdir
    else if is_stale errno
    then nfs3err_stale
    else if errno == einval
    then nfs3err_inval
    else nfs3err_io

-- Combine two error values.
unfoldable pub join : Nfsstat3 → Nfsstat3 → Nfsstat3
join x y = if not (is_ok x) then x else y

-- Combine three error values.
unfoldable pub join3 : Nfsstat3 → Nfsstat3 → Nfsstat3 → Nfsstat3
unfolding join
join3 x y z = if not (is_ok x) then x else join y z
