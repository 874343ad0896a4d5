-- ===== src/Error/Laws.antt =====
-- src/error.c: the codes that callers get.
use nfsrods.Prelude.{ℕ, ◌≡◌, ◌↔◌, Bool, true, false, ◌||◌, ◌==◌, arith, List, [], ◌∷◌}
use nfsrods.Errno.{enoent, enotdir, eloop, enametoolong}
use nfsrods.Status.{Nfsstat3, nfs3_ok, nfs3err_stale, is_failure}
use nfsrods.Error.{
  symlink_err, mkdir_err, mknod_err, link_err, lookup_err, readlink_err, read_err, write_open_err,
  write_write_err, create_err, rename_err, remove_err, rmdir_err, setattr_err, readdir_err, join,
  join3,
}

-- The system calls whose failures are translated.
pub data Call : Type 0 where
  symlink mkdir mknod link lookup readlink read write_open write_write create rename remove rmdir
        setattr readdir :
      Call

abbrev pub translate : Call → ℕ → Nfsstat3
translate Call.symlink e = symlink_err e
translate Call.mkdir e = mkdir_err e
translate Call.mknod e = mknod_err e
translate Call.link e = link_err e
translate Call.lookup e = lookup_err e
translate Call.readlink e = readlink_err e
translate Call.read e = read_err e
translate Call.write_open e = write_open_err e
translate Call.write_write e = write_write_err e
translate Call.create e = create_err e
translate Call.rename e = rename_err e
translate Call.remove e = remove_err e
translate Call.rmdir e = rmdir_err e
translate Call.setattr e = setattr_err e
translate Call.readdir e = readdir_err e

-- Whatever `errno` is, a failed call is answered by a named error code of the protocol: never by
-- NFS3_OK, and never by a number outside the enum.
pub translate-is_failure : (c : Call) (e : ℕ) → is_failure (translate c e) ≡ true
unfolding symlink_err mkdir_err mknod_err link_err lookup_err readlink_err read_err write_open_err
    write_write_err create_err rename_err remove_err rmdir_err setattr_err readdir_err
translate-is_failure Call.symlink e = ground arith
translate-is_failure _ e = ground arith

abbrev one_of : ℕ → List ℕ → Bool
one_of e [] = false
one_of e (x ∷ xs) = e == x || one_of e xs

-- The errors that mean, for a call, that the file handle no longer names the object.
abbrev stale_errors : Call → List ℕ
stale_errors Call.write_write = []
stale_errors Call.rename = eloop ∷ enametoolong ∷ []
stale_errors Call.lookup = enotdir ∷ eloop ∷ enametoolong ∷ []
stale_errors Call.remove = enotdir ∷ eloop ∷ enametoolong ∷ []
stale_errors Call.rmdir = enotdir ∷ eloop ∷ enametoolong ∷ []
stale_errors Call.readdir = eloop ∷ enoent ∷ enametoolong ∷ []
stale_errors _ = enotdir ∷ eloop ∷ enoent ∷ enametoolong ∷ []

-- A call is answered by NFS3ERR_STALE for exactly the errors that its row of the table
-- `stale_errors` lists.
pub translate-stale_iff :
    (c : Call) (e : ℕ) → (translate c e ≡ nfs3err_stale) ↔ (one_of e (stale_errors c) ≡ true)
unfolding symlink_err mkdir_err mknod_err link_err lookup_err readlink_err read_err write_open_err
    write_write_err create_err rename_err remove_err rmdir_err setattr_err readdir_err
translate-stale_iff Call.symlink e = ground arith
translate-stale_iff _ e = ground arith

-- Three results combine to NFS3_OK exactly if all are NFS3_OK, and the combination is the same
-- however it is bracketed.
pub join3_all_ok :
    (x y z : Nfsstat3)
    → ((join3 x y z ≡ nfs3_ok) ↔ ((x ≡ nfs3_ok) × (y ≡ nfs3_ok) × (z ≡ nfs3_ok)))
      × (join3 x y z ≡ join (join x y) z)
unfolding join3
join3_all_ok nfs3_ok nfs3_ok z = ground arith
join3_all_ok x y z = ground arith
