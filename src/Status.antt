-- ===== src/Status.antt =====
-- The status codes of the protocol: `enum nfsstat3` of src/nfs.h.
use nfsrods.Prelude.{ℕ, Bool, true, false, ◌==◌, if◌then◌else◌}

-- `undeclared n` is a value of the C enum that nfs.h gives no name.
pub data Nfsstat3 : Type 0 where
  nfs3_ok : Nfsstat3
  nfs3err_perm : Nfsstat3
  nfs3err_noent : Nfsstat3
  nfs3err_io : Nfsstat3
  nfs3err_nxio : Nfsstat3
  nfs3err_acces : Nfsstat3
  nfs3err_exist : Nfsstat3
  nfs3err_xdev : Nfsstat3
  nfs3err_nodev : Nfsstat3
  nfs3err_notdir : Nfsstat3
  nfs3err_isdir : Nfsstat3
  nfs3err_inval : Nfsstat3
  nfs3err_fbig : Nfsstat3
  nfs3err_nospc : Nfsstat3
  nfs3err_rofs : Nfsstat3
  nfs3err_mlink : Nfsstat3
  nfs3err_nametoolong : Nfsstat3
  nfs3err_notempty : Nfsstat3
  nfs3err_dquot : Nfsstat3
  nfs3err_stale : Nfsstat3
  nfs3err_remote : Nfsstat3
  nfs3err_badhandle : Nfsstat3
  nfs3err_not_sync : Nfsstat3
  nfs3err_bad_cookie : Nfsstat3
  nfs3err_notsupp : Nfsstat3
  nfs3err_toosmall : Nfsstat3
  nfs3err_serverfault : Nfsstat3
  nfs3err_badtype : Nfsstat3
  nfs3err_jukebox : Nfsstat3
  undeclared : ℕ → Nfsstat3

-- The enum value that an integer is converted to.
unfoldable pub of_code : ℕ → Nfsstat3
of_code n =
    if n == 0
    then nfs3_ok
    else if n == 1
    then nfs3err_perm
    else if n == 2
    then nfs3err_noent
    else if n == 5
    then nfs3err_io
    else if n == 6
    then nfs3err_nxio
    else if n == 13
    then nfs3err_acces
    else if n == 17
    then nfs3err_exist
    else if n == 18
    then nfs3err_xdev
    else if n == 19
    then nfs3err_nodev
    else if n == 20
    then nfs3err_notdir
    else if n == 21
    then nfs3err_isdir
    else if n == 22
    then nfs3err_inval
    else if n == 27
    then nfs3err_fbig
    else if n == 28
    then nfs3err_nospc
    else if n == 30
    then nfs3err_rofs
    else if n == 31
    then nfs3err_mlink
    else if n == 63
    then nfs3err_nametoolong
    else if n == 66
    then nfs3err_notempty
    else if n == 69
    then nfs3err_dquot
    else if n == 70
    then nfs3err_stale
    else if n == 71
    then nfs3err_remote
    else if n == 10001
    then nfs3err_badhandle
    else if n == 10002
    then nfs3err_not_sync
    else if n == 10003
    then nfs3err_bad_cookie
    else if n == 10004
    then nfs3err_notsupp
    else if n == 10005
    then nfs3err_toosmall
    else if n == 10006
    then nfs3err_serverfault
    else if n == 10007
    then nfs3err_badtype
    else if n == 10008
    then nfs3err_jukebox
    else undeclared n

abbrev pub is_ok : Nfsstat3 → Bool
is_ok nfs3_ok = true
is_ok _ = false

-- One of the named error codes.
abbrev pub is_failure : Nfsstat3 → Bool
is_failure nfs3_ok = false
is_failure (undeclared n) = false
is_failure _ = true
