-- ===== src/Attr/Get.antt =====
-- src/attr.c: pre- and post-operation attributes.
use nfsrods.Prelude.{
  ℕ, ◌*◌, ◌/◌, ◌%◌, ◌^◌, ◌==◌, Bool, not, ◌&&◌, ◌||◌, if◌then◌else◌, Option, none, some, test_bit,
  set_bit,
}
use nfsrods.Status.{Nfsstat3, nfs3_ok, nfs3err_stale, nfs3err_inval}
use nfsrods.Backend.{
  FilePath, FileSys, Stat, StatCache, u32_mod, s_isfifo, s_ischr, s_isdir, s_isblk, s_isreg,
  s_islnk, s_issock,
}
use nfsrods.Fh.Handles.{Handle}
use nfsrods.User.Ids.{Request, opt_removable}

-- `ftype3` of src/nfs.h.
pub data Ftype3 : Type 0 where
  nf3reg nf3dir nf3blk nf3chr nf3lnk nf3sock nf3fifo : Ftype3

unfoldable pub is_reg : StatCache → Nfsstat3
is_reg sc =
    if not sc.valid then nfs3err_stale else if s_isreg sc.stat.mode then nfs3_ok else nfs3err_inval

-- `S_IFREG` and the others: the type stands above the twelve bits of the permissions.
unfoldable pub type_to_mode : Ftype3 → ℕ
type_to_mode Ftype3.nf3reg = 8 * 2 ^ 12
type_to_mode Ftype3.nf3dir = 4 * 2 ^ 12
type_to_mode Ftype3.nf3lnk = 10 * 2 ^ 12
type_to_mode Ftype3.nf3chr = 2 * 2 ^ 12
type_to_mode Ftype3.nf3blk = 6 * 2 ^ 12
type_to_mode Ftype3.nf3fifo = 1 * 2 ^ 12
type_to_mode Ftype3.nf3sock = 12 * 2 ^ 12

-- `wcc_attr`; the nanoseconds are always 0.
pub record PreAttr : Type 0 where
  pub size : ℕ
  pub mtime : ℕ
  pub ctime : ℕ

-- `pre_op_attr`: none if no attributes follow.
unfoldable pub get_pre_cached : StatCache → Option PreAttr
get_pre_cached sc =
    if not sc.valid
    then none
    else some (record {
      size = sc.stat.size;
      mtime = sc.stat.mtime % u32_mod;
      ctime = sc.stat.ctime % u32_mod;
    })

-- `fattr3`; the nanoseconds are always 0.
pub record Fattr3 : Type 0 where
  pub ftype : Ftype3
  pub mode : ℕ
  pub nlink : ℕ
  pub uid : ℕ
  pub gid : ℕ
  pub size : ℕ
  pub used : ℕ
  pub specdata1 : ℕ
  pub specdata2 : ℕ
  pub fsid : ℕ
  pub fileid : ℕ
  pub atime : ℕ
  pub mtime : ℕ
  pub ctime : ℕ

-- What the file reads of the options, the process and the export: `opt_readable_executables`,
-- `opt_singleuser`, `getuid`, `getgid`, `exports_opts`, `export_path`, `export_fsid`.
pub record View : Type 0 where
  pub readable_executables : Bool
  pub singleuser : Bool
  pub ruid : ℕ
  pub rgid : ℕ
  pub exports_opts : ℕ
  pub export_path : FilePath
  pub export_fsid : ℕ

unfoldable pub ftype_of : ℕ → Ftype3
ftype_of mode =
    if s_isdir mode
    then Ftype3.nf3dir
    else if s_isblk mode
    then Ftype3.nf3blk
    else if s_ischr mode
    then Ftype3.nf3chr
    else if s_islnk mode
    then Ftype3.nf3lnk
    else if s_issock mode
    then Ftype3.nf3sock
    else if s_isfifo mode
    then Ftype3.nf3fifo
    else Ftype3.nf3reg

-- Who may execute may read: the mode with the read bit set wherever the execute bit is.
abbrev pub readable_if : ℕ → ℕ → ℕ → ℕ
readable_if execute read mode = if test_bit mode execute then set_bit mode read else mode

unfoldable pub adapt_mode : View → ℕ → ℕ
adapt_mode v mode =
    if v.readable_executables && s_isreg mode
    then readable_if 0 2 (readable_if 3 5 (readable_if 6 8 mode))
    else mode

-- The ids of the request, which a credential of another flavor leaves 0.
abbrev pub req_uid : Request → ℕ
req_uid (Request.auth_unix auth) = auth.uid
req_uid Request.other_flavor = 0

abbrev pub req_gid : Request → ℕ
req_gid (Request.auth_unix auth) = auth.gid
req_gid Request.other_flavor = 0

unfoldable pub shown_uid : View → Request → ℕ → ℕ
shown_uid v req uid =
    if v.singleuser then (if uid == v.ruid || v.ruid == 0 then req_uid req else 0) else uid

unfoldable pub shown_gid : View → Request → ℕ → ℕ
shown_gid v req gid =
    if v.singleuser then (if gid == v.rgid || v.ruid == 0 then req_gid req else 0) else gid

-- The preset fsid, for every object of a removable export point's file system.
unfoldable pub shown_fsid : FileSys → View → ℕ → ℕ
shown_fsid fs v dev =
    if test_bit v.exports_opts opt_removable
    then elim (fs.lstat v.export_path) [
      | none ↦ dev
      | some epbuf ↦ if dev == epbuf.dev then v.export_fsid else dev
    ]
    else dev

unfoldable pub get_post_buf : FileSys → View → Stat → Request → Fattr3
unfolding ftype_of adapt_mode shown_uid shown_gid shown_fsid
get_post_buf fs v buf req = record {
  ftype = ftype_of buf.mode;
  mode = adapt_mode v buf.mode % 2 ^ 16;
  nlink = buf.nlink % u32_mod;
  uid = shown_uid v req buf.uid;
  gid = shown_gid v req buf.gid;
  size = buf.size;
  used = buf.blocks * 512;
  specdata1 = (buf.rdev / 2 ^ 8) % 2 ^ 8;
  specdata2 = buf.rdev % 2 ^ 8;
  fsid = shown_fsid fs v buf.dev;
  fileid = buf.ino;
  atime = buf.atime % u32_mod;
  mtime = buf.mtime % u32_mod;
  ctime = buf.ctime % u32_mod;
}

-- `post_op_attr`: none is `error_attr`.
unfoldable pub get_post_ll : FileSys → View → Option FilePath → ℕ → ℕ → Request → Option Fattr3
unfolding get_post_buf
get_post_ll fs v path dev ino req = elim path [
  | none ↦ none
  | some p ↦ elim (fs.lstat p) [
    | none ↦ none
    | some buf ↦
        if not (dev == buf.dev) || not (ino == buf.ino)
        then none
        else some (get_post_buf fs v buf req)
  ]
]

unfoldable pub get_post_attr : FileSys → View → Option FilePath → Handle → Request → Option Fattr3
unfolding get_post_ll
get_post_attr fs v path fh req = get_post_ll fs v path fh.dev fh.ino req

-- `dev` is a 32-bit parameter of `get_post_ll`.
unfoldable pub get_post_stat :
    FileSys → View → StatCache → Option FilePath → Request → Option Fattr3
unfolding get_post_ll
get_post_stat fs v sc path req = get_post_ll fs v path (sc.stat.dev % u32_mod) sc.stat.ino req

unfoldable pub get_post_cached : FileSys → View → StatCache → Request → Option Fattr3
unfolding get_post_buf
get_post_cached fs v sc req = if not sc.valid then none else some (get_post_buf fs v sc.stat req)
