-- ===== src/Nfs/Prep.antt =====
-- src/nfs.c: what the procedures share, and the macro PREP.
use nfsrods.Prelude.{ℕ, ◌+◌, ◌-◌, ◌%◌, ◌==◌, Bool, not, if◌then◌else◌, List, [], Option, none, some}
use nfsrods.Backend.{FilePath, FileSys, StatCache, u32_mod}
use nfsrods.Status.{Nfsstat3, nfs3err_acces, nfs3err_stale}
use nfsrods.Fh.Handles.{NfsFh}
use nfsrods.FhCache.Table.{Cache}
use nfsrods.FhCache.Decomp.{World, fh_decomp}
use nfsrods.User.Ids.{Settings, Request, AuthUnix}
use nfsrods.User.Switch.{Process, Host, Switched, switch_to_root, switch_user}
use nfsrods.Attr.Get.{View, PreAttr, Fattr3, get_pre_cached, get_post_stat}
use nfsrods.Attr.Put.{Change}
use nfsrods.Exports.{EItem}
use nfsrods.Exports.Lookup.{Last, exports_options, export_point_from_fsid}
use nfsrods.Nfs.Paths.{Site, irods_path, rods_path}

-- What a request meets: the credential (`auth`, which the procedures read as AUTH_UNIX, and `req`),
-- the caller's address, the exports, the file system before and after the calls of the procedure,
-- the process's real ids, the options, and the configuration of the iRODS side.
pub record Env : Type 0 where
  pub auth : AuthUnix
  pub req : Request
  pub remote : ℕ
  pub export_list : List EItem
  pub world : World
  pub fs_after : FileSys
  pub host : Host
  pub singleuser : Bool
  pub readable_executables : Bool
  pub is_public : Bool
  pub zone : List ℕ
  pub sprintf_d : ℕ → List ℕ
  pub getpwuid : ℕ → Option (List ℕ)

-- What the server keeps from one request to the next: the cache of handles, the stat cache, the
-- globals of the last lookup of options, the settings of src/user.c, the ids of the process, and
-- `rcookie`, by its upper half.
pub record State : Type 0 where
  pub cache : Cache
  pub stat_cache : StatCache
  pub last : Last
  pub settings : Settings
  pub process : Process
  pub rcookie : ℕ

-- `exports_opts` as a word: -1 is all ones.
abbrev pub opts_word : Last → ℕ
opts_word last = elim last.exports_opts [ none ↦ u32_mod - 1 | some opts ↦ opts ]

-- The settings of src/user.c read the globals of the exports.
abbrev pub with_exports : Last → Settings → Settings
with_exports last s = record s {
  exports_opts = opts_word last;
  anonuid = last.last_anonuid;
  anongid = last.last_anongid;
}

abbrev pub path_or : FilePath → Option FilePath → FilePath
path_or other none = other
path_or other (some path) = path

-- What src/attr.c reads of the exports and the options.
abbrev pub view : Env → State → View
view env st = record {
  readable_executables = env.readable_executables;
  singleuser = env.singleuser;
  ruid = env.host.ruid;
  rgid = env.host.rgid;
  exports_opts = opts_word st.last;
  export_path = path_or [] st.last.export_path;
  export_fsid = st.last.export_fsid;
}

abbrev pub site : Env → State → Site
site env st = record {
  is_public = env.is_public;
  zone = env.zone;
  export_path = path_or [] st.last.export_path;
  sprintf_d = env.sprintf_d;
  getpwuid = env.getpwuid;
}

-- The path of the export with an fsid.
abbrev pub point : Env → ℕ → Option FilePath
point env fsid = elim (export_point_from_fsid env.export_list fsid) [
  | none ↦ none
  | some item ↦ some item.path
]

-- How PREP ends: the path, the status that the procedure returns with a zeroed result, or the end of
-- the server, since the ids could not be set.
pub data Prepared : Type 0 where
  prepared : FilePath → State → Prepared
  turned_down : Nfsstat3 → State → Prepared
  ended : Prepared

-- As root, the handle is turned into a path and the options are looked up.
unfoldable pub look_up : Env → NfsFh → State → Option FilePath × State
look_up env fh st =
    let root = switch_to_root st.settings env.host st.process in
    let looked = fh_decomp env.world (point env) st.cache st.stat_cache fh in
    let l = exports_options env.export_list looked.result env.remote st.last in
    (
      looked.result,
      record st {
        cache = looked.cache;
        stat_cache = looked.stat_cache;
        last = l.last;
        settings = with_exports l.last st.settings;
        process = root;
      },
    )

-- `switch_user(rqstp)`
unfoldable pub as_user : Env → FilePath → State → Prepared
as_user env path st = elim (switch_user st.settings env.singleuser env.host env.req st.process) [
  | Switched.exit ↦ ended
  | Switched.ready settings process ↦
      prepared path (record st { settings = settings; process = process })
]

-- The two tests, and the switch to the user.
unfoldable pub admit : Env → NfsFh → Option FilePath → State → Prepared
unfolding as_user
admit env fh path now = elim now.last.exports_opts [
  | none ↦ elim path [
    | none ↦ turned_down nfs3err_stale now
    | some p ↦ turned_down nfs3err_acces now
  ]
  | some opts ↦
      if not (fh.obj.pwhash == now.last.export_password_hash)
      then turned_down nfs3err_stale now
      else as_user env (path_or [] path) now
]

unfoldable pub prep : Env → NfsFh → State → Prepared
unfolding look_up admit
prep env fh st = let (path, now) = look_up env fh st in admit env fh path now

-- `wcc_data`: `get_pre_cached()` and `get_post_stat(path, rqstp)`.
pub record WccData : Type 0 where
  pub before : Option PreAttr
  pub after : Option Fattr3

unfoldable pub wcc : Env → FilePath → State → WccData
wcc env path st = record {
  before = get_pre_cached st.stat_cache;
  after = get_post_stat env.fs_after (view env st) st.stat_cache (some path) env.req;
}

-- `change_readdir_cookie` of src/daemon.c
unfoldable pub change_readdir_cookie : State → State
change_readdir_cookie st = record st { rcookie = (st.rcookie + 1) % u32_mod }

-- The calls that change something, local and on the iRODS server, in the source's names.
pub data Call : Type 0 where
  backend_remove : FilePath → Call
  backend_rmdir : FilePath → Call
  backend_mkdir : FilePath → ℕ → Call
  backend_rename : FilePath → FilePath → Call
  backend_open_create : FilePath → Bool → ℕ → Call
  backend_store_create_verifier : FilePath → List ℕ → Call
  backend_pwrite : FilePath → List ℕ → ℕ → Call
  remove_obj : FilePath → Call
  remove_collection : FilePath → Call
  make_collection : FilePath → Call
  create_file : FilePath → Call
  rename_file : FilePath → FilePath → Call
  i_write : FilePath → List ℕ → ℕ → Call
  get_file : FilePath → FilePath → Call
  list_collection : FilePath → FilePath → Call
  local_change : Change → Call
  change_attr : FilePath → List ℕ → List ℕ → Call

-- A reply with the state and the calls made, in their order; or the end of the server.
pub data Handled (A : Type 0) : Type 0 where
  replied : A → State → List Call → Handled A
  stopped : Handled A

-- PREP, with the zeroed result for a status, and the rest of the procedure.
abbrev pub with_prep :
    {A : Type 0} → Env → NfsFh → State → (Nfsstat3 → A) → (FilePath → State → Handled A) → Handled A
with_prep env fh st zeroed body = elim (prep env fh st) [
  | prepared path now ↦ body path now
  | turned_down status now ↦ replied (zeroed status) now []
  | ended ↦ stopped
]

-- `getIRODSpathGetAttr` and then `getRodsPath`.
unfoldable pub collection_path : Env → State → FilePath → FilePath
unfolding irods_path rods_path
collection_path env st path =
    rods_path (site env st) env.auth.uid (irods_path (site env st) env.auth.uid path)
