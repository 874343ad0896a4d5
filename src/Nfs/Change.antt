-- ===== src/Nfs/Change.antt =====
-- src/nfs.c: REMOVE, RMDIR, MKDIR and RENAME.
use nfsrods.Prelude.{ℕ, not, if◌then◌else◌, List, [], ◌∷◌, ◌++◌, Option, none, some}
use nfsrods.Backend.{FilePath}
use nfsrods.Status.{Nfsstat3, nfs3_ok, is_ok}
use nfsrods.Error.{join, join3, remove_err, rmdir_err, mkdir_err, rename_err}
use nfsrods.Fh.Handles.{NfsFh, fh_extend_type}
use nfsrods.FhCache.Decomp.{fh_decomp}
use nfsrods.Attr.Get.{Fattr3, get_pre_cached, get_post_attr, get_post_stat, get_post_cached}
use nfsrods.Attr.Put.{Sattr3, atomic_attr, create_mode}
use nfsrods.Exports.Lookup.{exports_rw, exports_compat}
use nfsrods.Nfs.Paths.{cat_name, real_path}
use nfsrods.Nfs.Prep.{
  Env, State, Handled, Call, replied, with_prep, point, view, site, path_or, collection_path, wcc,
  WccData, with_exports, change_readdir_cookie, backend_remove, backend_rmdir, backend_mkdir,
  backend_rename, remove_obj, remove_collection, make_collection, rename_file,
}

-- `diropargs3`
pub record Diropargs3 : Type 0 where
  pub dir : NfsFh
  pub name : List ℕ

-- `REMOVE3res` and `RMDIR3res`; no `dir_wcc` is a zeroed result.
pub record DirRes : Type 0 where
  pub status : Nfsstat3
  pub dir_wcc : Option WccData

abbrev pub zeroed : Nfsstat3 → DirRes
zeroed status = record { status = status; dir_wcc = none }

-- The status of a call that is made if the status is NFS3_OK; `errno` is the error of a call, none
-- if it succeeds.
abbrev status_after : (Call → Option ℕ) → (ℕ → Nfsstat3) → Call → Nfsstat3 → Nfsstat3
status_after errno err call status =
    if not (is_ok status) then status else elim (errno call) [ none ↦ nfs3_ok | some e ↦ err e ]

abbrev if_ok : {A : Type 0} → Nfsstat3 → A → A → A
if_ok status a b = if is_ok status then a else b

-- `junk` is what the buffer `obj` happens to hold when `cat_name` stores nothing in it.
unfoldable pub remove : Env → (Call → Option ℕ) → FilePath → Diropargs3 → State → Handled DirRes
unfolding wcc change_readdir_cookie collection_path
remove env errno junk args st = with_prep env args.dir st zeroed (λ path now.
    let named = cat_name (some path) (some args.name) in
    let status = join named.0 (exports_rw now.last) in
    let obj = real_path (site env now) env.auth.uid (path_or junk named.1) in
    let changed = if_ok status (change_readdir_cookie now) now in
    replied
      (record {
        status = status_after errno remove_err (backend_remove obj) status;
        dir_wcc = some (wcc env path changed);
      })
      changed
      (if_ok status (backend_remove obj ∷ []) []
        ++ (remove_obj (collection_path env now obj) ∷ [])))

unfoldable pub rmdir : Env → (Call → Option ℕ) → FilePath → Diropargs3 → State → Handled DirRes
unfolding wcc change_readdir_cookie collection_path
rmdir env errno junk args st = with_prep env args.dir st zeroed (λ path now.
    let named = cat_name (some path) (some args.name) in
    let status = join named.0 (exports_rw now.last) in
    let obj = real_path (site env now) env.auth.uid (path_or junk named.1) in
    let changed = if_ok status (change_readdir_cookie now) now in
    replied
      (record {
        status = status_after errno rmdir_err (backend_rmdir obj) status;
        dir_wcc = some (wcc env path changed);
      })
      changed
      (if_ok status (backend_rmdir obj ∷ []) []
        ++ (remove_collection (collection_path env now obj) ∷ [])))

-- `MKDIR3res`; `obj` and `obj_attributes` are there with NFS3_OK.
pub record MkdirRes : Type 0 where
  pub status : Nfsstat3
  pub obj : Option NfsFh
  pub obj_attributes : Option Fattr3
  pub dir_wcc : Option WccData

abbrev pub zeroed_mkdir : Nfsstat3 → MkdirRes
zeroed_mkdir status = record { status = status; obj = none; obj_attributes = none; dir_wcc = none }

-- `S_IFDIR`
abbrev s_ifdir : ℕ
s_ifdir = 16384

-- What follows a `mkdir` that was made: the handle, and the stat cache that it leaves.
made_dir : Env → Diropargs3 → FilePath → State → Option NfsFh × State
made_dir env args obj now =
    let (fh, sc) =
      fh_extend_type env.fs_after (point env) now.last.export_password_hash now.stat_cache
        args.dir.obj obj s_ifdir in
    (fh, record now { stat_cache = sc })

-- The attributes of the directory before and after: `pre` is taken before the stat cache changes.
abbrev dir_change : Env → FilePath → NfsFh → State → State → WccData
dir_change env path fh now later = record {
  before = get_pre_cached now.stat_cache;
  after = get_post_attr env.fs_after (view env later) (some path) fh.obj env.req;
}

unfoldable pub mkdir :
    Env → (Call → Option ℕ) → FilePath → Diropargs3 → Sattr3 → State → Handled MkdirRes
unfolding made_dir collection_path
mkdir env errno junk args attributes st = with_prep env args.dir st zeroed_mkdir (λ path now.
    let named = cat_name (some path) (some args.name) in
    let status =
      join3 named.0 (atomic_attr now.settings now.process.euid now.process.egid attributes)
        (exports_rw now.last) in
    let obj = real_path (site env now) env.auth.uid (path_or junk named.1) in
    let call = backend_mkdir obj (create_mode attributes) in
    let final = status_after errno mkdir_err call status in
    let (fh, later) = made_dir env args obj now in
    if is_ok final
    then replied
        (record {
          status = final;
          obj = fh;
          obj_attributes = get_post_cached env.fs_after (view env later) later.stat_cache env.req;
          dir_wcc = some (dir_change env path args.dir now later);
        })
        later (call ∷ make_collection (collection_path env now obj) ∷ [])
    else replied
        (record {
          status = final;
          obj = none;
          obj_attributes = none;
          dir_wcc = some (dir_change env path args.dir now now);
        })
        now (if_ok status (call ∷ make_collection (collection_path env now obj) ∷ []) []))

-- `RENAME3res`
pub record RenameRes : Type 0 where
  pub status : Nfsstat3
  pub fromdir_wcc : Option WccData
  pub todir_wcc : Option WccData

abbrev zeroed_rename : Nfsstat3 → RenameRes
zeroed_rename status = record { status = status; fromdir_wcc = none; todir_wcc = none }

-- `to = fh_decomp(argp->to.dir)`, as the user.
decomp_to : Env → NfsFh → State → Option FilePath × State
decomp_to env fh now =
    let looked = fh_decomp env.world (point env) now.cache now.stat_cache fh in
    (looked.result, record now { cache = looked.cache; stat_cache = looked.stat_cache })

-- The lookup of the options of the other directory replaces those of the first.
compat_to : Env → FilePath → State → Nfsstat3 × State
compat_to env to now =
    let (status, last) = exports_compat env.export_list to env.remote now.last in
    (status, record now { last = last; settings = with_exports last now.settings })

-- The first of the two calls is that on the iRODS server; both are made, and the rename fails if one
-- of them does.
rename_both : (Call → Option ℕ) → Call → Call → ℕ → Nfsstat3
rename_both errno remote local last_errno = elim (errno local) [
  | some e ↦ rename_err e
  | none ↦ elim (errno remote) [ none ↦ nfs3_ok | some e ↦ rename_err last_errno ]
]

-- `last_errno` is what `errno` holds where only the iRODS call fails.
unfoldable pub rename :
    Env → (Call → Option ℕ) → ℕ → Diropargs3 → Diropargs3 → State → Handled RenameRes
unfolding decomp_to compat_to rename_both change_readdir_cookie collection_path
rename env errno last_errno from_args to_args st =
    with_prep env from_args.dir st zeroed_rename (λ from_path now.
      let from_named = cat_name (some from_path) (some from_args.name) in
      let status = join from_named.0 (exports_rw now.last) in
      let (to, found) = decomp_to env to_args.dir now in
      let to_named = cat_name to (some to_args.name) in
      let (compat, looked) = compat_to env (path_or [] to) found in
      let later = if_ok status looked found in
      let both = if_ok status (join to_named.0 compat) status in
      let from_obj = real_path (site env later) env.auth.uid (path_or [] from_named.1) in
      let to_obj = real_path (site env later) env.auth.uid (path_or [] to_named.1) in
      let remote =
        rename_file (collection_path env later to_obj) (collection_path env later from_obj) in
      let local = backend_rename from_obj to_obj in
      let final = if_ok both (change_readdir_cookie later) later in
      replied
        (record {
          status = if_ok both (rename_both errno remote local last_errno) both;
          fromdir_wcc = some (record {
            before = get_pre_cached now.stat_cache;
            after =
                get_post_attr env.fs_after (view env final) (some from_path) from_args.dir.obj
                  env.req;
          });
          todir_wcc = some (record {
            before = get_pre_cached final.stat_cache;
            after = get_post_stat env.fs_after (view env final) final.stat_cache to env.req;
          });
        })
        final (if_ok both (remote ∷ local ∷ []) []))
