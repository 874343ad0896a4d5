-- ===== src/Nfs/Data.antt =====
-- src/nfs.c: GETATTR, SETATTR, LOOKUP, READ and WRITE.
use nfsrods.Prelude.{
  ℕ, ◌%◌, ◌==◌, Bool, true, false, not, ◌||◌, if◌then◌else◌, List, [], ◌∷◌, ◌++◌, Option, none,
  some, bytes, str_eq, map,
}
use nfsrods.Backend.{FilePath, Stat, u32_mod}
use nfsrods.Status.{Nfsstat3, nfs3_ok, nfs3err_nametoolong, nfs3err_perm, is_ok}
use nfsrods.Error.{join, lookup_err}
use nfsrods.Fh.Handles.{NfsFh, Handle, Special, get_gen, fh_extend, on_wire}
use nfsrods.FhCache.Table.{add}
use nfsrods.FhCache.Decomp.{fh_comp_ptr}
use nfsrods.Attr.Get.{
  Fattr3, Ftype3, PreAttr, get_pre_cached, get_post_buf, get_post_stat, get_post_cached,
}
use nfsrods.Attr.Mode.{permission}
use nfsrods.Attr.Put.{Sattr3, Answers, set_attr}
use nfsrods.Exports.Lookup.{exports_rw}
use nfsrods.Nfs.Paths.{cat_name, real_path, rods_path}
use nfsrods.Nfs.Prep.{
  Env, State, Handled, Call, replied, with_prep, point, view, site, collection_path, WccData,
  local_change, change_attr,
}
use nfsrods.Nfs.Change.{Diropargs3}

abbrev is_nf3reg : Ftype3 → Bool
is_nf3reg Ftype3.nf3reg = true
is_nf3reg _ = false

-- The attributes of a regular file, with the size on the iRODS server, which is cast to 64 bits, and
-- the ids of the credential.
remote_attr : Env → ℕ → Fattr3 → Fattr3
remote_attr env size a =
    if is_nf3reg a.ftype
    then record a { size = size; used = size; uid = env.auth.uid; gid = env.auth.gid }
    else a

pub record GetattrRes : Type 0 where
  pub status : Nfsstat3
  pub obj_attributes : Option Fattr3

-- `file_size` is the size of an object on the iRODS server.
unfoldable getattr : Env → (FilePath → ℕ) → NfsFh → State → Handled GetattrRes
unfolding remote_attr collection_path
getattr env file_size object st =
    with_prep env object st (λ status. record { status = status; obj_attributes = none })
      (λ path now.
        let name = collection_path env now path in
        let post = get_post_cached env.world.fs (view env now) now.stat_cache env.req in
        replied
          (record {
            status = nfs3_ok;
            obj_attributes = elim post [
              | none ↦ none
              | some a ↦ some (remote_attr env (file_size name) a)
            ];
          })
          now [])

-- The guard of SETATTR is not tested.
in_sync : Option ℕ → Option PreAttr → Nfsstat3
in_sync guard pre = nfs3_ok

pub record SetattrRes : Type 0 where
  pub status : Nfsstat3
  pub obj_wcc : Option WccData

-- `set_attr_irods`: the call of `changeAttr`, with the word for the mode; nothing is called if the
-- size or an owner is to be set.
set_attr_irods : FilePath → Sattr3 → List ℕ → List Call
set_attr_irods path new owner = elim new.size [
  | some size ↦ []
  | none ↦ elim new.uid [
    | some uid ↦ []
    | none ↦ elim new.gid [
      | some gid ↦ []
      | none ↦ elim new.mode [
        | none ↦ []
        | some mode ↦
            let status = permission mode in
            let word =
              if status == 1
              then bytes "read"
              else if status == 2
              then bytes "write"
              else if status == 3
              then bytes "own"
              else bytes "null" in
            change_attr path owner word ∷ []
      ]
    ]
  ]
]

-- `answers` are those of the file system to `set_attr`. The changes there come first; without a
-- name for the user the status is that of the missing user, whatever they gave.
unfoldable pub setattr : Env → Answers → NfsFh → Option ℕ → Sattr3 → State → Handled SetattrRes
unfolding in_sync set_attr_irods collection_path
setattr env answers object guard new st =
    with_prep env object st (λ status. record { status = status; obj_wcc = none })
      (λ path now.
        let moved = real_path (site env now) env.auth.uid path in
        let pre = get_pre_cached now.stat_cache in
        let status = join (in_sync guard pre) (exports_rw now.last) in
        let done = set_attr answers object.obj new in
        let name = collection_path env now moved in
        let reply : Nfsstat3 → List Call → Handled SetattrRes = λ final calls.
          replied
            (record {
              status = final;
              obj_wcc = some (record {
                before = pre;
                after =
                    get_post_stat env.fs_after (view env now) now.stat_cache (some moved) env.req;
              });
            })
            now calls in
        if not (is_ok status) then reply status [] else elim (env.getpwuid env.auth.uid) [
          | none ↦ reply nfs3err_perm (map local_change done.made)
          | some owner ↦
              reply done.status (map local_change done.made ++ set_attr_irods name new owner)
        ])

pub record LookupRes : Type 0 where
  pub status : Nfsstat3
  pub object : Option NfsFh
  pub obj_attributes : Option Fattr3
  pub dir_attributes : Option Fattr3

-- "." and ".." are composed from the path, other names extend the handle of the directory.
lookup_handle : Env → Special → Diropargs3 → FilePath → Stat → State → Option Handle × State
lookup_handle env special args obj buf now =
    if str_eq args.name (bytes ".") || str_eq args.name (bytes "..")
    then (let (fh, cache) =
          fh_comp_ptr env.world.fs special now.last.export_password_hash now.cache obj false in
        (fh, record now { cache = cache }))
    else (
      fh_extend env.world.fs (point env) now.last.export_password_hash args.dir.obj
          (buf.dev % u32_mod) buf.ino (get_gen buf),
      record now { cache = add now.cache (buf.dev % u32_mod) buf.ino obj },
    )

-- `errno` is what a failing `lstat` leaves, `file_size` as for GETATTR; it is asked for the path of
-- the directory.
unfoldable pub lookup : Env → Special → ℕ → (FilePath → ℕ) → Diropargs3 → State → Handled LookupRes
unfolding lookup_handle remote_attr
lookup env special errno file_size args st =
    with_prep env args.dir st
      (λ status. record {
        status = status;
        object = none;
        obj_attributes = none;
        dir_attributes = none;
      })
      (λ dir now.
        let path = real_path (site env now) env.auth.uid dir in
        let size = file_size (rods_path (site env now) env.auth.uid dir) in
        let named = cat_name (some path) (some args.name) in
        let refuse : Nfsstat3 → Handled LookupRes = λ status.
          replied
            (record {
              status = status;
              object = none;
              obj_attributes = none;
              dir_attributes =
                  get_post_stat env.fs_after (view env now) now.stat_cache (some path) env.req;
            })
            now [] in
        elim named.1 [
          | none ↦ refuse named.0
          | some obj ↦ elim (env.world.fs.lstat obj) [
            | none ↦ refuse (lookup_err errno)
            | some buf ↦
                let (fh, later) = lookup_handle env special args obj buf now in
                let dir_attributes =
                  get_post_stat env.fs_after (view env later) later.stat_cache (some path)
                    env.req in
                elim fh [
                  | none ↦
                      replied
                        (record {
                          status = nfs3err_nametoolong;
                          object = none;
                          obj_attributes = none;
                          dir_attributes = dir_attributes;
                        })
                        later []
                  | some handle ↦
                      replied
                        (record {
                          status = nfs3_ok;
                          object = some (on_wire handle);
                          obj_attributes = some (
                              remote_attr env size
                                (get_post_buf env.world.fs (view env later) buf env.req));
                          dir_attributes = dir_attributes;
                        })
                        later []
                ]
          ]
        ])
