-- ===== src/Mount/Mnt.antt =====
-- src/mount.c: the procedure MNT. The random nonces, the digest and the real paths of the backend
-- are parameters.
use nfsrods.Prelude.{
  ℕ, ◌+◌, ◌==◌, ltb, Bool, true, false, not, ◌&&◌, ◌||◌, if◌then◌else◌, List, Option, none, some,
  length, take, bytes, str_eq, test_bit,
}
use nfsrods.Backend.{FilePath, FileSys}
use nfsrods.Fh.Handles.{Handle, Special, fh_valid}
use nfsrods.FhCache.Table.{Cache}
use nfsrods.FhCache.Decomp.{fh_comp}
use nfsrods.Password.{mnt_cmd_argument}
use nfsrods.User.Ids.{opt_removable, opt_insecure}
use nfsrods.Exports.{EItem}
use nfsrods.Exports.Options.{password_maxlen}
use nfsrods.Backend.{nfs_maxpathlen}
use nfsrods.Exports.Lookup.{Last, Lookup, exports_options, export_point, starts_with}
use nfsrods.Mount.Table.{Mounts, add_mount}

-- Of the request: `rq_vers`, the caller's address and port, and the address as text. Of the server:
-- the export list, `backend_realpath`, `otp_digest` of the nonce and the password, what the next two
-- calls of `backend_gen_nonce` give, the file system with what `fh_comp` reads of the exports, and
-- whether memory is left.
pub record Caller : Type 0 where
  pub rq_vers : ℕ
  pub remote : ℕ
  pub port : ℕ
  pub host : List ℕ
  pub export_list : List EItem
  pub backend_realpath : FilePath → Option FilePath
  pub otp_digest : List ℕ → List ℕ → List ℕ
  pub gen_nonce : Option (List ℕ)
  pub fs : FileSys
  pub special : Special
  pub memory : Bool

-- `nonce`, the globals of the last lookup of options, the mounts, and the cache of file handles.
pub record State : Type 0 where
  pub nonce : List ℕ
  pub last : Last
  pub mounts : Mounts
  pub cache : Cache

-- `mountres3`: with MNT3_OK a handle, or the nonce in its place.
pub data Mountres3 : Type 0 where
  handle : Handle → Mountres3
  nonce_bytes : List ℕ → Mountres3
  refused : ℕ → Mountres3

-- `exports_opts & bit`; -1 has all bits.
abbrev pub has_opt : Last → ℕ → Bool
has_opt last k = elim last.exports_opts [ none ↦ true | some opts ↦ test_bit opts k ]

-- What the test `exports_options(...) != -1` of the two commands guards: the password, if the path
-- is exported to the caller.
abbrev exported_password : Lookup → Option (List ℕ)
exported_password l = elim l.last.exports_opts [ none ↦ none | some opts ↦ l.password ]

-- The commands: whether the caller is authenticated, and the path that is left.
unfoldable pub authenticate : Caller → FilePath → State → (Bool × FilePath) × State
authenticate c dpath st =
    if starts_with (bytes "@password:") dpath
    then (let (pw, rest) = mnt_cmd_argument dpath (bytes "@password:") password_maxlen in
        let l = exports_options c.export_list (some rest) c.remote st.last in
        let now = record st { last = l.last } in
        elim (exported_password l) [
          | none ↦ ((false, rest), now)
          | some password ↦ ((str_eq password pw, rest), now)
        ])
    else if starts_with (bytes "@otp:") dpath
    then (let (otp, rest) = mnt_cmd_argument dpath (bytes "@otp:") password_maxlen in
        let l = exports_options c.export_list (some rest) c.remote st.last in
        let now = record st { last = l.last } in
        elim (exported_password l) [
          | none ↦ ((false, rest), now)
          | some password ↦ (
            (str_eq (take 32 (c.otp_digest st.nonce password)) (take 32 otp), rest),
            elim c.gen_nonce [ none ↦ now | some fresh ↦ record now { nonce = fresh } ],
          )
        ])
    else ((false, dpath), st)

-- `IS_SECURE`
abbrev is_secure : ℕ → Bool
is_secure port = ltb port 1024

-- The three conditions of MNT3ERR_ACCES.
unfoldable pub may_mount : Caller → Bool → Lookup → Bool
may_mount c authenticated l = elim l.last.exports_opts [
  | none ↦ false
  | some opts ↦
      (authenticated || elim l.password [ none ↦ true | some pw ↦ length pw == 0 ])
      && (test_bit opts opt_insecure || is_secure c.port)
]

-- What is done with the real path `buf`.
unfoldable pub mount_real : Caller → Bool → FilePath → FilePath → State → Mountres3 × State
unfolding may_mount
mount_real c authenticated dpath buf st =
    let l = exports_options c.export_list (some buf) c.remote st.last in
    let now = record st { last = l.last } in
    if ltb nfs_maxpathlen (length buf + 1)
    then (refused 63, st)
    else if not (may_mount c authenticated l)
    then (refused 13, now)
    else (let (fh, cache) = fh_comp c.fs c.special l.last.export_password_hash st.cache buf true in
        if not (fh_valid fh) then (refused 20, record now { cache = cache }) else (
          handle fh,
          record now { cache = cache; mounts = add_mount c.memory c.host dpath st.mounts },
        ))

unfoldable pub mount_path : Caller → Bool → FilePath → State → Mountres3 × State
unfolding mount_real
mount_path c authenticated dpath st =
    let found =
      if has_opt st.last opt_removable && export_point c.export_list dpath
      then some dpath
      else c.backend_realpath dpath in
    elim found [ none ↦ (refused 2, st) | some buf ↦ mount_real c authenticated dpath buf st ]

unfoldable pub mountproc_mnt : Caller → FilePath → State → Mountres3 × State
unfolding authenticate mount_path
mountproc_mnt c argp st =
    if not (c.rq_vers == 3)
    then (refused 22, st)
    else if starts_with (bytes "@getnonce") argp
    then elim c.gen_nonce [
      | none ↦ (refused 5, st)
      | some fresh ↦ (nonce_bytes fresh, record st { nonce = fresh })
    ]
    else (let ((authenticated, dpath), now) = authenticate c argp st in
        mount_path c authenticated dpath now)
