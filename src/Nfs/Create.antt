-- ===== src/Nfs/Create.antt =====
-- src/nfs.c: CREATE, and the verifier of an exclusive create.
use nfsrods.Prelude.{
  ℕ, ◌+◌, ◌*◌, ◌%◌, ◌^◌, ◌==◌, Bool, true, false, not, ◌&&◌, if◌then◌else◌, List, [], ◌∷◌, ◌++◌,
  Option, none, some, get_or,
}
use Prim.Native.Nat.{bit_or}
use nfsrods.Errno.{eexist}
use nfsrods.Backend.{FilePath, Stat, u32_mod}
use nfsrods.Status.{Nfsstat3, nfs3_ok, nfs3err_io, nfs3err_exist, is_ok}
use nfsrods.Error.{join, create_err}
use nfsrods.Fh.Handles.{NfsFh, get_gen, fh_extend_post}
use nfsrods.FhCache.Table.{add}
use nfsrods.Attr.Get.{Fattr3, get_post_buf}
use nfsrods.Attr.Put.{Sattr3, atomic_attr, create_mode}
use nfsrods.Exports.Lookup.{exports_rw}
use nfsrods.Exports.Options.{sign_extended}
use nfsrods.Nfs.Paths.{cat_name, real_path}
use nfsrods.Nfs.Prep.{
  Env, State, Handled, Call, replied, with_prep, point, view, site, path_or, collection_path, wcc,
  WccData, backend_open_create, backend_store_create_verifier, create_file,
}
use nfsrods.Nfs.Change.{Diropargs3}

-- Four bytes of a verifier as the 32-bit `int` that the source makes of them, a byte being a signed
-- `char`; a `time_t` that it is stored in or compared with is taken as a word of 32 bits.
abbrev at_place : List ℕ → ℕ → ℕ → ℕ
at_place verf i place = (sign_extended (get_or verf i 0) * 2 ^ place) % u32_mod

word_of : List ℕ → ℕ → ℕ
word_of verf i =
    bit_or
      (bit_or (bit_or (at_place verf i 0) (at_place verf (i + 1) 8)) (at_place verf (i + 2) 16))
      (at_place verf (i + 3) 24)

-- `store_create_verifier`: the times that `utime` is given.
unfoldable pub store_create_verifier : List ℕ → Stat → Stat
unfolding word_of
store_create_verifier verf buf = record buf { atime = word_of verf 0; mtime = word_of verf 4 }

unfoldable pub check_create_verifier : Stat → List ℕ → Bool
unfolding word_of
check_create_verifier buf verf = (buf.atime == word_of verf 0) && (buf.mtime == word_of verf 4)

-- `createhow3`, for the three modes that the decoding lets through.
pub data How : Type 0 where
  unchecked : Sattr3 → How
  guarded : Sattr3 → How
  exclusive : List ℕ → How

-- What the calls answer: `open` with the flags of a create, none or its `errno`; `fstat` of what was
-- opened; the store of the verifier; and, after EEXIST, `fstat` of what a plain `open` gives, or the
-- `errno` that one of the two leaves.
pub record Creating : Type 0 where
  pub open_create : Option ℕ
  pub fstat : Option Stat
  pub stored : Bool
  pub existing : Option Stat
  pub existing_errno : ℕ

pub record CreateRes : Type 0 where
  pub status : Nfsstat3
  pub obj : Option NfsFh
  pub obj_attributes : Option Fattr3
  pub dir_wcc : Option WccData

abbrev zeroed_create : Nfsstat3 → CreateRes
zeroed_create status = record { status = status; obj = none; obj_attributes = none; dir_wcc = none }

-- How a create ends: with the object that the reply describes, or a status.
pub data Made : Type 0 where
  made : Stat → Made
  not_made : Nfsstat3 → Made

-- `open` succeeded.
after_open : How → Creating → Made
after_open how w = elim w.fstat [
  | none ↦ not_made nfs3err_io
  | some buf ↦ elim how [
    | unchecked attr ↦ made buf
    | guarded attr ↦ made buf
    | exclusive verf ↦ if w.stored then made buf else not_made nfs3err_io
  ]
]

-- `open` failed: an exclusive create that is sent again finds its verifier.
unfoldable pub after_failure : How → Creating → ℕ → Made
unfolding check_create_verifier
after_failure how w errno = elim how [
  | unchecked attr ↦ not_made (create_err errno)
  | guarded attr ↦ not_made (create_err errno)
  | exclusive verf ↦
      if errno == eexist
      then elim w.existing [
        | none ↦ not_made (create_err w.existing_errno)
        | some buf ↦ if check_create_verifier buf verf then made buf else not_made nfs3err_exist
      ]
      else not_made (create_err errno)
]

unfoldable pub make : How → Creating → Made
unfolding after_open after_failure
make how w = elim w.open_create [ none ↦ after_open how w | some errno ↦ after_failure how w errno ]

-- `O_EXCL`
abbrev excl : How → Bool
excl (How.unchecked attr) = false
excl (How.guarded attr) = true
excl (How.exclusive verf) = true

-- The mode of the new file; with EXCLUSIVE `new_attr` is not set, and `unset` stands for what
-- `create_mode` makes of it.
abbrev mode_of : ℕ → How → ℕ
mode_of unset (How.unchecked attr) = create_mode attr
mode_of unset (How.guarded attr) = create_mode attr
mode_of unset (How.exclusive verf) = unset

abbrev attr_status : State → How → Nfsstat3
attr_status now (How.unchecked attr) =
    atomic_attr now.settings now.process.euid now.process.egid attr
attr_status now (How.guarded attr) = atomic_attr now.settings now.process.euid now.process.egid attr
attr_status now (How.exclusive verf) = nfs3_ok

-- The verifier is stored if the file was opened and could be examined.
abbrev verifier_calls : FilePath → How → Creating → List Call
verifier_calls obj (How.unchecked attr) w = []
verifier_calls obj (How.guarded attr) w = []
verifier_calls obj (How.exclusive verf) w = elim w.open_create [
  | some errno ↦ []
  | none ↦ elim w.fstat [ none ↦ [] | some buf ↦ backend_store_create_verifier obj verf ∷ [] ]
]

abbrev with_object : Env → State → FilePath → Stat → State
with_object env now obj buf = record now { cache = add now.cache (buf.dev % u32_mod) buf.ino obj }

unfoldable pub create : Env → Creating → FilePath → ℕ → Diropargs3 → How → State → Handled CreateRes
unfolding make wcc collection_path
create env w junk unset args how st = with_prep env args.dir st zeroed_create (λ path now.
    let named = cat_name (some path) (some args.name) in
    let status = join (join named.0 (exports_rw now.last)) (attr_status now how) in
    let obj = real_path (site env now) env.auth.uid (path_or junk named.1) in
    let remote = create_file (collection_path env now obj) ∷ [] in
    if not (is_ok status)
    then replied
        (record {
          status = status;
          obj = none;
          obj_attributes = none;
          dir_wcc = some (wcc env path now);
        })
        now remote
    else (let calls =
          backend_open_create obj (excl how) (mode_of unset how)
          ∷ (remote ++ verifier_calls obj how w) in
        elim (make how w) [
          | not_made final ↦
              replied
                (record {
                  status = final;
                  obj = none;
                  obj_attributes = none;
                  dir_wcc = some (wcc env path now);
                })
                now calls
          | made buf ↦
              let later = with_object env now obj buf in
              replied
                (record {
                  status = nfs3_ok;
                  obj =
                      fh_extend_post env.fs_after (point env) now.last.export_password_hash
                        args.dir.obj buf.dev buf.ino (get_gen buf);
                  obj_attributes = some (get_post_buf env.fs_after (view env later) buf env.req);
                  dir_wcc = some (wcc env path later);
                })
                later calls
        ]))
