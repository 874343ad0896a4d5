-- ===== src/Mount/Guard.antt =====
-- src/mount.c: who is given a handle by MNT.
use nfsrods.Prelude.{
  ℕ, ◌==◌, ◌<◌, ◌≡◌, ◌∙◌, refl, Bool, true, ◌&&◌, ◌⊎◌, inl, inr, List, some, get_elem?, length,
  bytes, test_bit, arith, Bool-cases, Option-cases,
}
use nfsrods.Backend.{FilePath}
use nfsrods.Fh.Handles.{Handle, fh_valid, fh_comp_raw}
use nfsrods.User.Ids.{opt_removable, opt_insecure}
use nfsrods.Exports.Lookup.{Last, Lookup, exports_options, export_point, starts_with}
use nfsrods.Exports.Longest.{Taken}
use nfsrods.Exports.{EItem}
use nfsrods.Mount.Named.{Asked, Authenticated}
use nfsrods.Mount.Mnt.{
  Caller, State, refused, has_opt, authenticate, mount_real, mount_path, mountproc_mnt,
}

-- `buf` is the real path, or the path itself, which is that of an export of the list.
abbrev pub Real : Caller → FilePath → FilePath → Type 0
Real c dpath buf =
    (c.backend_realpath dpath ≡ some buf)
    ⊎ ((buf ≡ dpath)
        × (i : ℕ) × (item : EItem) × (get_elem? c.export_list i ≡ some item)
        × (item.path ≡ dpath))

-- What stands behind a handle that MNT gives for an argument: the path that the argument names, its
-- real path, the export that the real path is looked up in, the two other conditions, and that the
-- handle is the one composed for the real path, with the password hash of that export's host.
pub record Granted (c : Caller) (nonce : List ℕ) (argp : FilePath) (fh : Handle) : Type 0 where
  pub dpath : FilePath
  pub buf : FilePath
  pub last : Last
  pub asked : Asked argp dpath
  pub real : Real c dpath buf
  pub taken :
      Taken c.export_list buf c.remote (exports_options c.export_list (some buf) c.remote last)
  pub password : Authenticated c nonce argp dpath ⊎ (length taken.chosen.password ≡ 0)
  pub port : (test_bit taken.chosen.options opt_insecure ≡ true) ⊎ (c.port < 1024)
  pub composed :
      fh ≡ record (fh_comp_raw c.fs c.special buf true) { pwhash = taken.chosen.password_hash }
  pub valid : fh_valid fh ≡ true

authenticate-mounts :
    (c : Caller) (dpath : FilePath) (st : State) → (authenticate c dpath st).1.mounts ≡ st.mounts
unfolding authenticate
authenticate-mounts c dpath st = ground (
  arith,
  Bool-cases (starts_with (bytes "@password:") dpath),
  Bool-cases (starts_with (bytes "@otp:") dpath),
)

mount_real-mounts :
    (c : Caller) (a : Bool) (dpath buf : FilePath) (st : State) (code : ℕ)
    → (mount_real c a dpath buf st).0 ≡ refused code
    → (mount_real c a dpath buf st).1.mounts ≡ st.mounts
unfolding mount_real
mount_real-mounts c a dpath buf st code h = ground (arith, h)

mount_path-mounts :
    (c : Caller) (a : Bool) (dpath : FilePath) (st : State) (code : ℕ)
    → (mount_path c a dpath st).0 ≡ refused code
    → (mount_path c a dpath st).1.mounts ≡ st.mounts
unfolding mount_path
mount_path-mounts c a dpath st code h =
    elim (Bool-cases (has_opt st.last opt_removable && export_point c.export_list dpath)) [
      | inl e ↦
          rw (mount_path, e) (mount_real-mounts c a dpath dpath st code (ground (arith, h, e)))
      | inr e ↦ elim (Option-cases (c.backend_realpath dpath)) [
        | inl f ↦ rw (mount_path, e, f) refl
        | inr (buf, f) ↦
            rw (mount_path, e, f)
              (mount_real-mounts c a dpath buf st code (ground (arith, h, e, f)))
      ]
    ]

-- A mount that is answered by an error, whichever it is, leaves the list of mounts as it was.
pub mountproc_mnt_refused :
    (c : Caller) (argp : FilePath) (st : State) (code : ℕ)
    → (mountproc_mnt c argp st).0 ≡ refused code
    → (mountproc_mnt c argp st).1.mounts ≡ st.mounts
unfolding mountproc_mnt
mountproc_mnt_refused c argp st code h = elim (Bool-cases (c.rq_vers == 3)) [
  | inr e ↦ rw e refl
  | inl e ↦ elim (Bool-cases (starts_with (bytes "@getnonce") argp)) [
    | inl f ↦ elim (Option-cases c.gen_nonce) [
      | inl g ↦ rw (e, f, g) refl
      | inr (v, g) ↦ rw (e, f, g) refl
    ]
    | inr f ↦
        let now = authenticate c argp st in
        rw (e, f)
          (mount_path-mounts c now.0.0 now.0.1 now.1 code (ground (arith, h, e, f))
            ∙ authenticate-mounts c argp st)
  ]
]
