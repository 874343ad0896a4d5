-- ===== src/Xdr/Specials.antt =====
-- src/xdr.c: SYMLINK and MKNOD.
use nfsrods.Prelude.{
  ℕ, ◌≡◌, refl, ◌==◌, if◌then◌else◌, Bool, true, false, List, [], Option, some, arith,
}
use nfsrods.Xdr.Codec.{Codec, Lawful, both, struct, nothing, both_written, then_read, after_reading}
use nfsrods.Xdr.Codec.Laws.{both-Lawful, struct-Lawful, nothing-Lawful, tagged}
use nfsrods.Xdr.Codec.Library.{Xdr}
use nfsrods.Xdr.Codec.Unions.{Res, res, res-Lawful}
use mathlib.Core.Bool.{◌||◌}
use nfsrods.Xdr.Scalars.{xdr_ftype3, xdr_ftype3-Lawful, xdr_nfspath3, xdr_nfspath3-Lawful}
use nfsrods.Xdr.Attr.{
  Fattr3, Specdata3, WccData, xdr_post_op_attr, xdr_post_op_attr-Lawful, xdr_specdata3,
  xdr_specdata3-Lawful, xdr_wcc_data, xdr_wcc_data-Lawful,
}
use nfsrods.Xdr.Setattrs.{Sattr3, xdr_sattr3, xdr_sattr3-Lawful}
use nfsrods.Xdr.Lookups.{
  Diropargs3, xdr_diropargs3, xdr_diropargs3-Lawful, xdr_post_op_fh3, xdr_post_op_fh3-Lawful,
}

-- `struct symlinkdata3`
pub record Symlinkdata3 : Type 0 where
  pub symlink_attributes : Sattr3
  pub symlink_data : List ℕ

xdr_symlinkdata3 : (x : Xdr) → Codec Symlinkdata3
xdr_symlinkdata3 x =
    struct (λ v. (v.symlink_attributes, v.symlink_data))
      (λ p. record { symlink_attributes = p.0; symlink_data = p.1 })
      (both (xdr_sattr3 x) (xdr_nfspath3 x))

xdr_symlinkdata3-Lawful : (x : Xdr) → Lawful (xdr_symlinkdata3 x)
unfolding xdr_symlinkdata3
xdr_symlinkdata3-Lawful x =
    struct-Lawful (λ v. (v.symlink_attributes, v.symlink_data))
      (λ p. record { symlink_attributes = p.0; symlink_data = p.1 }) (λ v. refl)
      (both-Lawful (xdr_sattr3-Lawful x) (xdr_nfspath3-Lawful x))

-- `struct SYMLINK3args`
pub record Symlink3args : Type 0 where
  pub place : Diropargs3
  pub symlink : Symlinkdata3

xdr_symlink3args : (x : Xdr) → Codec Symlink3args
xdr_symlink3args x =
    struct (λ v. (v.place, v.symlink)) (λ p. record { place = p.0; symlink = p.1 })
      (both (xdr_diropargs3 x) (xdr_symlinkdata3 x))

xdr_symlink3args-Lawful : (x : Xdr) → Lawful (xdr_symlink3args x)
unfolding xdr_symlink3args
xdr_symlink3args-Lawful x =
    struct-Lawful (λ v. (v.place, v.symlink)) (λ p. record { place = p.0; symlink = p.1 })
      (λ v. refl) (both-Lawful (xdr_diropargs3-Lawful x) (xdr_symlinkdata3-Lawful x))

-- `struct SYMLINK3resok`
pub record Symlink3resok : Type 0 where
  pub obj : Option (List ℕ)
  pub obj_attributes : Option Fattr3
  pub dir_wcc : WccData

xdr_symlink3resok : (x : Xdr) → Codec Symlink3resok
xdr_symlink3resok x =
    struct (λ v. (v.obj, (v.obj_attributes, v.dir_wcc)))
      (λ p. record { obj = p.0; obj_attributes = p.1.0; dir_wcc = p.1.1 })
      (both (xdr_post_op_fh3 x) (both (xdr_post_op_attr x) (xdr_wcc_data x)))

xdr_symlink3resok-Lawful : (x : Xdr) → Lawful (xdr_symlink3resok x)
unfolding xdr_symlink3resok
xdr_symlink3resok-Lawful x =
    struct-Lawful (λ v. (v.obj, (v.obj_attributes, v.dir_wcc)))
      (λ p. record { obj = p.0; obj_attributes = p.1.0; dir_wcc = p.1.1 }) (λ v. refl)
      (both-Lawful (xdr_post_op_fh3-Lawful x)
        (both-Lawful (xdr_post_op_attr-Lawful x) (xdr_wcc_data-Lawful x)))

-- `struct SYMLINK3resfail`
pub record Symlink3resfail : Type 0 where
  pub dir_wcc : WccData

xdr_symlink3resfail : (x : Xdr) → Codec Symlink3resfail
xdr_symlink3resfail x = struct (λ v. v.dir_wcc) (λ p. record { dir_wcc = p }) (xdr_wcc_data x)

xdr_symlink3resfail-Lawful : (x : Xdr) → Lawful (xdr_symlink3resfail x)
unfolding xdr_symlink3resfail
xdr_symlink3resfail-Lawful x =
    struct-Lawful (λ v. v.dir_wcc) (λ p. record { dir_wcc = p }) (λ v. refl) (xdr_wcc_data-Lawful x)

-- `status`, and `resok` or `resfail`.
xdr_symlink3res : (x : Xdr) → Codec (Res Symlink3resok Symlink3resfail)
xdr_symlink3res x = res x (xdr_symlink3resok x) (xdr_symlink3resfail x)

xdr_symlink3res-Lawful : (x : Xdr) → Lawful (xdr_symlink3res x)
unfolding xdr_symlink3res
xdr_symlink3res-Lawful x = res-Lawful x (xdr_symlink3resok-Lawful x) (xdr_symlink3resfail-Lawful x)

-- `struct devicedata3`
pub record Devicedata3 : Type 0 where
  pub dev_attributes : Sattr3
  pub spec : Specdata3

xdr_devicedata3 : (x : Xdr) → Codec Devicedata3
xdr_devicedata3 x =
    struct (λ v. (v.dev_attributes, v.spec)) (λ p. record { dev_attributes = p.0; spec = p.1 })
      (both (xdr_sattr3 x) (xdr_specdata3 x))

xdr_devicedata3-Lawful : (x : Xdr) → Lawful (xdr_devicedata3 x)
unfolding xdr_devicedata3
xdr_devicedata3-Lawful x =
    struct-Lawful (λ v. (v.dev_attributes, v.spec))
      (λ p. record { dev_attributes = p.0; spec = p.1 }) (λ v. refl)
      (both-Lawful (xdr_sattr3-Lawful x) (xdr_specdata3-Lawful x))

-- `struct mknoddata3`: NF3BLK 3 and NF3CHR 4 have a device, NF3SOCK 6 and NF3FIFO 7 attributes.
pub data Mknoddata3 : Type 0 where
  device : ℕ → Devicedata3 → Mknoddata3
  pipe : ℕ → Sattr3 → Mknoddata3
  plain : ℕ → Mknoddata3

abbrev is_device : ℕ → Bool
is_device t = t == 4 || t == 3

abbrev is_pipe : ℕ → Bool
is_pipe t = t == 6 || t == 7

abbrev what_arm : (x : Xdr) → ℕ → List ℕ → Option (Mknoddata3 × List ℕ)
what_arm x t rest =
    if is_device t
    then after_reading (device t) ((xdr_devicedata3 x).get rest)
    else if is_pipe t
    then after_reading (pipe t) ((xdr_sattr3 x).get rest)
    else after_reading (λ u. plain t) (nothing.get rest)

xdr_mknoddata3 : (x : Xdr) → Codec Mknoddata3
xdr_mknoddata3 x = record {
  put = λ what. elim what [
    | device t spec ↦ both_written ((xdr_ftype3 x).put t) ((xdr_devicedata3 x).put spec)
    | pipe t attr ↦ both_written ((xdr_ftype3 x).put t) ((xdr_sattr3 x).put attr)
    | plain t ↦ both_written ((xdr_ftype3 x).put t) (some [])
  ];
  get = λ s. then_read ((xdr_ftype3 x).get s) (what_arm x);
  Fits = λ what. elim what [
    | device t spec ↦ (is_device t ≡ true) × ((xdr_ftype3 x).Fits t × (xdr_devicedata3 x).Fits spec)
    | pipe t attr ↦ (is_pipe t ≡ true) × ((xdr_ftype3 x).Fits t × (xdr_sattr3 x).Fits attr)
    | plain t ↦ ((is_device t || is_pipe t) ≡ false) × (xdr_ftype3 x).Fits t
  ];
}

xdr_mknoddata3-Lawful : (x : Xdr) → Lawful (xdr_mknoddata3 x)
unfolding xdr_mknoddata3
xdr_mknoddata3-Lawful x (device t spec) (is, (small, fits)) =
    tagged (xdr_ftype3-Lawful x t small) (xdr_devicedata3-Lawful x spec fits) (device t)
      (xdr_mknoddata3 x).put (what_arm x) refl (λ s. rw is)
xdr_mknoddata3-Lawful x (pipe t attr) (is, (small, fits)) =
    let other : is_device t ≡ false = ground arith in
    tagged (xdr_ftype3-Lawful x t small) (xdr_sattr3-Lawful x attr fits) (pipe t)
      (xdr_mknoddata3 x).put (what_arm x) refl (λ s. rw (other, is))
xdr_mknoddata3-Lawful x (plain t) (is, small) =
    let other : is_device t ≡ false = ground arith in
    let either : is_pipe t ≡ false = ground arith in
    tagged (xdr_ftype3-Lawful x t small) (nothing-Lawful tt tt) (λ u. plain t)
      (xdr_mknoddata3 x).put (what_arm x) refl (λ s. rw (other, either))

-- `struct MKNOD3args`
pub record Mknod3args : Type 0 where
  pub place : Diropargs3
  pub what : Mknoddata3

xdr_mknod3args : (x : Xdr) → Codec Mknod3args
xdr_mknod3args x =
    struct (λ v. (v.place, v.what)) (λ p. record { place = p.0; what = p.1 })
      (both (xdr_diropargs3 x) (xdr_mknoddata3 x))

xdr_mknod3args-Lawful : (x : Xdr) → Lawful (xdr_mknod3args x)
unfolding xdr_mknod3args
xdr_mknod3args-Lawful x =
    struct-Lawful (λ v. (v.place, v.what)) (λ p. record { place = p.0; what = p.1 }) (λ v. refl)
      (both-Lawful (xdr_diropargs3-Lawful x) (xdr_mknoddata3-Lawful x))

-- `struct MKNOD3resok`
pub record Mknod3resok : Type 0 where
  pub obj : Option (List ℕ)
  pub obj_attributes : Option Fattr3
  pub dir_wcc : WccData

xdr_mknod3resok : (x : Xdr) → Codec Mknod3resok
xdr_mknod3resok x =
    struct (λ v. (v.obj, (v.obj_attributes, v.dir_wcc)))
      (λ p. record { obj = p.0; obj_attributes = p.1.0; dir_wcc = p.1.1 })
      (both (xdr_post_op_fh3 x) (both (xdr_post_op_attr x) (xdr_wcc_data x)))

xdr_mknod3resok-Lawful : (x : Xdr) → Lawful (xdr_mknod3resok x)
unfolding xdr_mknod3resok
xdr_mknod3resok-Lawful x =
    struct-Lawful (λ v. (v.obj, (v.obj_attributes, v.dir_wcc)))
      (λ p. record { obj = p.0; obj_attributes = p.1.0; dir_wcc = p.1.1 }) (λ v. refl)
      (both-Lawful (xdr_post_op_fh3-Lawful x)
        (both-Lawful (xdr_post_op_attr-Lawful x) (xdr_wcc_data-Lawful x)))

-- `struct MKNOD3resfail`
pub record Mknod3resfail : Type 0 where
  pub dir_wcc : WccData

xdr_mknod3resfail : (x : Xdr) → Codec Mknod3resfail
xdr_mknod3resfail x = struct (λ v. v.dir_wcc) (λ p. record { dir_wcc = p }) (xdr_wcc_data x)

xdr_mknod3resfail-Lawful : (x : Xdr) → Lawful (xdr_mknod3resfail x)
unfolding xdr_mknod3resfail
xdr_mknod3resfail-Lawful x =
    struct-Lawful (λ v. v.dir_wcc) (λ p. record { dir_wcc = p }) (λ v. refl) (xdr_wcc_data-Lawful x)

-- `status`, and `resok` or `resfail`.
xdr_mknod3res : (x : Xdr) → Codec (Res Mknod3resok Mknod3resfail)
xdr_mknod3res x = res x (xdr_mknod3resok x) (xdr_mknod3resfail x)

xdr_mknod3res-Lawful : (x : Xdr) → Lawful (xdr_mknod3res x)
unfolding xdr_mknod3res
xdr_mknod3res-Lawful x = res-Lawful x (xdr_mknod3resok-Lawful x) (xdr_mknod3resfail-Lawful x)
