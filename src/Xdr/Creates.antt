-- ===== src/Xdr/Creates.antt =====
-- src/xdr.c: CREATE and MKDIR.
use nfsrods.Prelude.{ℕ, ◌<◌, refl, ◌==◌, if◌then◌else◌, List, Option, none, arith}
use nfsrods.Xdr.Codec.{Codec, Lawful, both, struct, both_written, then_read, after_reading}
use nfsrods.Xdr.Codec.Laws.{both-Lawful, struct-Lawful, tagged}
use nfsrods.Xdr.Codec.Library.{Xdr}
use nfsrods.Xdr.Codec.Unions.{Res, res, res-Lawful}
use nfsrods.Xdr.Scalars.{xdr_createmode3, xdr_createverf3, xdr_createverf3-Lawful}
use nfsrods.Xdr.Attr.{
  Fattr3, WccData, xdr_post_op_attr, xdr_post_op_attr-Lawful, xdr_wcc_data, xdr_wcc_data-Lawful,
}
use nfsrods.Xdr.Setattrs.{Sattr3, xdr_sattr3, xdr_sattr3-Lawful}
use nfsrods.Xdr.Lookups.{
  Diropargs3, xdr_diropargs3, xdr_diropargs3-Lawful, xdr_post_op_fh3, xdr_post_op_fh3-Lawful,
}

-- `struct createhow3`: UNCHECKED 0, GUARDED 1, EXCLUSIVE 2, or a mode that has no name.
pub data Createhow3 : Type 0 where
  unchecked : Sattr3 → Createhow3
  guarded : Sattr3 → Createhow3
  exclusive : List ℕ → Createhow3
  unnamed : ℕ → Createhow3

abbrev how_arm : (x : Xdr) → ℕ → List ℕ → Option (Createhow3 × List ℕ)
how_arm x mode rest =
    if mode == 0
    then after_reading unchecked ((xdr_sattr3 x).get rest)
    else if mode == 1
    then after_reading guarded ((xdr_sattr3 x).get rest)
    else if mode == 2
    then after_reading exclusive ((xdr_createverf3 x).get rest)
    else none

unfoldable pub xdr_createhow3 : (x : Xdr) → Codec Createhow3
xdr_createhow3 x = record {
  put = λ how. elim how [
    | unchecked attr ↦ both_written ((xdr_createmode3 x).put 0) ((xdr_sattr3 x).put attr)
    | guarded attr ↦ both_written ((xdr_createmode3 x).put 1) ((xdr_sattr3 x).put attr)
    | exclusive verf ↦ both_written ((xdr_createmode3 x).put 2) ((xdr_createverf3 x).put verf)
    | unnamed mode ↦ both_written ((xdr_createmode3 x).put mode) none
  ];
  get = λ s. then_read ((xdr_createmode3 x).get s) (how_arm x);
  Fits = λ how. elim how [
    | unchecked attr ↦ (xdr_sattr3 x).Fits attr
    | guarded attr ↦ (xdr_sattr3 x).Fits attr
    | exclusive verf ↦ (xdr_createverf3 x).Fits verf
    | unnamed mode ↦ 1 < 0
  ];
}

xdr_createhow3-Lawful : (x : Xdr) → Lawful (xdr_createhow3 x)
unfolding xdr_createhow3 xdr_createmode3
xdr_createhow3-Lawful x (unchecked attr) fits =
    tagged (x.enum_coded 0 (omega arith)) (xdr_sattr3-Lawful x attr fits) unchecked
      (xdr_createhow3 x).put (how_arm x) refl (λ s. refl)
xdr_createhow3-Lawful x (guarded attr) fits =
    tagged (x.enum_coded 1 (omega arith)) (xdr_sattr3-Lawful x attr fits) guarded
      (xdr_createhow3 x).put (how_arm x) refl (λ s. refl)
xdr_createhow3-Lawful x (exclusive verf) fits =
    tagged (x.enum_coded 2 (omega arith)) (xdr_createverf3-Lawful x verf fits) exclusive
      (xdr_createhow3 x).put (how_arm x) refl (λ s. refl)
xdr_createhow3-Lawful x (unnamed mode) fits = absurd (omega arith)

-- `struct CREATE3args`
pub record Create3args : Type 0 where
  pub place : Diropargs3
  pub how : Createhow3

pub xdr_create3args : (x : Xdr) → Codec Create3args
xdr_create3args x =
    struct (λ v. (v.place, v.how)) (λ p. record { place = p.0; how = p.1 })
      (both (xdr_diropargs3 x) (xdr_createhow3 x))

pub xdr_create3args-Lawful : (x : Xdr) → Lawful (xdr_create3args x)
unfolding xdr_create3args
xdr_create3args-Lawful x =
    struct-Lawful (λ v. (v.place, v.how)) (λ p. record { place = p.0; how = p.1 }) (λ v. refl)
      (both-Lawful (xdr_diropargs3-Lawful x) (xdr_createhow3-Lawful x))

-- `struct CREATE3resok`
pub record Create3resok : Type 0 where
  pub obj : Option (List ℕ)
  pub obj_attributes : Option Fattr3
  pub dir_wcc : WccData

xdr_create3resok : (x : Xdr) → Codec Create3resok
xdr_create3resok x =
    struct (λ v. (v.obj, (v.obj_attributes, v.dir_wcc)))
      (λ p. record { obj = p.0; obj_attributes = p.1.0; dir_wcc = p.1.1 })
      (both (xdr_post_op_fh3 x) (both (xdr_post_op_attr x) (xdr_wcc_data x)))

xdr_create3resok-Lawful : (x : Xdr) → Lawful (xdr_create3resok x)
unfolding xdr_create3resok
xdr_create3resok-Lawful x =
    struct-Lawful (λ v. (v.obj, (v.obj_attributes, v.dir_wcc)))
      (λ p. record { obj = p.0; obj_attributes = p.1.0; dir_wcc = p.1.1 }) (λ v. refl)
      (both-Lawful (xdr_post_op_fh3-Lawful x)
        (both-Lawful (xdr_post_op_attr-Lawful x) (xdr_wcc_data-Lawful x)))

-- `struct CREATE3resfail`
pub record Create3resfail : Type 0 where
  pub dir_wcc : WccData

xdr_create3resfail : (x : Xdr) → Codec Create3resfail
xdr_create3resfail x = struct (λ v. v.dir_wcc) (λ p. record { dir_wcc = p }) (xdr_wcc_data x)

xdr_create3resfail-Lawful : (x : Xdr) → Lawful (xdr_create3resfail x)
unfolding xdr_create3resfail
xdr_create3resfail-Lawful x =
    struct-Lawful (λ v. v.dir_wcc) (λ p. record { dir_wcc = p }) (λ v. refl) (xdr_wcc_data-Lawful x)

-- `status`, and `resok` or `resfail`.
xdr_create3res : (x : Xdr) → Codec (Res Create3resok Create3resfail)
xdr_create3res x = res x (xdr_create3resok x) (xdr_create3resfail x)

xdr_create3res-Lawful : (x : Xdr) → Lawful (xdr_create3res x)
unfolding xdr_create3res
xdr_create3res-Lawful x = res-Lawful x (xdr_create3resok-Lawful x) (xdr_create3resfail-Lawful x)

-- `struct MKDIR3args`
pub record Mkdir3args : Type 0 where
  pub place : Diropargs3
  pub attributes : Sattr3

xdr_mkdir3args : (x : Xdr) → Codec Mkdir3args
xdr_mkdir3args x =
    struct (λ v. (v.place, v.attributes)) (λ p. record { place = p.0; attributes = p.1 })
      (both (xdr_diropargs3 x) (xdr_sattr3 x))

xdr_mkdir3args-Lawful : (x : Xdr) → Lawful (xdr_mkdir3args x)
unfolding xdr_mkdir3args
xdr_mkdir3args-Lawful x =
    struct-Lawful (λ v. (v.place, v.attributes)) (λ p. record { place = p.0; attributes = p.1 })
      (λ v. refl) (both-Lawful (xdr_diropargs3-Lawful x) (xdr_sattr3-Lawful x))

-- `struct MKDIR3resok`
pub record Mkdir3resok : Type 0 where
  pub obj : Option (List ℕ)
  pub obj_attributes : Option Fattr3
  pub dir_wcc : WccData

xdr_mkdir3resok : (x : Xdr) → Codec Mkdir3resok
xdr_mkdir3resok x =
    struct (λ v. (v.obj, (v.obj_attributes, v.dir_wcc)))
      (λ p. record { obj = p.0; obj_attributes = p.1.0; dir_wcc = p.1.1 })
      (both (xdr_post_op_fh3 x) (both (xdr_post_op_attr x) (xdr_wcc_data x)))

xdr_mkdir3resok-Lawful : (x : Xdr) → Lawful (xdr_mkdir3resok x)
unfolding xdr_mkdir3resok
xdr_mkdir3resok-Lawful x =
    struct-Lawful (λ v. (v.obj, (v.obj_attributes, v.dir_wcc)))
      (λ p. record { obj = p.0; obj_attributes = p.1.0; dir_wcc = p.1.1 }) (λ v. refl)
      (both-Lawful (xdr_post_op_fh3-Lawful x)
        (both-Lawful (xdr_post_op_attr-Lawful x) (xdr_wcc_data-Lawful x)))

-- `struct MKDIR3resfail`
pub record Mkdir3resfail : Type 0 where
  pub dir_wcc : WccData

xdr_mkdir3resfail : (x : Xdr) → Codec Mkdir3resfail
xdr_mkdir3resfail x = struct (λ v. v.dir_wcc) (λ p. record { dir_wcc = p }) (xdr_wcc_data x)

xdr_mkdir3resfail-Lawful : (x : Xdr) → Lawful (xdr_mkdir3resfail x)
unfolding xdr_mkdir3resfail
xdr_mkdir3resfail-Lawful x =
    struct-Lawful (λ v. v.dir_wcc) (λ p. record { dir_wcc = p }) (λ v. refl) (xdr_wcc_data-Lawful x)

-- `status`, and `resok` or `resfail`.
xdr_mkdir3res : (x : Xdr) → Codec (Res Mkdir3resok Mkdir3resfail)
xdr_mkdir3res x = res x (xdr_mkdir3resok x) (xdr_mkdir3resfail x)

xdr_mkdir3res-Lawful : (x : Xdr) → Lawful (xdr_mkdir3res x)
unfolding xdr_mkdir3res
xdr_mkdir3res-Lawful x = res-Lawful x (xdr_mkdir3resok-Lawful x) (xdr_mkdir3resfail-Lawful x)
