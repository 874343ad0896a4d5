-- ===== src/Xdr/Renames.antt =====
-- src/xdr.c: RENAME and LINK.
use nfsrods.Prelude.{ℕ, refl, List, Option}
use nfsrods.Xdr.Codec.{Codec, Lawful, both, struct}
use nfsrods.Xdr.Codec.Laws.{both-Lawful, struct-Lawful}
use nfsrods.Xdr.Codec.Library.{Xdr}
use nfsrods.Xdr.Codec.Unions.{Res, res, res-Lawful}
use nfsrods.Xdr.Scalars.{xdr_nfs_fh3, xdr_nfs_fh3-Lawful}
use nfsrods.Xdr.Attr.{
  Fattr3, WccData, xdr_post_op_attr, xdr_post_op_attr-Lawful, xdr_wcc_data, xdr_wcc_data-Lawful,
}
use nfsrods.Xdr.Lookups.{Diropargs3, xdr_diropargs3, xdr_diropargs3-Lawful}

-- `struct RENAME3args`
pub record Rename3args : Type 0 where
  pub from_place : Diropargs3
  pub to_place : Diropargs3

xdr_rename3args : (x : Xdr) → Codec Rename3args
xdr_rename3args x =
    struct (λ v. (v.from_place, v.to_place)) (λ p. record { from_place = p.0; to_place = p.1 })
      (both (xdr_diropargs3 x) (xdr_diropargs3 x))

xdr_rename3args-Lawful : (x : Xdr) → Lawful (xdr_rename3args x)
unfolding xdr_rename3args
xdr_rename3args-Lawful x =
    struct-Lawful (λ v. (v.from_place, v.to_place))
      (λ p. record { from_place = p.0; to_place = p.1 }) (λ v. refl)
      (both-Lawful (xdr_diropargs3-Lawful x) (xdr_diropargs3-Lawful x))

-- `struct RENAME3resok`
pub record Rename3resok : Type 0 where
  pub fromdir_wcc : WccData
  pub todir_wcc : WccData

xdr_rename3resok : (x : Xdr) → Codec Rename3resok
xdr_rename3resok x =
    struct (λ v. (v.fromdir_wcc, v.todir_wcc)) (λ p. record { fromdir_wcc = p.0; todir_wcc = p.1 })
      (both (xdr_wcc_data x) (xdr_wcc_data x))

xdr_rename3resok-Lawful : (x : Xdr) → Lawful (xdr_rename3resok x)
unfolding xdr_rename3resok
xdr_rename3resok-Lawful x =
    struct-Lawful (λ v. (v.fromdir_wcc, v.todir_wcc))
      (λ p. record { fromdir_wcc = p.0; todir_wcc = p.1 }) (λ v. refl)
      (both-Lawful (xdr_wcc_data-Lawful x) (xdr_wcc_data-Lawful x))

-- `struct RENAME3resfail`
pub record Rename3resfail : Type 0 where
  pub fromdir_wcc : WccData
  pub todir_wcc : WccData

xdr_rename3resfail : (x : Xdr) → Codec Rename3resfail
xdr_rename3resfail x =
    struct (λ v. (v.fromdir_wcc, v.todir_wcc)) (λ p. record { fromdir_wcc = p.0; todir_wcc = p.1 })
      (both (xdr_wcc_data x) (xdr_wcc_data x))

xdr_rename3resfail-Lawful : (x : Xdr) → Lawful (xdr_rename3resfail x)
unfolding xdr_rename3resfail
xdr_rename3resfail-Lawful x =
    struct-Lawful (λ v. (v.fromdir_wcc, v.todir_wcc))
      (λ p. record { fromdir_wcc = p.0; todir_wcc = p.1 }) (λ v. refl)
      (both-Lawful (xdr_wcc_data-Lawful x) (xdr_wcc_data-Lawful x))

-- `status`, and `resok` or `resfail`.
xdr_rename3res : (x : Xdr) → Codec (Res Rename3resok Rename3resfail)
xdr_rename3res x = res x (xdr_rename3resok x) (xdr_rename3resfail x)

xdr_rename3res-Lawful : (x : Xdr) → Lawful (xdr_rename3res x)
unfolding xdr_rename3res
xdr_rename3res-Lawful x = res-Lawful x (xdr_rename3resok-Lawful x) (xdr_rename3resfail-Lawful x)

-- `struct LINK3args`
pub record Link3args : Type 0 where
  pub file : List ℕ
  pub link : Diropargs3

xdr_link3args : (x : Xdr) → Codec Link3args
xdr_link3args x =
    struct (λ v. (v.file, v.link)) (λ p. record { file = p.0; link = p.1 })
      (both (xdr_nfs_fh3 x) (xdr_diropargs3 x))

xdr_link3args-Lawful : (x : Xdr) → Lawful (xdr_link3args x)
unfolding xdr_link3args
xdr_link3args-Lawful x =
    struct-Lawful (λ v. (v.file, v.link)) (λ p. record { file = p.0; link = p.1 }) (λ v. refl)
      (both-Lawful (xdr_nfs_fh3-Lawful x) (xdr_diropargs3-Lawful x))

-- `struct LINK3resok`
pub record Link3resok : Type 0 where
  pub file_attributes : Option Fattr3
  pub linkdir_wcc : WccData

xdr_link3resok : (x : Xdr) → Codec Link3resok
xdr_link3resok x =
    struct (λ v. (v.file_attributes, v.linkdir_wcc))
      (λ p. record { file_attributes = p.0; linkdir_wcc = p.1 })
      (both (xdr_post_op_attr x) (xdr_wcc_data x))

xdr_link3resok-Lawful : (x : Xdr) → Lawful (xdr_link3resok x)
unfolding xdr_link3resok
xdr_link3resok-Lawful x =
    struct-Lawful (λ v. (v.file_attributes, v.linkdir_wcc))
      (λ p. record { file_attributes = p.0; linkdir_wcc = p.1 }) (λ v. refl)
      (both-Lawful (xdr_post_op_attr-Lawful x) (xdr_wcc_data-Lawful x))

-- `struct LINK3resfail`
pub record Link3resfail : Type 0 where
  pub file_attributes : Option Fattr3
  pub linkdir_wcc : WccData

xdr_link3resfail : (x : Xdr) → Codec Link3resfail
xdr_link3resfail x =
    struct (λ v. (v.file_attributes, v.linkdir_wcc))
      (λ p. record { file_attributes = p.0; linkdir_wcc = p.1 })
      (both (xdr_post_op_attr x) (xdr_wcc_data x))

xdr_link3resfail-Lawful : (x : Xdr) → Lawful (xdr_link3resfail x)
unfolding xdr_link3resfail
xdr_link3resfail-Lawful x =
    struct-Lawful (λ v. (v.file_attributes, v.linkdir_wcc))
      (λ p. record { file_attributes = p.0; linkdir_wcc = p.1 }) (λ v. refl)
      (both-Lawful (xdr_post_op_attr-Lawful x) (xdr_wcc_data-Lawful x))

-- `status`, and `resok` or `resfail`.
xdr_link3res : (x : Xdr) → Codec (Res Link3resok Link3resfail)
xdr_link3res x = res x (xdr_link3resok x) (xdr_link3resfail x)

xdr_link3res-Lawful : (x : Xdr) → Lawful (xdr_link3res x)
unfolding xdr_link3res
xdr_link3res-Lawful x = res-Lawful x (xdr_link3resok-Lawful x) (xdr_link3resfail-Lawful x)
