-- ===== src/Xdr/Removes.antt =====
-- src/xdr.c: REMOVE and RMDIR.
use nfsrods.Prelude.{refl}
use nfsrods.Xdr.Codec.{Codec, Lawful, struct}
use nfsrods.Xdr.Codec.Laws.{struct-Lawful}
use nfsrods.Xdr.Codec.Library.{Xdr}
use nfsrods.Xdr.Codec.Unions.{Res, res, res-Lawful}
use nfsrods.Xdr.Attr.{WccData, xdr_wcc_data, xdr_wcc_data-Lawful}
use nfsrods.Xdr.Lookups.{Diropargs3, xdr_diropargs3, xdr_diropargs3-Lawful}

-- `struct REMOVE3args`
pub record Remove3args : Type 0 where
  pub object : Diropargs3

xdr_remove3args : (x : Xdr) → Codec Remove3args
xdr_remove3args x = struct (λ v. v.object) (λ p. record { object = p }) (xdr_diropargs3 x)

xdr_remove3args-Lawful : (x : Xdr) → Lawful (xdr_remove3args x)
unfolding xdr_remove3args
xdr_remove3args-Lawful x =
    struct-Lawful (λ v. v.object) (λ p. record { object = p }) (λ v. refl) (xdr_diropargs3-Lawful x)

-- `struct REMOVE3resok`
pub record Remove3resok : Type 0 where
  pub dir_wcc : WccData

xdr_remove3resok : (x : Xdr) → Codec Remove3resok
xdr_remove3resok x = struct (λ v. v.dir_wcc) (λ p. record { dir_wcc = p }) (xdr_wcc_data x)

xdr_remove3resok-Lawful : (x : Xdr) → Lawful (xdr_remove3resok x)
unfolding xdr_remove3resok
xdr_remove3resok-Lawful x =
    struct-Lawful (λ v. v.dir_wcc) (λ p. record { dir_wcc = p }) (λ v. refl) (xdr_wcc_data-Lawful x)

-- `struct REMOVE3resfail`
pub record Remove3resfail : Type 0 where
  pub dir_wcc : WccData

xdr_remove3resfail : (x : Xdr) → Codec Remove3resfail
xdr_remove3resfail x = struct (λ v. v.dir_wcc) (λ p. record { dir_wcc = p }) (xdr_wcc_data x)

xdr_remove3resfail-Lawful : (x : Xdr) → Lawful (xdr_remove3resfail x)
unfolding xdr_remove3resfail
xdr_remove3resfail-Lawful x =
    struct-Lawful (λ v. v.dir_wcc) (λ p. record { dir_wcc = p }) (λ v. refl) (xdr_wcc_data-Lawful x)

-- `status`, and `resok` or `resfail`.
xdr_remove3res : (x : Xdr) → Codec (Res Remove3resok Remove3resfail)
xdr_remove3res x = res x (xdr_remove3resok x) (xdr_remove3resfail x)

xdr_remove3res-Lawful : (x : Xdr) → Lawful (xdr_remove3res x)
unfolding xdr_remove3res
xdr_remove3res-Lawful x = res-Lawful x (xdr_remove3resok-Lawful x) (xdr_remove3resfail-Lawful x)

-- `struct RMDIR3args`
pub record Rmdir3args : Type 0 where
  pub object : Diropargs3

xdr_rmdir3args : (x : Xdr) → Codec Rmdir3args
xdr_rmdir3args x = struct (λ v. v.object) (λ p. record { object = p }) (xdr_diropargs3 x)

xdr_rmdir3args-Lawful : (x : Xdr) → Lawful (xdr_rmdir3args x)
unfolding xdr_rmdir3args
xdr_rmdir3args-Lawful x =
    struct-Lawful (λ v. v.object) (λ p. record { object = p }) (λ v. refl) (xdr_diropargs3-Lawful x)

-- `struct RMDIR3resok`
pub record Rmdir3resok : Type 0 where
  pub dir_wcc : WccData

xdr_rmdir3resok : (x : Xdr) → Codec Rmdir3resok
xdr_rmdir3resok x = struct (λ v. v.dir_wcc) (λ p. record { dir_wcc = p }) (xdr_wcc_data x)

xdr_rmdir3resok-Lawful : (x : Xdr) → Lawful (xdr_rmdir3resok x)
unfolding xdr_rmdir3resok
xdr_rmdir3resok-Lawful x =
    struct-Lawful (λ v. v.dir_wcc) (λ p. record { dir_wcc = p }) (λ v. refl) (xdr_wcc_data-Lawful x)

-- `struct RMDIR3resfail`
pub record Rmdir3resfail : Type 0 where
  pub dir_wcc : WccData

xdr_rmdir3resfail : (x : Xdr) → Codec Rmdir3resfail
xdr_rmdir3resfail x = struct (λ v. v.dir_wcc) (λ p. record { dir_wcc = p }) (xdr_wcc_data x)

xdr_rmdir3resfail-Lawful : (x : Xdr) → Lawful (xdr_rmdir3resfail x)
unfolding xdr_rmdir3resfail
xdr_rmdir3resfail-Lawful x =
    struct-Lawful (λ v. v.dir_wcc) (λ p. record { dir_wcc = p }) (λ v. refl) (xdr_wcc_data-Lawful x)

-- `status`, and `resok` or `resfail`.
xdr_rmdir3res : (x : Xdr) → Codec (Res Rmdir3resok Rmdir3resfail)
xdr_rmdir3res x = res x (xdr_rmdir3resok x) (xdr_rmdir3resfail x)

xdr_rmdir3res-Lawful : (x : Xdr) → Lawful (xdr_rmdir3res x)
unfolding xdr_rmdir3res
xdr_rmdir3res-Lawful x = res-Lawful x (xdr_rmdir3resok-Lawful x) (xdr_rmdir3resfail-Lawful x)
