-- ===== src/Xdr/Lookups.antt =====
-- src/xdr.c: GETATTR, LOOKUP and ACCESS.
use nfsrods.Prelude.{ℕ, refl, List, Option}
use nfsrods.Xdr.Codec.{Codec, Lawful, both, struct, nothing}
use nfsrods.Xdr.Codec.Laws.{both-Lawful, struct-Lawful, nothing-Lawful}
use nfsrods.Xdr.Codec.Library.{Xdr}
use nfsrods.Xdr.Codec.Unions.{Res, follows, follows-Lawful, res, res-Lawful}
use nfsrods.Xdr.Scalars.{
  xdr_filename3, xdr_filename3-Lawful, xdr_nfs_fh3, xdr_nfs_fh3-Lawful, xdr_uint32,
  xdr_uint32-Lawful,
}
use nfsrods.Xdr.Attr.{
  Fattr3, xdr_fattr3, xdr_fattr3-Lawful, xdr_post_op_attr, xdr_post_op_attr-Lawful,
}

pub xdr_post_op_fh3 : (x : Xdr) → Codec (Option (List ℕ))
xdr_post_op_fh3 x = follows x (xdr_nfs_fh3 x)

pub xdr_post_op_fh3-Lawful : (x : Xdr) → Lawful (xdr_post_op_fh3 x)
unfolding xdr_post_op_fh3
xdr_post_op_fh3-Lawful x = follows-Lawful x (xdr_nfs_fh3-Lawful x)

-- `struct diropargs3`
pub record Diropargs3 : Type 0 where
  pub dir : List ℕ
  pub name : List ℕ

pub xdr_diropargs3 : (x : Xdr) → Codec Diropargs3
xdr_diropargs3 x =
    struct (λ v. (v.dir, v.name)) (λ p. record { dir = p.0; name = p.1 })
      (both (xdr_nfs_fh3 x) (xdr_filename3 x))

pub xdr_diropargs3-Lawful : (x : Xdr) → Lawful (xdr_diropargs3 x)
unfolding xdr_diropargs3
xdr_diropargs3-Lawful x =
    struct-Lawful (λ v. (v.dir, v.name)) (λ p. record { dir = p.0; name = p.1 }) (λ v. refl)
      (both-Lawful (xdr_nfs_fh3-Lawful x) (xdr_filename3-Lawful x))

-- `struct GETATTR3args`
pub record Getattr3args : Type 0 where
  pub object : List ℕ

xdr_getattr3args : (x : Xdr) → Codec Getattr3args
xdr_getattr3args x = struct (λ v. v.object) (λ p. record { object = p }) (xdr_nfs_fh3 x)

xdr_getattr3args-Lawful : (x : Xdr) → Lawful (xdr_getattr3args x)
unfolding xdr_getattr3args
xdr_getattr3args-Lawful x =
    struct-Lawful (λ v. v.object) (λ p. record { object = p }) (λ v. refl) (xdr_nfs_fh3-Lawful x)

-- `struct GETATTR3resok`
pub record Getattr3resok : Type 0 where
  pub obj_attributes : Fattr3

xdr_getattr3resok : (x : Xdr) → Codec Getattr3resok
xdr_getattr3resok x =
    struct (λ v. v.obj_attributes) (λ p. record { obj_attributes = p }) (xdr_fattr3 x)

xdr_getattr3resok-Lawful : (x : Xdr) → Lawful (xdr_getattr3resok x)
unfolding xdr_getattr3resok
xdr_getattr3resok-Lawful x =
    struct-Lawful (λ v. v.obj_attributes) (λ p. record { obj_attributes = p }) (λ v. refl)
      (xdr_fattr3-Lawful x)

-- `status`, and `resok` or `resfail`.
xdr_getattr3res : (x : Xdr) → Codec (Res Getattr3resok (Unit {0}))
xdr_getattr3res x = res x (xdr_getattr3resok x) nothing

xdr_getattr3res-Lawful : (x : Xdr) → Lawful (xdr_getattr3res x)
unfolding xdr_getattr3res
xdr_getattr3res-Lawful x = res-Lawful x (xdr_getattr3resok-Lawful x) nothing-Lawful

-- `struct LOOKUP3args`
pub record Lookup3args : Type 0 where
  pub what : Diropargs3

xdr_lookup3args : (x : Xdr) → Codec Lookup3args
xdr_lookup3args x = struct (λ v. v.what) (λ p. record { what = p }) (xdr_diropargs3 x)

xdr_lookup3args-Lawful : (x : Xdr) → Lawful (xdr_lookup3args x)
unfolding xdr_lookup3args
xdr_lookup3args-Lawful x =
    struct-Lawful (λ v. v.what) (λ p. record { what = p }) (λ v. refl) (xdr_diropargs3-Lawful x)

-- `struct LOOKUP3resok`
pub record Lookup3resok : Type 0 where
  pub object : List ℕ
  pub obj_attributes : Option Fattr3
  pub dir_attributes : Option Fattr3

xdr_lookup3resok : (x : Xdr) → Codec Lookup3resok
xdr_lookup3resok x =
    struct (λ v. (v.object, (v.obj_attributes, v.dir_attributes)))
      (λ p. record { object = p.0; obj_attributes = p.1.0; dir_attributes = p.1.1 })
      (both (xdr_nfs_fh3 x) (both (xdr_post_op_attr x) (xdr_post_op_attr x)))

xdr_lookup3resok-Lawful : (x : Xdr) → Lawful (xdr_lookup3resok x)
unfolding xdr_lookup3resok
xdr_lookup3resok-Lawful x =
    struct-Lawful (λ v. (v.object, (v.obj_attributes, v.dir_attributes)))
      (λ p. record { object = p.0; obj_attributes = p.1.0; dir_attributes = p.1.1 }) (λ v. refl)
      (both-Lawful (xdr_nfs_fh3-Lawful x)
        (both-Lawful (xdr_post_op_attr-Lawful x) (xdr_post_op_attr-Lawful x)))

-- `struct LOOKUP3resfail`
pub record Lookup3resfail : Type 0 where
  pub dir_attributes : Option Fattr3

xdr_lookup3resfail : (x : Xdr) → Codec Lookup3resfail
xdr_lookup3resfail x =
    struct (λ v. v.dir_attributes) (λ p. record { dir_attributes = p }) (xdr_post_op_attr x)

xdr_lookup3resfail-Lawful : (x : Xdr) → Lawful (xdr_lookup3resfail x)
unfolding xdr_lookup3resfail
xdr_lookup3resfail-Lawful x =
    struct-Lawful (λ v. v.dir_attributes) (λ p. record { dir_attributes = p }) (λ v. refl)
      (xdr_post_op_attr-Lawful x)

-- `status`, and `resok` or `resfail`.
xdr_lookup3res : (x : Xdr) → Codec (Res Lookup3resok Lookup3resfail)
xdr_lookup3res x = res x (xdr_lookup3resok x) (xdr_lookup3resfail x)

xdr_lookup3res-Lawful : (x : Xdr) → Lawful (xdr_lookup3res x)
unfolding xdr_lookup3res
xdr_lookup3res-Lawful x = res-Lawful x (xdr_lookup3resok-Lawful x) (xdr_lookup3resfail-Lawful x)

-- `struct ACCESS3args`
pub record Access3args : Type 0 where
  pub object : List ℕ
  pub access : ℕ

xdr_access3args : (x : Xdr) → Codec Access3args
xdr_access3args x =
    struct (λ v. (v.object, v.access)) (λ p. record { object = p.0; access = p.1 })
      (both (xdr_nfs_fh3 x) (xdr_uint32 x))

xdr_access3args-Lawful : (x : Xdr) → Lawful (xdr_access3args x)
unfolding xdr_access3args
xdr_access3args-Lawful x =
    struct-Lawful (λ v. (v.object, v.access)) (λ p. record { object = p.0; access = p.1 })
      (λ v. refl) (both-Lawful (xdr_nfs_fh3-Lawful x) (xdr_uint32-Lawful x))

-- `struct ACCESS3resok`
pub record Access3resok : Type 0 where
  pub obj_attributes : Option Fattr3
  pub access : ℕ

xdr_access3resok : (x : Xdr) → Codec Access3resok
xdr_access3resok x =
    struct (λ v. (v.obj_attributes, v.access)) (λ p. record { obj_attributes = p.0; access = p.1 })
      (both (xdr_post_op_attr x) (xdr_uint32 x))

xdr_access3resok-Lawful : (x : Xdr) → Lawful (xdr_access3resok x)
unfolding xdr_access3resok
xdr_access3resok-Lawful x =
    struct-Lawful (λ v. (v.obj_attributes, v.access))
      (λ p. record { obj_attributes = p.0; access = p.1 }) (λ v. refl)
      (both-Lawful (xdr_post_op_attr-Lawful x) (xdr_uint32-Lawful x))

-- `struct ACCESS3resfail`
pub record Access3resfail : Type 0 where
  pub obj_attributes : Option Fattr3

xdr_access3resfail : (x : Xdr) → Codec Access3resfail
xdr_access3resfail x =
    struct (λ v. v.obj_attributes) (λ p. record { obj_attributes = p }) (xdr_post_op_attr x)

xdr_access3resfail-Lawful : (x : Xdr) → Lawful (xdr_access3resfail x)
unfolding xdr_access3resfail
xdr_access3resfail-Lawful x =
    struct-Lawful (λ v. v.obj_attributes) (λ p. record { obj_attributes = p }) (λ v. refl)
      (xdr_post_op_attr-Lawful x)

-- `status`, and `resok` or `resfail`.
xdr_access3res : (x : Xdr) → Codec (Res Access3resok Access3resfail)
xdr_access3res x = res x (xdr_access3resok x) (xdr_access3resfail x)

xdr_access3res-Lawful : (x : Xdr) → Lawful (xdr_access3res x)
unfolding xdr_access3res
xdr_access3res-Lawful x = res-Lawful x (xdr_access3resok-Lawful x) (xdr_access3resfail-Lawful x)
