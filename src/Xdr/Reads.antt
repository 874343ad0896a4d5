-- ===== src/Xdr/Reads.antt =====
-- src/xdr.c: READLINK and READ.
use nfsrods.Prelude.{ℕ, refl, Bool, List, Option, arith}
use nfsrods.Xdr.Codec.{Codec, Lawful, both, struct}
use nfsrods.Xdr.Codec.Laws.{both-Lawful, struct-Lawful}
use nfsrods.Xdr.Codec.Library.{Xdr}
use nfsrods.Xdr.Codec.Unions.{Res, res, res-Lawful}
use nfsrods.Xdr.Scalars.{
  bool, bool-Lawful, bytes, bytes-Lawful, unbounded, xdr_count3, xdr_count3-Lawful, xdr_nfs_fh3,
  xdr_nfs_fh3-Lawful, xdr_nfspath3, xdr_nfspath3-Lawful, xdr_offset3, xdr_offset3-Lawful,
}
use nfsrods.Xdr.Attr.{Fattr3, xdr_post_op_attr, xdr_post_op_attr-Lawful}

-- `struct READLINK3args`
pub record Readlink3args : Type 0 where
  pub symlink : List ℕ

xdr_readlink3args : (x : Xdr) → Codec Readlink3args
xdr_readlink3args x = struct (λ v. v.symlink) (λ p. record { symlink = p }) (xdr_nfs_fh3 x)

xdr_readlink3args-Lawful : (x : Xdr) → Lawful (xdr_readlink3args x)
unfolding xdr_readlink3args
xdr_readlink3args-Lawful x =
    struct-Lawful (λ v. v.symlink) (λ p. record { symlink = p }) (λ v. refl) (xdr_nfs_fh3-Lawful x)

-- `struct READLINK3resok`
pub record Readlink3resok : Type 0 where
  pub symlink_attributes : Option Fattr3
  pub data_val : List ℕ

xdr_readlink3resok : (x : Xdr) → Codec Readlink3resok
xdr_readlink3resok x =
    struct (λ v. (v.symlink_attributes, v.data_val))
      (λ p. record { symlink_attributes = p.0; data_val = p.1 })
      (both (xdr_post_op_attr x) (xdr_nfspath3 x))

xdr_readlink3resok-Lawful : (x : Xdr) → Lawful (xdr_readlink3resok x)
unfolding xdr_readlink3resok
xdr_readlink3resok-Lawful x =
    struct-Lawful (λ v. (v.symlink_attributes, v.data_val))
      (λ p. record { symlink_attributes = p.0; data_val = p.1 }) (λ v. refl)
      (both-Lawful (xdr_post_op_attr-Lawful x) (xdr_nfspath3-Lawful x))

-- `struct READLINK3resfail`
pub record Readlink3resfail : Type 0 where
  pub symlink_attributes : Option Fattr3

xdr_readlink3resfail : (x : Xdr) → Codec Readlink3resfail
xdr_readlink3resfail x =
    struct (λ v. v.symlink_attributes) (λ p. record { symlink_attributes = p }) (xdr_post_op_attr x)

xdr_readlink3resfail-Lawful : (x : Xdr) → Lawful (xdr_readlink3resfail x)
unfolding xdr_readlink3resfail
xdr_readlink3resfail-Lawful x =
    struct-Lawful (λ v. v.symlink_attributes) (λ p. record { symlink_attributes = p }) (λ v. refl)
      (xdr_post_op_attr-Lawful x)

-- `status`, and `resok` or `resfail`.
xdr_readlink3res : (x : Xdr) → Codec (Res Readlink3resok Readlink3resfail)
xdr_readlink3res x = res x (xdr_readlink3resok x) (xdr_readlink3resfail x)

xdr_readlink3res-Lawful : (x : Xdr) → Lawful (xdr_readlink3res x)
unfolding xdr_readlink3res
xdr_readlink3res-Lawful x =
    res-Lawful x (xdr_readlink3resok-Lawful x) (xdr_readlink3resfail-Lawful x)

-- `struct READ3args`
pub record Read3args : Type 0 where
  pub file : List ℕ
  pub offset : ℕ
  pub count : ℕ

xdr_read3args : (x : Xdr) → Codec Read3args
xdr_read3args x =
    struct (λ v. (v.file, (v.offset, v.count)))
      (λ p. record { file = p.0; offset = p.1.0; count = p.1.1 })
      (both (xdr_nfs_fh3 x) (both (xdr_offset3 x) (xdr_count3 x)))

xdr_read3args-Lawful : (x : Xdr) → Lawful (xdr_read3args x)
unfolding xdr_read3args
xdr_read3args-Lawful x =
    struct-Lawful (λ v. (v.file, (v.offset, v.count)))
      (λ p. record { file = p.0; offset = p.1.0; count = p.1.1 }) (λ v. refl)
      (both-Lawful (xdr_nfs_fh3-Lawful x)
        (both-Lawful (xdr_offset3-Lawful x) (xdr_count3-Lawful x)))

-- `struct READ3resok`
pub record Read3resok : Type 0 where
  pub file_attributes : Option Fattr3
  pub count : ℕ
  pub eof : Bool
  pub data_val : List ℕ

xdr_read3resok : (x : Xdr) → Codec Read3resok
xdr_read3resok x =
    struct (λ v. (v.file_attributes, (v.count, (v.eof, v.data_val))))
      (λ p. record { file_attributes = p.0; count = p.1.0; eof = p.1.1.0; data_val = p.1.1.1 })
      (both (xdr_post_op_attr x) (both (xdr_count3 x) (both (bool x) (bytes x unbounded))))

xdr_read3resok-Lawful : (x : Xdr) → Lawful (xdr_read3resok x)
unfolding xdr_read3resok
xdr_read3resok-Lawful x =
    struct-Lawful (λ v. (v.file_attributes, (v.count, (v.eof, v.data_val))))
      (λ p. record { file_attributes = p.0; count = p.1.0; eof = p.1.1.0; data_val = p.1.1.1 })
      (λ v. refl)
      (both-Lawful (xdr_post_op_attr-Lawful x) (
        both-Lawful (xdr_count3-Lawful x)
          (both-Lawful (bool-Lawful x) (bytes-Lawful x unbounded (omega arith)))))

-- `struct READ3resfail`
pub record Read3resfail : Type 0 where
  pub file_attributes : Option Fattr3

xdr_read3resfail : (x : Xdr) → Codec Read3resfail
xdr_read3resfail x =
    struct (λ v. v.file_attributes) (λ p. record { file_attributes = p }) (xdr_post_op_attr x)

xdr_read3resfail-Lawful : (x : Xdr) → Lawful (xdr_read3resfail x)
unfolding xdr_read3resfail
xdr_read3resfail-Lawful x =
    struct-Lawful (λ v. v.file_attributes) (λ p. record { file_attributes = p }) (λ v. refl)
      (xdr_post_op_attr-Lawful x)

-- `status`, and `resok` or `resfail`.
xdr_read3res : (x : Xdr) → Codec (Res Read3resok Read3resfail)
xdr_read3res x = res x (xdr_read3resok x) (xdr_read3resfail x)

xdr_read3res-Lawful : (x : Xdr) → Lawful (xdr_read3res x)
unfolding xdr_read3res
xdr_read3res-Lawful x = res-Lawful x (xdr_read3resok-Lawful x) (xdr_read3resfail-Lawful x)
