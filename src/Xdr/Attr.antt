-- ===== src/Xdr/Attr.antt =====
-- src/xdr.c: the attributes of objects.
use nfsrods.Prelude.{ℕ, refl, Option}
use nfsrods.Xdr.Codec.{Codec, Lawful, both, struct}
use nfsrods.Xdr.Codec.Laws.{both-Lawful, struct-Lawful}
use nfsrods.Xdr.Codec.Library.{Xdr}
use nfsrods.Xdr.Codec.Unions.{follows, follows-Lawful}
use nfsrods.Xdr.Scalars.{
  xdr_fileid3, xdr_fileid3-Lawful, xdr_ftype3, xdr_ftype3-Lawful, xdr_gid3, xdr_gid3-Lawful,
  xdr_mode3, xdr_mode3-Lawful, xdr_size3, xdr_size3-Lawful, xdr_uid3, xdr_uid3-Lawful, xdr_uint32,
  xdr_uint32-Lawful, xdr_uint64, xdr_uint64-Lawful,
}

-- `struct specdata3`
pub record Specdata3 : Type 0 where
  pub specdata1 : ℕ
  pub specdata2 : ℕ

pub xdr_specdata3 : (x : Xdr) → Codec Specdata3
xdr_specdata3 x =
    struct (λ v. (v.specdata1, v.specdata2)) (λ p. record { specdata1 = p.0; specdata2 = p.1 })
      (both (xdr_uint32 x) (xdr_uint32 x))

pub xdr_specdata3-Lawful : (x : Xdr) → Lawful (xdr_specdata3 x)
unfolding xdr_specdata3
xdr_specdata3-Lawful x =
    struct-Lawful (λ v. (v.specdata1, v.specdata2))
      (λ p. record { specdata1 = p.0; specdata2 = p.1 }) (λ v. refl)
      (both-Lawful (xdr_uint32-Lawful x) (xdr_uint32-Lawful x))

-- `struct nfstime3`
pub record Nfstime3 : Type 0 where
  pub seconds : ℕ
  pub nseconds : ℕ

pub xdr_nfstime3 : (x : Xdr) → Codec Nfstime3
xdr_nfstime3 x =
    struct (λ v. (v.seconds, v.nseconds)) (λ p. record { seconds = p.0; nseconds = p.1 })
      (both (xdr_uint32 x) (xdr_uint32 x))

pub xdr_nfstime3-Lawful : (x : Xdr) → Lawful (xdr_nfstime3 x)
unfolding xdr_nfstime3
xdr_nfstime3-Lawful x =
    struct-Lawful (λ v. (v.seconds, v.nseconds)) (λ p. record { seconds = p.0; nseconds = p.1 })
      (λ v. refl) (both-Lawful (xdr_uint32-Lawful x) (xdr_uint32-Lawful x))

-- `struct fattr3`
pub record Fattr3 : Type 0 where
  pub ftype : ℕ
  pub mode : ℕ
  pub nlink : ℕ
  pub uid : ℕ
  pub gid : ℕ
  pub size : ℕ
  pub used : ℕ
  pub rdev : Specdata3
  pub fsid : ℕ
  pub fileid : ℕ
  pub atime : Nfstime3
  pub mtime : Nfstime3
  pub ctime : Nfstime3

fattr3_from_fsid : (x : Xdr) → Codec (ℕ × (ℕ × (Nfstime3 × (Nfstime3 × Nfstime3))))
fattr3_from_fsid x =
    both (xdr_uint64 x)
      (both (xdr_fileid3 x) (both (xdr_nfstime3 x) (both (xdr_nfstime3 x) (xdr_nfstime3 x))))

fattr3_from_fsid-Lawful : (x : Xdr) → Lawful (fattr3_from_fsid x)
unfolding fattr3_from_fsid
fattr3_from_fsid-Lawful x = both-Lawful (xdr_uint64-Lawful x) (
    both-Lawful (xdr_fileid3-Lawful x) (
      both-Lawful (xdr_nfstime3-Lawful x)
        (both-Lawful (xdr_nfstime3-Lawful x) (xdr_nfstime3-Lawful x))))

fattr3_from_gid :
    (x : Xdr) → Codec (ℕ × (ℕ × (ℕ × (Specdata3 × (ℕ × (ℕ × (Nfstime3 × (Nfstime3 × Nfstime3))))))))
fattr3_from_gid x =
    both (xdr_gid3 x)
      (both (xdr_size3 x) (both (xdr_size3 x) (both (xdr_specdata3 x) (fattr3_from_fsid x))))

fattr3_from_gid-Lawful : (x : Xdr) → Lawful (fattr3_from_gid x)
unfolding fattr3_from_gid
fattr3_from_gid-Lawful x = both-Lawful (xdr_gid3-Lawful x) (
    both-Lawful (xdr_size3-Lawful x) (
      both-Lawful (xdr_size3-Lawful x)
        (both-Lawful (xdr_specdata3-Lawful x) (fattr3_from_fsid-Lawful x))))

pub xdr_fattr3 : (x : Xdr) → Codec Fattr3
xdr_fattr3 x =
    struct
      (λ v. (
        v.ftype,
        (
          v.mode,
          (
            v.nlink,
            (
              v.uid,
              (
                v.gid,
                (v.size, (v.used, (v.rdev, (v.fsid, (v.fileid, (v.atime, (v.mtime, v.ctime))))))),
              ),
            ),
          ),
        ),
      ))
      (λ p. record {
        ftype = p.0;
        mode = p.1.0;
        nlink = p.1.1.0;
        uid = p.1.1.1.0;
        gid = p.1.1.1.1.0;
        size = p.1.1.1.1.1.0;
        used = p.1.1.1.1.1.1.0;
        rdev = p.1.1.1.1.1.1.1.0;
        fsid = p.1.1.1.1.1.1.1.1.0;
        fileid = p.1.1.1.1.1.1.1.1.1.0;
        atime = p.1.1.1.1.1.1.1.1.1.1.0;
        mtime = p.1.1.1.1.1.1.1.1.1.1.1.0;
        ctime = p.1.1.1.1.1.1.1.1.1.1.1.1;
      })
      (both (xdr_ftype3 x)
        (both (xdr_mode3 x) (both (xdr_uint32 x) (both (xdr_uid3 x) (fattr3_from_gid x)))))

pub xdr_fattr3-Lawful : (x : Xdr) → Lawful (xdr_fattr3 x)
unfolding xdr_fattr3
xdr_fattr3-Lawful x =
    struct-Lawful
      (λ v. (
        v.ftype,
        (
          v.mode,
          (
            v.nlink,
            (
              v.uid,
              (
                v.gid,
                (v.size, (v.used, (v.rdev, (v.fsid, (v.fileid, (v.atime, (v.mtime, v.ctime))))))),
              ),
            ),
          ),
        ),
      ))
      (λ p. record {
        ftype = p.0;
        mode = p.1.0;
        nlink = p.1.1.0;
        uid = p.1.1.1.0;
        gid = p.1.1.1.1.0;
        size = p.1.1.1.1.1.0;
        used = p.1.1.1.1.1.1.0;
        rdev = p.1.1.1.1.1.1.1.0;
        fsid = p.1.1.1.1.1.1.1.1.0;
        fileid = p.1.1.1.1.1.1.1.1.1.0;
        atime = p.1.1.1.1.1.1.1.1.1.1.0;
        mtime = p.1.1.1.1.1.1.1.1.1.1.1.0;
        ctime = p.1.1.1.1.1.1.1.1.1.1.1.1;
      })
      (λ v. refl)
      (both-Lawful (xdr_ftype3-Lawful x) (
        both-Lawful (xdr_mode3-Lawful x) (
          both-Lawful (xdr_uint32-Lawful x)
            (both-Lawful (xdr_uid3-Lawful x) (fattr3_from_gid-Lawful x)))))

pub xdr_post_op_attr : (x : Xdr) → Codec (Option Fattr3)
xdr_post_op_attr x = follows x (xdr_fattr3 x)

pub xdr_post_op_attr-Lawful : (x : Xdr) → Lawful (xdr_post_op_attr x)
unfolding xdr_post_op_attr
xdr_post_op_attr-Lawful x = follows-Lawful x (xdr_fattr3-Lawful x)

-- `struct wcc_attr`
pub record WccAttr : Type 0 where
  pub size : ℕ
  pub mtime : Nfstime3
  pub ctime : Nfstime3

xdr_wcc_attr : (x : Xdr) → Codec WccAttr
xdr_wcc_attr x =
    struct (λ v. (v.size, (v.mtime, v.ctime)))
      (λ p. record { size = p.0; mtime = p.1.0; ctime = p.1.1 })
      (both (xdr_size3 x) (both (xdr_nfstime3 x) (xdr_nfstime3 x)))

xdr_wcc_attr-Lawful : (x : Xdr) → Lawful (xdr_wcc_attr x)
unfolding xdr_wcc_attr
xdr_wcc_attr-Lawful x =
    struct-Lawful (λ v. (v.size, (v.mtime, v.ctime)))
      (λ p. record { size = p.0; mtime = p.1.0; ctime = p.1.1 }) (λ v. refl)
      (both-Lawful (xdr_size3-Lawful x)
        (both-Lawful (xdr_nfstime3-Lawful x) (xdr_nfstime3-Lawful x)))

xdr_pre_op_attr : (x : Xdr) → Codec (Option WccAttr)
xdr_pre_op_attr x = follows x (xdr_wcc_attr x)

xdr_pre_op_attr-Lawful : (x : Xdr) → Lawful (xdr_pre_op_attr x)
unfolding xdr_pre_op_attr
xdr_pre_op_attr-Lawful x = follows-Lawful x (xdr_wcc_attr-Lawful x)

-- `struct wcc_data`
pub record WccData : Type 0 where
  pub before : Option WccAttr
  pub after : Option Fattr3

pub xdr_wcc_data : (x : Xdr) → Codec WccData
xdr_wcc_data x =
    struct (λ v. (v.before, v.after)) (λ p. record { before = p.0; after = p.1 })
      (both (xdr_pre_op_attr x) (xdr_post_op_attr x))

pub xdr_wcc_data-Lawful : (x : Xdr) → Lawful (xdr_wcc_data x)
unfolding xdr_wcc_data
xdr_wcc_data-Lawful x =
    struct-Lawful (λ v. (v.before, v.after)) (λ p. record { before = p.0; after = p.1 }) (λ v. refl)
      (both-Lawful (xdr_pre_op_attr-Lawful x) (xdr_post_op_attr-Lawful x))
