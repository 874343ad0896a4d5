-- ===== src/Xdr/Info.antt =====
-- src/xdr.c: FSSTAT, FSINFO and PATHCONF.
use nfsrods.Prelude.{ℕ, refl, Bool, List, Option}
use nfsrods.Xdr.Codec.{Codec, Lawful, both, struct}
use nfsrods.Xdr.Codec.Laws.{both-Lawful, struct-Lawful}
use nfsrods.Xdr.Codec.Library.{Xdr}
use nfsrods.Xdr.Codec.Unions.{Res, res, res-Lawful}
use nfsrods.Xdr.Scalars.{
  bool, bool-Lawful, xdr_nfs_fh3, xdr_nfs_fh3-Lawful, xdr_size3, xdr_size3-Lawful, xdr_uint32,
  xdr_uint32-Lawful,
}
use nfsrods.Xdr.Attr.{
  Fattr3, Nfstime3, xdr_nfstime3, xdr_nfstime3-Lawful, xdr_post_op_attr, xdr_post_op_attr-Lawful,
}

-- `struct FSSTAT3args`
pub record Fsstat3args : Type 0 where
  pub fsroot : List ℕ

xdr_fsstat3args : (x : Xdr) → Codec Fsstat3args
xdr_fsstat3args x = struct (λ v. v.fsroot) (λ p. record { fsroot = p }) (xdr_nfs_fh3 x)

xdr_fsstat3args-Lawful : (x : Xdr) → Lawful (xdr_fsstat3args x)
unfolding xdr_fsstat3args
xdr_fsstat3args-Lawful x =
    struct-Lawful (λ v. v.fsroot) (λ p. record { fsroot = p }) (λ v. refl) (xdr_nfs_fh3-Lawful x)

-- `struct FSSTAT3resok`
pub record Fsstat3resok : Type 0 where
  pub obj_attributes : Option Fattr3
  pub tbytes : ℕ
  pub fbytes : ℕ
  pub abytes : ℕ
  pub tfiles : ℕ
  pub ffiles : ℕ
  pub afiles : ℕ
  pub invarsec : ℕ

xdr_fsstat3resok : (x : Xdr) → Codec Fsstat3resok
xdr_fsstat3resok x =
    struct
      (λ v. (
        v.obj_attributes,
        (v.tbytes, (v.fbytes, (v.abytes, (v.tfiles, (v.ffiles, (v.afiles, v.invarsec)))))),
      ))
      (λ p. record {
        obj_attributes = p.0;
        tbytes = p.1.0;
        fbytes = p.1.1.0;
        abytes = p.1.1.1.0;
        tfiles = p.1.1.1.1.0;
        ffiles = p.1.1.1.1.1.0;
        afiles = p.1.1.1.1.1.1.0;
        invarsec = p.1.1.1.1.1.1.1;
      })
      (both (xdr_post_op_attr x) (
        both (xdr_size3 x) (
          both (xdr_size3 x) (
            both (xdr_size3 x)
              (both (xdr_size3 x) (both (xdr_size3 x) (both (xdr_size3 x) (xdr_uint32 x))))))))

xdr_fsstat3resok-Lawful : (x : Xdr) → Lawful (xdr_fsstat3resok x)
unfolding xdr_fsstat3resok
xdr_fsstat3resok-Lawful x =
    struct-Lawful
      (λ v. (
        v.obj_attributes,
        (v.tbytes, (v.fbytes, (v.abytes, (v.tfiles, (v.ffiles, (v.afiles, v.invarsec)))))),
      ))
      (λ p. record {
        obj_attributes = p.0;
        tbytes = p.1.0;
        fbytes = p.1.1.0;
        abytes = p.1.1.1.0;
        tfiles = p.1.1.1.1.0;
        ffiles = p.1.1.1.1.1.0;
        afiles = p.1.1.1.1.1.1.0;
        invarsec = p.1.1.1.1.1.1.1;
      })
      (λ v. refl)
      (both-Lawful (xdr_post_op_attr-Lawful x) (
        both-Lawful (xdr_size3-Lawful x) (
          both-Lawful (xdr_size3-Lawful x) (
            both-Lawful (xdr_size3-Lawful x) (
              both-Lawful (xdr_size3-Lawful x) (
                both-Lawful (xdr_size3-Lawful x)
                  (both-Lawful (xdr_size3-Lawful x) (xdr_uint32-Lawful x))))))))

-- `struct FSSTAT3resfail`
pub record Fsstat3resfail : Type 0 where
  pub obj_attributes : Option Fattr3

xdr_fsstat3resfail : (x : Xdr) → Codec Fsstat3resfail
xdr_fsstat3resfail x =
    struct (λ v. v.obj_attributes) (λ p. record { obj_attributes = p }) (xdr_post_op_attr x)

xdr_fsstat3resfail-Lawful : (x : Xdr) → Lawful (xdr_fsstat3resfail x)
unfolding xdr_fsstat3resfail
xdr_fsstat3resfail-Lawful x =
    struct-Lawful (λ v. v.obj_attributes) (λ p. record { obj_attributes = p }) (λ v. refl)
      (xdr_post_op_attr-Lawful x)

-- `status`, and `resok` or `resfail`.
xdr_fsstat3res : (x : Xdr) → Codec (Res Fsstat3resok Fsstat3resfail)
xdr_fsstat3res x = res x (xdr_fsstat3resok x) (xdr_fsstat3resfail x)

xdr_fsstat3res-Lawful : (x : Xdr) → Lawful (xdr_fsstat3res x)
unfolding xdr_fsstat3res
xdr_fsstat3res-Lawful x = res-Lawful x (xdr_fsstat3resok-Lawful x) (xdr_fsstat3resfail-Lawful x)

-- `struct FSINFO3args`
pub record Fsinfo3args : Type 0 where
  pub fsroot : List ℕ

xdr_fsinfo3args : (x : Xdr) → Codec Fsinfo3args
xdr_fsinfo3args x = struct (λ v. v.fsroot) (λ p. record { fsroot = p }) (xdr_nfs_fh3 x)

xdr_fsinfo3args-Lawful : (x : Xdr) → Lawful (xdr_fsinfo3args x)
unfolding xdr_fsinfo3args
xdr_fsinfo3args-Lawful x =
    struct-Lawful (λ v. v.fsroot) (λ p. record { fsroot = p }) (λ v. refl) (xdr_nfs_fh3-Lawful x)

-- `struct FSINFO3resok`
pub record Fsinfo3resok : Type 0 where
  pub obj_attributes : Option Fattr3
  pub rtmax : ℕ
  pub rtpref : ℕ
  pub rtmult : ℕ
  pub wtmax : ℕ
  pub wtpref : ℕ
  pub wtmult : ℕ
  pub dtpref : ℕ
  pub maxfilesize : ℕ
  pub time_delta : Nfstime3
  pub properties : ℕ

fsinfo3resok_from_time_delta : (x : Xdr) → Codec (Nfstime3 × ℕ)
fsinfo3resok_from_time_delta x = both (xdr_nfstime3 x) (xdr_uint32 x)

fsinfo3resok_from_time_delta-Lawful : (x : Xdr) → Lawful (fsinfo3resok_from_time_delta x)
unfolding fsinfo3resok_from_time_delta
fsinfo3resok_from_time_delta-Lawful x = both-Lawful (xdr_nfstime3-Lawful x) (xdr_uint32-Lawful x)

fsinfo3resok_from_wtpref : (x : Xdr) → Codec (ℕ × (ℕ × (ℕ × (ℕ × (Nfstime3 × ℕ)))))
fsinfo3resok_from_wtpref x = both (xdr_uint32 x) (
    both (xdr_uint32 x) (both (xdr_uint32 x) (both (xdr_size3 x) (fsinfo3resok_from_time_delta x))))

fsinfo3resok_from_wtpref-Lawful : (x : Xdr) → Lawful (fsinfo3resok_from_wtpref x)
unfolding fsinfo3resok_from_wtpref
fsinfo3resok_from_wtpref-Lawful x = both-Lawful (xdr_uint32-Lawful x) (
    both-Lawful (xdr_uint32-Lawful x) (
      both-Lawful (xdr_uint32-Lawful x)
        (both-Lawful (xdr_size3-Lawful x) (fsinfo3resok_from_time_delta-Lawful x))))

xdr_fsinfo3resok : (x : Xdr) → Codec Fsinfo3resok
xdr_fsinfo3resok x =
    struct
      (λ v. (
        v.obj_attributes,
        (
          v.rtmax,
          (
            v.rtpref,
            (
              v.rtmult,
              (
                v.wtmax,
                (v.wtpref, (v.wtmult, (v.dtpref, (v.maxfilesize, (v.time_delta, v.properties))))),
              ),
            ),
          ),
        ),
      ))
      (λ p. record {
        obj_attributes = p.0;
        rtmax = p.1.0;
        rtpref = p.1.1.0;
        rtmult = p.1.1.1.0;
        wtmax = p.1.1.1.1.0;
        wtpref = p.1.1.1.1.1.0;
        wtmult = p.1.1.1.1.1.1.0;
        dtpref = p.1.1.1.1.1.1.1.0;
        maxfilesize = p.1.1.1.1.1.1.1.1.0;
        time_delta = p.1.1.1.1.1.1.1.1.1.0;
        properties = p.1.1.1.1.1.1.1.1.1.1;
      })
      (both (xdr_post_op_attr x) (
        both (xdr_uint32 x) (
          both (xdr_uint32 x)
            (both (xdr_uint32 x) (both (xdr_uint32 x) (fsinfo3resok_from_wtpref x))))))

xdr_fsinfo3resok-Lawful : (x : Xdr) → Lawful (xdr_fsinfo3resok x)
unfolding xdr_fsinfo3resok
xdr_fsinfo3resok-Lawful x =
    struct-Lawful
      (λ v. (
        v.obj_attributes,
        (
          v.rtmax,
          (
            v.rtpref,
            (
              v.rtmult,
              (
                v.wtmax,
                (v.wtpref, (v.wtmult, (v.dtpref, (v.maxfilesize, (v.time_delta, v.properties))))),
              ),
            ),
          ),
        ),
      ))
      (λ p. record {
        obj_attributes = p.0;
        rtmax = p.1.0;
        rtpref = p.1.1.0;
        rtmult = p.1.1.1.0;
        wtmax = p.1.1.1.1.0;
        wtpref = p.1.1.1.1.1.0;
        wtmult = p.1.1.1.1.1.1.0;
        dtpref = p.1.1.1.1.1.1.1.0;
        maxfilesize = p.1.1.1.1.1.1.1.1.0;
        time_delta = p.1.1.1.1.1.1.1.1.1.0;
        properties = p.1.1.1.1.1.1.1.1.1.1;
      })
      (λ v. refl)
      (both-Lawful (xdr_post_op_attr-Lawful x) (
        both-Lawful (xdr_uint32-Lawful x) (
          both-Lawful (xdr_uint32-Lawful x) (
            both-Lawful (xdr_uint32-Lawful x)
              (both-Lawful (xdr_uint32-Lawful x) (fsinfo3resok_from_wtpref-Lawful x))))))

-- `struct FSINFO3resfail`
pub record Fsinfo3resfail : Type 0 where
  pub obj_attributes : Option Fattr3

xdr_fsinfo3resfail : (x : Xdr) → Codec Fsinfo3resfail
xdr_fsinfo3resfail x =
    struct (λ v. v.obj_attributes) (λ p. record { obj_attributes = p }) (xdr_post_op_attr x)

xdr_fsinfo3resfail-Lawful : (x : Xdr) → Lawful (xdr_fsinfo3resfail x)
unfolding xdr_fsinfo3resfail
xdr_fsinfo3resfail-Lawful x =
    struct-Lawful (λ v. v.obj_attributes) (λ p. record { obj_attributes = p }) (λ v. refl)
      (xdr_post_op_attr-Lawful x)

-- `status`, and `resok` or `resfail`.
xdr_fsinfo3res : (x : Xdr) → Codec (Res Fsinfo3resok Fsinfo3resfail)
xdr_fsinfo3res x = res x (xdr_fsinfo3resok x) (xdr_fsinfo3resfail x)

xdr_fsinfo3res-Lawful : (x : Xdr) → Lawful (xdr_fsinfo3res x)
unfolding xdr_fsinfo3res
xdr_fsinfo3res-Lawful x = res-Lawful x (xdr_fsinfo3resok-Lawful x) (xdr_fsinfo3resfail-Lawful x)

-- `struct PATHCONF3args`
pub record Pathconf3args : Type 0 where
  pub object : List ℕ

xdr_pathconf3args : (x : Xdr) → Codec Pathconf3args
xdr_pathconf3args x = struct (λ v. v.object) (λ p. record { object = p }) (xdr_nfs_fh3 x)

xdr_pathconf3args-Lawful : (x : Xdr) → Lawful (xdr_pathconf3args x)
unfolding xdr_pathconf3args
xdr_pathconf3args-Lawful x =
    struct-Lawful (λ v. v.object) (λ p. record { object = p }) (λ v. refl) (xdr_nfs_fh3-Lawful x)

-- `struct PATHCONF3resok`
pub record Pathconf3resok : Type 0 where
  pub obj_attributes : Option Fattr3
  pub linkmax : ℕ
  pub name_max : ℕ
  pub no_trunc : Bool
  pub chown_restricted : Bool
  pub case_insensitive : Bool
  pub case_preserving : Bool

xdr_pathconf3resok : (x : Xdr) → Codec Pathconf3resok
xdr_pathconf3resok x =
    struct
      (λ v. (
        v.obj_attributes,
        (
          v.linkmax,
          (v.name_max, (v.no_trunc, (v.chown_restricted, (v.case_insensitive, v.case_preserving)))),
        ),
      ))
      (λ p. record {
        obj_attributes = p.0;
        linkmax = p.1.0;
        name_max = p.1.1.0;
        no_trunc = p.1.1.1.0;
        chown_restricted = p.1.1.1.1.0;
        case_insensitive = p.1.1.1.1.1.0;
        case_preserving = p.1.1.1.1.1.1;
      })
      (both (xdr_post_op_attr x) (
        both (xdr_uint32 x)
          (both (xdr_uint32 x) (both (bool x) (both (bool x) (both (bool x) (bool x)))))))

xdr_pathconf3resok-Lawful : (x : Xdr) → Lawful (xdr_pathconf3resok x)
unfolding xdr_pathconf3resok
xdr_pathconf3resok-Lawful x =
    struct-Lawful
      (λ v. (
        v.obj_attributes,
        (
          v.linkmax,
          (v.name_max, (v.no_trunc, (v.chown_restricted, (v.case_insensitive, v.case_preserving)))),
        ),
      ))
      (λ p. record {
        obj_attributes = p.0;
        linkmax = p.1.0;
        name_max = p.1.1.0;
        no_trunc = p.1.1.1.0;
        chown_restricted = p.1.1.1.1.0;
        case_insensitive = p.1.1.1.1.1.0;
        case_preserving = p.1.1.1.1.1.1;
      })
      (λ v. refl)
      (both-Lawful (xdr_post_op_attr-Lawful x) (
        both-Lawful (xdr_uint32-Lawful x) (
          both-Lawful (xdr_uint32-Lawful x) (
            both-Lawful (bool-Lawful x)
              (both-Lawful (bool-Lawful x) (both-Lawful (bool-Lawful x) (bool-Lawful x)))))))

-- `struct PATHCONF3resfail`
pub record Pathconf3resfail : Type 0 where
  pub obj_attributes : Option Fattr3

xdr_pathconf3resfail : (x : Xdr) → Codec Pathconf3resfail
xdr_pathconf3resfail x =
    struct (λ v. v.obj_attributes) (λ p. record { obj_attributes = p }) (xdr_post_op_attr x)

xdr_pathconf3resfail-Lawful : (x : Xdr) → Lawful (xdr_pathconf3resfail x)
unfolding xdr_pathconf3resfail
xdr_pathconf3resfail-Lawful x =
    struct-Lawful (λ v. v.obj_attributes) (λ p. record { obj_attributes = p }) (λ v. refl)
      (xdr_post_op_attr-Lawful x)

-- `status`, and `resok` or `resfail`.
xdr_pathconf3res : (x : Xdr) → Codec (Res Pathconf3resok Pathconf3resfail)
xdr_pathconf3res x = res x (xdr_pathconf3resok x) (xdr_pathconf3resfail x)

xdr_pathconf3res-Lawful : (x : Xdr) → Lawful (xdr_pathconf3res x)
unfolding xdr_pathconf3res
xdr_pathconf3res-Lawful x =
    res-Lawful x (xdr_pathconf3resok-Lawful x) (xdr_pathconf3resfail-Lawful x)
