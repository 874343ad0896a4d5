-- ===== src/Xdr/Pluses.antt =====
-- src/xdr.c: READDIRPLUS.
use nfsrods.Prelude.{ℕ, refl, Bool, List, Option}
use nfsrods.Xdr.Codec.{Codec, Lawful, both, struct}
use nfsrods.Xdr.Codec.Laws.{both-Lawful, struct-Lawful}
use nfsrods.Xdr.Codec.Library.{Xdr}
use nfsrods.Xdr.Codec.Unions.{Res, res, res-Lawful}
use nfsrods.Xdr.Codec.Chains.{chain, chain-Lawful, chained, chained-Lawful}
use nfsrods.Xdr.Scalars.{
  bool, bool-Lawful, xdr_cookie3, xdr_cookie3-Lawful, xdr_cookieverf3, xdr_cookieverf3-Lawful,
  xdr_count3, xdr_count3-Lawful, xdr_fileid3, xdr_fileid3-Lawful, xdr_filename3,
  xdr_filename3-Lawful, xdr_nfs_fh3, xdr_nfs_fh3-Lawful,
}
use nfsrods.Xdr.Attr.{Fattr3, xdr_post_op_attr, xdr_post_op_attr-Lawful}
use nfsrods.Xdr.Lookups.{xdr_post_op_fh3, xdr_post_op_fh3-Lawful}

-- `struct READDIRPLUS3args`
pub record Readdirplus3args : Type 0 where
  pub dir : List ℕ
  pub cookie : ℕ
  pub cookieverf : List ℕ
  pub dircount : ℕ
  pub maxcount : ℕ

xdr_readdirplus3args : (x : Xdr) → Codec Readdirplus3args
xdr_readdirplus3args x =
    struct (λ v. (v.dir, (v.cookie, (v.cookieverf, (v.dircount, v.maxcount)))))
      (λ p. record {
        dir = p.0;
        cookie = p.1.0;
        cookieverf = p.1.1.0;
        dircount = p.1.1.1.0;
        maxcount = p.1.1.1.1;
      })
      (both (xdr_nfs_fh3 x)
        (both (xdr_cookie3 x) (both (xdr_cookieverf3 x) (both (xdr_count3 x) (xdr_count3 x)))))

xdr_readdirplus3args-Lawful : (x : Xdr) → Lawful (xdr_readdirplus3args x)
unfolding xdr_readdirplus3args
xdr_readdirplus3args-Lawful x =
    struct-Lawful (λ v. (v.dir, (v.cookie, (v.cookieverf, (v.dircount, v.maxcount)))))
      (λ p. record {
        dir = p.0;
        cookie = p.1.0;
        cookieverf = p.1.1.0;
        dircount = p.1.1.1.0;
        maxcount = p.1.1.1.1;
      })
      (λ v. refl)
      (both-Lawful (xdr_nfs_fh3-Lawful x) (
        both-Lawful (xdr_cookie3-Lawful x) (
          both-Lawful (xdr_cookieverf3-Lawful x)
            (both-Lawful (xdr_count3-Lawful x) (xdr_count3-Lawful x)))))

-- `struct entryplus3`, without `nextentry`.
pub record Entryplus3 : Type 0 where
  pub fileid : ℕ
  pub name : List ℕ
  pub cookie : ℕ
  pub name_attributes : Option Fattr3
  pub name_handle : Option (List ℕ)

xdr_entryplus3 : (x : Xdr) (depth : ℕ) → Codec (Entryplus3 × List Entryplus3)
xdr_entryplus3 x depth = chain x depth (
    struct (λ v. (v.fileid, (v.name, (v.cookie, (v.name_attributes, v.name_handle)))))
      (λ p. record {
        fileid = p.0;
        name = p.1.0;
        cookie = p.1.1.0;
        name_attributes = p.1.1.1.0;
        name_handle = p.1.1.1.1;
      })
      (both (xdr_fileid3 x) (
        both (xdr_filename3 x)
          (both (xdr_cookie3 x) (both (xdr_post_op_attr x) (xdr_post_op_fh3 x))))))

xdr_entryplus3-Lawful : (x : Xdr) (depth : ℕ) → Lawful (xdr_entryplus3 x depth)
unfolding xdr_entryplus3
xdr_entryplus3-Lawful x depth = chain-Lawful x depth (
    struct-Lawful (λ v. (v.fileid, (v.name, (v.cookie, (v.name_attributes, v.name_handle)))))
      (λ p. record {
        fileid = p.0;
        name = p.1.0;
        cookie = p.1.1.0;
        name_attributes = p.1.1.1.0;
        name_handle = p.1.1.1.1;
      })
      (λ v. refl)
      (both-Lawful (xdr_fileid3-Lawful x) (
        both-Lawful (xdr_filename3-Lawful x) (
          both-Lawful (xdr_cookie3-Lawful x)
            (both-Lawful (xdr_post_op_attr-Lawful x) (xdr_post_op_fh3-Lawful x))))))

-- `struct dirlistplus3`: the chain of `entries` as a list.
pub record Dirlistplus3 : Type 0 where
  pub entries : List Entryplus3
  pub eof : Bool

xdr_dirlistplus3 : (x : Xdr) (depth : ℕ) → Codec Dirlistplus3
xdr_dirlistplus3 x depth =
    struct (λ v. (v.entries, v.eof)) (λ p. record { entries = p.0; eof = p.1 })
      (both (chained x (xdr_entryplus3 x depth)) (bool x))

xdr_dirlistplus3-Lawful : (x : Xdr) (depth : ℕ) → Lawful (xdr_dirlistplus3 x depth)
unfolding xdr_dirlistplus3
xdr_dirlistplus3-Lawful x depth =
    struct-Lawful (λ v. (v.entries, v.eof)) (λ p. record { entries = p.0; eof = p.1 }) (λ v. refl)
      (both-Lawful (chained-Lawful x (xdr_entryplus3-Lawful x depth)) (bool-Lawful x))

-- `struct READDIRPLUS3resok`
pub record Readdirplus3resok : Type 0 where
  pub dir_attributes : Option Fattr3
  pub cookieverf : List ℕ
  pub reply : Dirlistplus3

xdr_readdirplus3resok : (x : Xdr) (depth : ℕ) → Codec Readdirplus3resok
xdr_readdirplus3resok x depth =
    struct (λ v. (v.dir_attributes, (v.cookieverf, v.reply)))
      (λ p. record { dir_attributes = p.0; cookieverf = p.1.0; reply = p.1.1 })
      (both (xdr_post_op_attr x) (both (xdr_cookieverf3 x) (xdr_dirlistplus3 x depth)))

xdr_readdirplus3resok-Lawful : (x : Xdr) (depth : ℕ) → Lawful (xdr_readdirplus3resok x depth)
unfolding xdr_readdirplus3resok
xdr_readdirplus3resok-Lawful x depth =
    struct-Lawful (λ v. (v.dir_attributes, (v.cookieverf, v.reply)))
      (λ p. record { dir_attributes = p.0; cookieverf = p.1.0; reply = p.1.1 }) (λ v. refl)
      (both-Lawful (xdr_post_op_attr-Lawful x)
        (both-Lawful (xdr_cookieverf3-Lawful x) (xdr_dirlistplus3-Lawful x depth)))

-- `struct READDIRPLUS3resfail`
pub record Readdirplus3resfail : Type 0 where
  pub dir_attributes : Option Fattr3

xdr_readdirplus3resfail : (x : Xdr) → Codec Readdirplus3resfail
xdr_readdirplus3resfail x =
    struct (λ v. v.dir_attributes) (λ p. record { dir_attributes = p }) (xdr_post_op_attr x)

xdr_readdirplus3resfail-Lawful : (x : Xdr) → Lawful (xdr_readdirplus3resfail x)
unfolding xdr_readdirplus3resfail
xdr_readdirplus3resfail-Lawful x =
    struct-Lawful (λ v. v.dir_attributes) (λ p. record { dir_attributes = p }) (λ v. refl)
      (xdr_post_op_attr-Lawful x)

-- `status`, and `resok` or `resfail`.
xdr_readdirplus3res : (x : Xdr) (depth : ℕ) → Codec (Res Readdirplus3resok Readdirplus3resfail)
xdr_readdirplus3res x depth = res x (xdr_readdirplus3resok x depth) (xdr_readdirplus3resfail x)

xdr_readdirplus3res-Lawful : (x : Xdr) (depth : ℕ) → Lawful (xdr_readdirplus3res x depth)
unfolding xdr_readdirplus3res
xdr_readdirplus3res-Lawful x depth =
    res-Lawful x (xdr_readdirplus3resok-Lawful x depth) (xdr_readdirplus3resfail-Lawful x)
