-- ===== src/Xdr/Listings.antt =====
-- src/xdr.c: READDIR.
use nfsrods.Prelude.{ℕ, refl, Bool, List, Option}
use nfsrods.Xdr.Codec.{Codec, Lawful, both, struct}
use nfsrods.Xdr.Codec.Laws.{both-Lawful, struct-Lawful}
use nfsrods.Xdr.Codec.Library.{Xdr}
use nfsrods.Xdr.Codec.Unions.{Res, res, res-Lawful}
use nfsrods.Xdr.Codec.Chains.{chain, chain-Lawful, chained, chained-Lawful}
use nfsrods.Readdir.Page.{Entry3}
use nfsrods.Xdr.Scalars.{
  bool, bool-Lawful, xdr_cookie3, xdr_cookie3-Lawful, xdr_cookieverf3, xdr_cookieverf3-Lawful,
  xdr_count3, xdr_count3-Lawful, xdr_fileid3, xdr_fileid3-Lawful, xdr_filename3,
  xdr_filename3-Lawful, xdr_nfs_fh3, xdr_nfs_fh3-Lawful,
}
use nfsrods.Xdr.Attr.{Fattr3, xdr_post_op_attr, xdr_post_op_attr-Lawful}

-- `struct READDIR3args`
pub record Readdir3args : Type 0 where
  pub dir : List ℕ
  pub cookie : ℕ
  pub cookieverf : List ℕ
  pub count : ℕ

xdr_readdir3args : (x : Xdr) → Codec Readdir3args
xdr_readdir3args x =
    struct (λ v. (v.dir, (v.cookie, (v.cookieverf, v.count))))
      (λ p. record { dir = p.0; cookie = p.1.0; cookieverf = p.1.1.0; count = p.1.1.1 })
      (both (xdr_nfs_fh3 x) (both (xdr_cookie3 x) (both (xdr_cookieverf3 x) (xdr_count3 x))))

xdr_readdir3args-Lawful : (x : Xdr) → Lawful (xdr_readdir3args x)
unfolding xdr_readdir3args
xdr_readdir3args-Lawful x =
    struct-Lawful (λ v. (v.dir, (v.cookie, (v.cookieverf, v.count))))
      (λ p. record { dir = p.0; cookie = p.1.0; cookieverf = p.1.1.0; count = p.1.1.1 }) (λ v. refl)
      (both-Lawful (xdr_nfs_fh3-Lawful x) (
        both-Lawful (xdr_cookie3-Lawful x)
          (both-Lawful (xdr_cookieverf3-Lawful x) (xdr_count3-Lawful x))))

-- `nextentry` is the list of the entries behind the first.
xdr_entry3 : (x : Xdr) (depth : ℕ) → Codec (Entry3 × List Entry3)
xdr_entry3 x depth = chain x depth (
    struct (λ v. (v.fileid, (v.name, v.cookie)))
      (λ p. record { fileid = p.0; name = p.1.0; cookie = p.1.1 })
      (both (xdr_fileid3 x) (both (xdr_filename3 x) (xdr_cookie3 x))))

xdr_entry3-Lawful : (x : Xdr) (depth : ℕ) → Lawful (xdr_entry3 x depth)
unfolding xdr_entry3
xdr_entry3-Lawful x depth = chain-Lawful x depth (
    struct-Lawful (λ v. (v.fileid, (v.name, v.cookie)))
      (λ p. record { fileid = p.0; name = p.1.0; cookie = p.1.1 }) (λ v. refl)
      (both-Lawful (xdr_fileid3-Lawful x)
        (both-Lawful (xdr_filename3-Lawful x) (xdr_cookie3-Lawful x))))

-- `struct dirlist3`: the chain of `entries` as a list.
pub record Dirlist3 : Type 0 where
  pub entries : List Entry3
  pub eof : Bool

xdr_dirlist3 : (x : Xdr) (depth : ℕ) → Codec Dirlist3
xdr_dirlist3 x depth =
    struct (λ v. (v.entries, v.eof)) (λ p. record { entries = p.0; eof = p.1 })
      (both (chained x (xdr_entry3 x depth)) (bool x))

xdr_dirlist3-Lawful : (x : Xdr) (depth : ℕ) → Lawful (xdr_dirlist3 x depth)
unfolding xdr_dirlist3
xdr_dirlist3-Lawful x depth =
    struct-Lawful (λ v. (v.entries, v.eof)) (λ p. record { entries = p.0; eof = p.1 }) (λ v. refl)
      (both-Lawful (chained-Lawful x (xdr_entry3-Lawful x depth)) (bool-Lawful x))

-- `struct READDIR3resok`
pub record Readdir3resok : Type 0 where
  pub dir_attributes : Option Fattr3
  pub cookieverf : List ℕ
  pub reply : Dirlist3

xdr_readdir3resok : (x : Xdr) (depth : ℕ) → Codec Readdir3resok
xdr_readdir3resok x depth =
    struct (λ v. (v.dir_attributes, (v.cookieverf, v.reply)))
      (λ p. record { dir_attributes = p.0; cookieverf = p.1.0; reply = p.1.1 })
      (both (xdr_post_op_attr x) (both (xdr_cookieverf3 x) (xdr_dirlist3 x depth)))

xdr_readdir3resok-Lawful : (x : Xdr) (depth : ℕ) → Lawful (xdr_readdir3resok x depth)
unfolding xdr_readdir3resok
xdr_readdir3resok-Lawful x depth =
    struct-Lawful (λ v. (v.dir_attributes, (v.cookieverf, v.reply)))
      (λ p. record { dir_attributes = p.0; cookieverf = p.1.0; reply = p.1.1 }) (λ v. refl)
      (both-Lawful (xdr_post_op_attr-Lawful x)
        (both-Lawful (xdr_cookieverf3-Lawful x) (xdr_dirlist3-Lawful x depth)))

-- `struct READDIR3resfail`
pub record Readdir3resfail : Type 0 where
  pub dir_attributes : Option Fattr3

xdr_readdir3resfail : (x : Xdr) → Codec Readdir3resfail
xdr_readdir3resfail x =
    struct (λ v. v.dir_attributes) (λ p. record { dir_attributes = p }) (xdr_post_op_attr x)

xdr_readdir3resfail-Lawful : (x : Xdr) → Lawful (xdr_readdir3resfail x)
unfolding xdr_readdir3resfail
xdr_readdir3resfail-Lawful x =
    struct-Lawful (λ v. v.dir_attributes) (λ p. record { dir_attributes = p }) (λ v. refl)
      (xdr_post_op_attr-Lawful x)

-- `status`, and `resok` or `resfail`.
xdr_readdir3res : (x : Xdr) (depth : ℕ) → Codec (Res Readdir3resok Readdir3resfail)
xdr_readdir3res x depth = res x (xdr_readdir3resok x depth) (xdr_readdir3resfail x)

xdr_readdir3res-Lawful : (x : Xdr) (depth : ℕ) → Lawful (xdr_readdir3res x depth)
unfolding xdr_readdir3res
xdr_readdir3res-Lawful x depth =
    res-Lawful x (xdr_readdir3resok-Lawful x depth) (xdr_readdir3resfail-Lawful x)
