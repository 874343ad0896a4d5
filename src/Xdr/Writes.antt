-- ===== src/Xdr/Writes.antt =====
-- src/xdr.c: WRITE and COMMIT.
use nfsrods.Prelude.{ℕ, refl, List, arith}
use nfsrods.Xdr.Codec.{Codec, Lawful, both, struct}
use nfsrods.Xdr.Codec.Laws.{both-Lawful, struct-Lawful}
use nfsrods.Xdr.Codec.Library.{Xdr}
use nfsrods.Xdr.Codec.Unions.{Res, res, res-Lawful}
use nfsrods.Xdr.Scalars.{
  bytes, bytes-Lawful, unbounded, xdr_count3, xdr_count3-Lawful, xdr_nfs_fh3, xdr_nfs_fh3-Lawful,
  xdr_offset3, xdr_offset3-Lawful, xdr_stable_how, xdr_stable_how-Lawful, xdr_writeverf3,
  xdr_writeverf3-Lawful,
}
use nfsrods.Xdr.Attr.{WccData, xdr_wcc_data, xdr_wcc_data-Lawful}

-- `struct WRITE3args`
pub record Write3args : Type 0 where
  pub file : List ℕ
  pub offset : ℕ
  pub count : ℕ
  pub stable : ℕ
  pub data_val : List ℕ

unfoldable pub xdr_write3args : (x : Xdr) → Codec Write3args
xdr_write3args x =
    struct (λ v. (v.file, (v.offset, (v.count, (v.stable, v.data_val)))))
      (λ p. record {
        file = p.0;
        offset = p.1.0;
        count = p.1.1.0;
        stable = p.1.1.1.0;
        data_val = p.1.1.1.1;
      })
      (both (xdr_nfs_fh3 x)
        (both (xdr_offset3 x) (both (xdr_count3 x) (both (xdr_stable_how x) (bytes x unbounded)))))

pub xdr_write3args-Lawful : (x : Xdr) → Lawful (xdr_write3args x)
unfolding xdr_write3args
xdr_write3args-Lawful x =
    struct-Lawful (λ v. (v.file, (v.offset, (v.count, (v.stable, v.data_val)))))
      (λ p. record {
        file = p.0;
        offset = p.1.0;
        count = p.1.1.0;
        stable = p.1.1.1.0;
        data_val = p.1.1.1.1;
      })
      (λ v. refl)
      (both-Lawful (xdr_nfs_fh3-Lawful x) (
        both-Lawful (xdr_offset3-Lawful x) (
          both-Lawful (xdr_count3-Lawful x)
            (both-Lawful (xdr_stable_how-Lawful x) (bytes-Lawful x unbounded (omega arith))))))

-- `struct WRITE3resok`
pub record Write3resok : Type 0 where
  pub file_wcc : WccData
  pub count : ℕ
  pub committed : ℕ
  pub verf : List ℕ

xdr_write3resok : (x : Xdr) → Codec Write3resok
xdr_write3resok x =
    struct (λ v. (v.file_wcc, (v.count, (v.committed, v.verf))))
      (λ p. record { file_wcc = p.0; count = p.1.0; committed = p.1.1.0; verf = p.1.1.1 })
      (both (xdr_wcc_data x) (both (xdr_count3 x) (both (xdr_stable_how x) (xdr_writeverf3 x))))

xdr_write3resok-Lawful : (x : Xdr) → Lawful (xdr_write3resok x)
unfolding xdr_write3resok
xdr_write3resok-Lawful x =
    struct-Lawful (λ v. (v.file_wcc, (v.count, (v.committed, v.verf))))
      (λ p. record { file_wcc = p.0; count = p.1.0; committed = p.1.1.0; verf = p.1.1.1 })
      (λ v. refl)
      (both-Lawful (xdr_wcc_data-Lawful x) (
        both-Lawful (xdr_count3-Lawful x)
          (both-Lawful (xdr_stable_how-Lawful x) (xdr_writeverf3-Lawful x))))

-- `struct WRITE3resfail`
pub record Write3resfail : Type 0 where
  pub file_wcc : WccData

xdr_write3resfail : (x : Xdr) → Codec Write3resfail
xdr_write3resfail x = struct (λ v. v.file_wcc) (λ p. record { file_wcc = p }) (xdr_wcc_data x)

xdr_write3resfail-Lawful : (x : Xdr) → Lawful (xdr_write3resfail x)
unfolding xdr_write3resfail
xdr_write3resfail-Lawful x =
    struct-Lawful (λ v. v.file_wcc) (λ p. record { file_wcc = p }) (λ v. refl)
      (xdr_wcc_data-Lawful x)

-- `status`, and `resok` or `resfail`.
xdr_write3res : (x : Xdr) → Codec (Res Write3resok Write3resfail)
xdr_write3res x = res x (xdr_write3resok x) (xdr_write3resfail x)

xdr_write3res-Lawful : (x : Xdr) → Lawful (xdr_write3res x)
unfolding xdr_write3res
xdr_write3res-Lawful x = res-Lawful x (xdr_write3resok-Lawful x) (xdr_write3resfail-Lawful x)

-- `struct COMMIT3args`
pub record Commit3args : Type 0 where
  pub file : List ℕ
  pub offset : ℕ
  pub count : ℕ

xdr_commit3args : (x : Xdr) → Codec Commit3args
xdr_commit3args x =
    struct (λ v. (v.file, (v.offset, v.count)))
      (λ p. record { file = p.0; offset = p.1.0; count = p.1.1 })
      (both (xdr_nfs_fh3 x) (both (xdr_offset3 x) (xdr_count3 x)))

xdr_commit3args-Lawful : (x : Xdr) → Lawful (xdr_commit3args x)
unfolding xdr_commit3args
xdr_commit3args-Lawful x =
    struct-Lawful (λ v. (v.file, (v.offset, v.count)))
      (λ p. record { file = p.0; offset = p.1.0; count = p.1.1 }) (λ v. refl)
      (both-Lawful (xdr_nfs_fh3-Lawful x)
        (both-Lawful (xdr_offset3-Lawful x) (xdr_count3-Lawful x)))

-- `struct COMMIT3resok`
pub record Commit3resok : Type 0 where
  pub file_wcc : WccData
  pub verf : List ℕ

xdr_commit3resok : (x : Xdr) → Codec Commit3resok
xdr_commit3resok x =
    struct (λ v. (v.file_wcc, v.verf)) (λ p. record { file_wcc = p.0; verf = p.1 })
      (both (xdr_wcc_data x) (xdr_writeverf3 x))

xdr_commit3resok-Lawful : (x : Xdr) → Lawful (xdr_commit3resok x)
unfolding xdr_commit3resok
xdr_commit3resok-Lawful x =
    struct-Lawful (λ v. (v.file_wcc, v.verf)) (λ p. record { file_wcc = p.0; verf = p.1 })
      (λ v. refl) (both-Lawful (xdr_wcc_data-Lawful x) (xdr_writeverf3-Lawful x))

-- `struct COMMIT3resfail`
pub record Commit3resfail : Type 0 where
  pub file_wcc : WccData

xdr_commit3resfail : (x : Xdr) → Codec Commit3resfail
xdr_commit3resfail x = struct (λ v. v.file_wcc) (λ p. record { file_wcc = p }) (xdr_wcc_data x)

xdr_commit3resfail-Lawful : (x : Xdr) → Lawful (xdr_commit3resfail x)
unfolding xdr_commit3resfail
xdr_commit3resfail-Lawful x =
    struct-Lawful (λ v. v.file_wcc) (λ p. record { file_wcc = p }) (λ v. refl)
      (xdr_wcc_data-Lawful x)

-- `status`, and `resok` or `resfail`.
xdr_commit3res : (x : Xdr) → Codec (Res Commit3resok Commit3resfail)
xdr_commit3res x = res x (xdr_commit3resok x) (xdr_commit3resfail x)

xdr_commit3res-Lawful : (x : Xdr) → Lawful (xdr_commit3res x)
unfolding xdr_commit3res
xdr_commit3res-Lawful x = res-Lawful x (xdr_commit3resok-Lawful x) (xdr_commit3resfail-Lawful x)
