-- ===== src/Xdr/Setattrs.antt =====
-- src/xdr.c: the attributes to set, and SETATTR.
use nfsrods.Prelude.{ℕ, ◌≡◌, refl, ◌==◌, if◌then◌else◌, false, List, [], Option, some}
use nfsrods.Xdr.Codec.{Codec, Lawful, both, struct, nothing, both_written, then_read, after_reading}
use nfsrods.Xdr.Codec.Laws.{both-Lawful, struct-Lawful, nothing-Lawful, tagged}
use nfsrods.Xdr.Codec.Library.{Xdr}
use nfsrods.Xdr.Codec.Unions.{Res, follows, follows-Lawful, res, res-Lawful}
use nfsrods.Xdr.Scalars.{
  xdr_gid3, xdr_gid3-Lawful, xdr_mode3, xdr_mode3-Lawful, xdr_nfs_fh3, xdr_nfs_fh3-Lawful,
  xdr_size3, xdr_size3-Lawful, xdr_time_how, xdr_time_how-Lawful, xdr_uid3, xdr_uid3-Lawful,
}
use nfsrods.Xdr.Attr.{
  Nfstime3, WccData, xdr_nfstime3, xdr_nfstime3-Lawful, xdr_wcc_data, xdr_wcc_data-Lawful,
}

xdr_set_mode3 : (x : Xdr) → Codec (Option ℕ)
xdr_set_mode3 x = follows x (xdr_mode3 x)

xdr_set_mode3-Lawful : (x : Xdr) → Lawful (xdr_set_mode3 x)
unfolding xdr_set_mode3
xdr_set_mode3-Lawful x = follows-Lawful x (xdr_mode3-Lawful x)

xdr_set_uid3 : (x : Xdr) → Codec (Option ℕ)
xdr_set_uid3 x = follows x (xdr_uid3 x)

xdr_set_uid3-Lawful : (x : Xdr) → Lawful (xdr_set_uid3 x)
unfolding xdr_set_uid3
xdr_set_uid3-Lawful x = follows-Lawful x (xdr_uid3-Lawful x)

xdr_set_gid3 : (x : Xdr) → Codec (Option ℕ)
xdr_set_gid3 x = follows x (xdr_gid3 x)

xdr_set_gid3-Lawful : (x : Xdr) → Lawful (xdr_set_gid3 x)
unfolding xdr_set_gid3
xdr_set_gid3-Lawful x = follows-Lawful x (xdr_gid3-Lawful x)

xdr_set_size3 : (x : Xdr) → Codec (Option ℕ)
xdr_set_size3 x = follows x (xdr_size3 x)

xdr_set_size3-Lawful : (x : Xdr) → Lawful (xdr_set_size3 x)
unfolding xdr_set_size3
xdr_set_size3-Lawful x = follows-Lawful x (xdr_size3-Lawful x)

-- `struct set_atime` and `struct set_mtime`: SET_TO_CLIENT_TIME, which is 2, or another `set_it`.
pub data SetTime : Type 0 where
  to_client_time : Nfstime3 → SetTime
  as_set : ℕ → SetTime

abbrev time_arm : (x : Xdr) → ℕ → List ℕ → Option (SetTime × List ℕ)
time_arm x set_it rest =
    if set_it == 2
    then after_reading to_client_time ((xdr_nfstime3 x).get rest)
    else after_reading (λ u. as_set set_it) (nothing.get rest)

abbrev pub set_time : (x : Xdr) → Codec SetTime
set_time x = record {
  put = λ t. elim t [
    | to_client_time time ↦ both_written ((xdr_time_how x).put 2) ((xdr_nfstime3 x).put time)
    | as_set set_it ↦ both_written ((xdr_time_how x).put set_it) (some [])
  ];
  get = λ s. then_read ((xdr_time_how x).get s) (time_arm x);
  Fits = λ t. elim t [
    | to_client_time time ↦ (xdr_time_how x).Fits 2 × (xdr_nfstime3 x).Fits time
    | as_set set_it ↦ ((set_it == 2) ≡ false) × (xdr_time_how x).Fits set_it
  ];
}

set_time-Lawful : (x : Xdr) → Lawful (set_time x)
set_time-Lawful x (to_client_time time) (two, fits) =
    tagged (xdr_time_how-Lawful x 2 two) (xdr_nfstime3-Lawful x time fits) to_client_time
      (set_time x).put (time_arm x) refl (λ s. refl)
set_time-Lawful x (as_set set_it) (other, fits) =
    tagged (xdr_time_how-Lawful x set_it fits) (nothing-Lawful tt tt) (λ u. as_set set_it)
      (set_time x).put (time_arm x) refl (λ s. rw other)

xdr_set_atime : (x : Xdr) → Codec SetTime
xdr_set_atime x = set_time x

xdr_set_atime-Lawful : (x : Xdr) → Lawful (xdr_set_atime x)
unfolding xdr_set_atime
xdr_set_atime-Lawful x = set_time-Lawful x

xdr_set_mtime : (x : Xdr) → Codec SetTime
xdr_set_mtime x = set_time x

xdr_set_mtime-Lawful : (x : Xdr) → Lawful (xdr_set_mtime x)
unfolding xdr_set_mtime
xdr_set_mtime-Lawful x = set_time-Lawful x

-- `struct sattr3`
pub record Sattr3 : Type 0 where
  pub mode : Option ℕ
  pub uid : Option ℕ
  pub gid : Option ℕ
  pub size : Option ℕ
  pub atime : SetTime
  pub mtime : SetTime

pub xdr_sattr3 : (x : Xdr) → Codec Sattr3
xdr_sattr3 x =
    struct (λ v. (v.mode, (v.uid, (v.gid, (v.size, (v.atime, v.mtime))))))
      (λ p. record {
        mode = p.0;
        uid = p.1.0;
        gid = p.1.1.0;
        size = p.1.1.1.0;
        atime = p.1.1.1.1.0;
        mtime = p.1.1.1.1.1;
      })
      (both (xdr_set_mode3 x) (
        both (xdr_set_uid3 x) (
          both (xdr_set_gid3 x)
            (both (xdr_set_size3 x) (both (xdr_set_atime x) (xdr_set_mtime x))))))

pub xdr_sattr3-Lawful : (x : Xdr) → Lawful (xdr_sattr3 x)
unfolding xdr_sattr3
xdr_sattr3-Lawful x =
    struct-Lawful (λ v. (v.mode, (v.uid, (v.gid, (v.size, (v.atime, v.mtime))))))
      (λ p. record {
        mode = p.0;
        uid = p.1.0;
        gid = p.1.1.0;
        size = p.1.1.1.0;
        atime = p.1.1.1.1.0;
        mtime = p.1.1.1.1.1;
      })
      (λ v. refl)
      (both-Lawful (xdr_set_mode3-Lawful x) (
        both-Lawful (xdr_set_uid3-Lawful x) (
          both-Lawful (xdr_set_gid3-Lawful x) (
            both-Lawful (xdr_set_size3-Lawful x)
              (both-Lawful (xdr_set_atime-Lawful x) (xdr_set_mtime-Lawful x))))))

xdr_sattrguard3 : (x : Xdr) → Codec (Option Nfstime3)
xdr_sattrguard3 x = follows x (xdr_nfstime3 x)

xdr_sattrguard3-Lawful : (x : Xdr) → Lawful (xdr_sattrguard3 x)
unfolding xdr_sattrguard3
xdr_sattrguard3-Lawful x = follows-Lawful x (xdr_nfstime3-Lawful x)

-- `struct SETATTR3args`
pub record Setattr3args : Type 0 where
  pub object : List ℕ
  pub new_attributes : Sattr3
  pub guard : Option Nfstime3

xdr_setattr3args : (x : Xdr) → Codec Setattr3args
xdr_setattr3args x =
    struct (λ v. (v.object, (v.new_attributes, v.guard)))
      (λ p. record { object = p.0; new_attributes = p.1.0; guard = p.1.1 })
      (both (xdr_nfs_fh3 x) (both (xdr_sattr3 x) (xdr_sattrguard3 x)))

xdr_setattr3args-Lawful : (x : Xdr) → Lawful (xdr_setattr3args x)
unfolding xdr_setattr3args
xdr_setattr3args-Lawful x =
    struct-Lawful (λ v. (v.object, (v.new_attributes, v.guard)))
      (λ p. record { object = p.0; new_attributes = p.1.0; guard = p.1.1 }) (λ v. refl)
      (both-Lawful (xdr_nfs_fh3-Lawful x)
        (both-Lawful (xdr_sattr3-Lawful x) (xdr_sattrguard3-Lawful x)))

-- `struct SETATTR3resok`
pub record Setattr3resok : Type 0 where
  pub obj_wcc : WccData

xdr_setattr3resok : (x : Xdr) → Codec Setattr3resok
xdr_setattr3resok x = struct (λ v. v.obj_wcc) (λ p. record { obj_wcc = p }) (xdr_wcc_data x)

xdr_setattr3resok-Lawful : (x : Xdr) → Lawful (xdr_setattr3resok x)
unfolding xdr_setattr3resok
xdr_setattr3resok-Lawful x =
    struct-Lawful (λ v. v.obj_wcc) (λ p. record { obj_wcc = p }) (λ v. refl) (xdr_wcc_data-Lawful x)

-- `struct SETATTR3resfail`
pub record Setattr3resfail : Type 0 where
  pub obj_wcc : WccData

xdr_setattr3resfail : (x : Xdr) → Codec Setattr3resfail
xdr_setattr3resfail x = struct (λ v. v.obj_wcc) (λ p. record { obj_wcc = p }) (xdr_wcc_data x)

xdr_setattr3resfail-Lawful : (x : Xdr) → Lawful (xdr_setattr3resfail x)
unfolding xdr_setattr3resfail
xdr_setattr3resfail-Lawful x =
    struct-Lawful (λ v. v.obj_wcc) (λ p. record { obj_wcc = p }) (λ v. refl) (xdr_wcc_data-Lawful x)

-- `status`, and `resok` or `resfail`.
xdr_setattr3res : (x : Xdr) → Codec (Res Setattr3resok Setattr3resfail)
xdr_setattr3res x = res x (xdr_setattr3resok x) (xdr_setattr3resfail x)

xdr_setattr3res-Lawful : (x : Xdr) → Lawful (xdr_setattr3res x)
unfolding xdr_setattr3res
xdr_setattr3res-Lawful x = res-Lawful x (xdr_setattr3resok-Lawful x) (xdr_setattr3resfail-Lawful x)
