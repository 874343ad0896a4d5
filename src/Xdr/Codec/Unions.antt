-- ===== src/Xdr/Codec/Unions.antt =====
-- src/xdr.c: the unions that a discriminant stands in front of.
use nfsrods.Prelude.{
  ℕ, ◌^◌, ◌<◌, ◌≡◌, refl, ◌==◌, true, false, if◌then◌else◌, [], Option, none, some, arith,
}
use nfsrods.Xdr.Codec.{Codec, Lawful, both_written, then_read, after_reading, nothing}
use nfsrods.Xdr.Codec.Laws.{tagged, nothing-Lawful}
use nfsrods.Xdr.Codec.Library.{Xdr}

-- `status` and the union of a result: `ok` where it is NFS3_OK, which is 0, and `fail` with any
-- other status.
pub data Res (A B : Type 0) : Type 0 where
  ok : A → Res A B
  fail : ℕ → B → Res A B

module _ (x : Xdr) where
  -- `switch (objp->attributes_follow)`, and the others that test a `bool_t`.
  abbrev pub follows : {A : Type 0} → Codec A → Codec (Option A)
  follows c = record {
    put = λ o. elim o [
      | none ↦ both_written (x.put_bool false) (some [])
      | some a ↦ both_written (x.put_bool true) (c.put a)
    ];
    get = λ s. then_read (x.get_bool s) (λ b rest.
        if b
        then after_reading some (c.get rest)
        else after_reading (λ u. none) (nothing.get rest));
    Fits = λ o. elim o [ none ↦ Unit {0} | some a ↦ c.Fits a ];
  }

  pub follows-Lawful : {A : Type 0} {c : Codec A} → Lawful c → Lawful (follows c)
  follows-Lawful {c = c} h none fits =
      tagged (x.bool_coded false) (nothing-Lawful tt tt) (λ u. none) (follows c).put
        (λ b rest.
          if b
          then after_reading some (c.get rest)
          else after_reading (λ u. none) (nothing.get rest))
        refl (λ s. refl)
  follows-Lawful {c = c} h (some a) fits =
      tagged (x.bool_coded true) (h a fits) some (follows c).put
        (λ b rest.
          if b
          then after_reading some (c.get rest)
          else after_reading (λ u. none) (nothing.get rest))
        refl (λ s. refl)

  -- `switch (objp->status)`
  abbrev pub res : {A B : Type 0} → Codec A → Codec B → Codec (Res A B)
  res c d = record {
    put = λ r. elim r [
      | ok a ↦ both_written (x.put_enum 0) (c.put a)
      | fail status b ↦ both_written (x.put_enum status) (d.put b)
    ];
    get = λ s. then_read (x.get_enum s) (λ status rest.
        if status == 0
        then after_reading ok (c.get rest)
        else after_reading (fail status) (d.get rest));
    Fits = λ r. elim r [
      | ok a ↦ c.Fits a
      | fail status b ↦ (0 < status) × ((status < 2 ^ 31) × d.Fits b)
    ];
  }

  pub res-Lawful :
      {A B : Type 0} {c : Codec A} {d : Codec B} → Lawful c → Lawful d → Lawful (res c d)
  res-Lawful {c = c} {d = d} hc hd (ok a) fits =
      tagged (x.enum_coded 0 (omega arith)) (hc a fits) ok (res c d).put
        (λ status rest.
          if status == 0
          then after_reading ok (c.get rest)
          else after_reading (fail status) (d.get rest))
        refl (λ s. refl)
  res-Lawful {c = c} {d = d} hc hd (fail status b) (positive, (small, fits)) =
      let other : (status == 0) ≡ false = ground arith in
      tagged (x.enum_coded status small) (hd b fits) (fail status) (res c d).put
        (λ status rest.
          if status == 0
          then after_reading ok (c.get rest)
          else after_reading (fail status) (d.get rest))
        refl (λ s. rw other)
