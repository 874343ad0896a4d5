-- ===== src/Attr/Reports.antt =====
-- What the attributes that src/attr.c reports say of the object.
use nfsrods.Prelude.{
  ℕ, ◌+◌, ◌^◌, ◌<◌, ◌≡◌, inl, inr, refl, ◌∙◌, true, ◌||◌, some, test_bit, set_bit, arith,
  Bool-cases, Option-cases,
}
use nfsrods.Backend.{FilePath, FileSys, Stat, file_type, s_isreg}
use nfsrods.User.Ids.{Request}
use nfsrods.Attr.Get.{
  Ftype3, Fattr3, View, type_to_mode, ftype_of, readable_if, adapt_mode, get_post_buf, get_post_ll,
}

-- Every type of the protocol is read back from the mode that it is turned into, whatever the twelve
-- permission bits are.
pub ftype_of-type_to_mode :
    (t : Ftype3) (perm : ℕ) → perm < 2 ^ 12 → ftype_of (type_to_mode t + perm) ≡ t
unfolding ftype_of type_to_mode
ftype_of-type_to_mode Ftype3.nf3reg perm small = ground arith
ftype_of-type_to_mode Ftype3.nf3dir perm small = ground arith
ftype_of-type_to_mode Ftype3.nf3blk perm small = ground arith
ftype_of-type_to_mode Ftype3.nf3chr perm small = ground arith
ftype_of-type_to_mode Ftype3.nf3lnk perm small = ground arith
ftype_of-type_to_mode Ftype3.nf3sock perm small = ground arith
ftype_of-type_to_mode Ftype3.nf3fifo perm small = ground arith

-- Attributes are reported only for a path that is, when they are read, the object with the asked
-- device and inode, and they are computed from what `lstat` then answers for it.
pub get_post_ll-same :
    (fs : FileSys) (v : View) (path : FilePath) (dev ino : ℕ) (req : Request) (attr : Fattr3)
    → get_post_ll fs v (some path) dev ino req ≡ some attr
    → (st : Stat) × (fs.lstat path ≡ some st)
      × (st.dev ≡ dev)
      × (st.ino ≡ ino)
      × (attr ≡ get_post_buf fs v st req)
unfolding get_post_ll
get_post_ll-same fs v path dev ino req attr h = elim (Option-cases (fs.lstat path)) [
  | inl missing ↦ absurd (ground arith)
  | inr (st, at) ↦ (st, at, ground arith, ground arith, ground arith)
]

-- Setting a permission bit of a mode changes neither the type nor the lower bits.
set_bit-8 :
    (m : ℕ)
    → (test_bit (set_bit m 8) 8 ≡ true)
      × (test_bit (set_bit m 8) 3 ≡ test_bit m 3)
      × (test_bit (set_bit m 8) 0 ≡ test_bit m 0)
      × (test_bit (set_bit m 8) 5 ≡ test_bit m 5)
      × (test_bit (set_bit m 8) 2 ≡ test_bit m 2)
      × (file_type (set_bit m 8) ≡ file_type m)
set_bit-8 m = ground arith

set_bit-5 :
    (m : ℕ)
    → (test_bit (set_bit m 5) 5 ≡ true)
      × (test_bit (set_bit m 5) 8 ≡ test_bit m 8)
      × (test_bit (set_bit m 5) 0 ≡ test_bit m 0)
      × (test_bit (set_bit m 5) 2 ≡ test_bit m 2)
      × (file_type (set_bit m 5) ≡ file_type m)
set_bit-5 m = ground arith

set_bit-2 :
    (m : ℕ)
    → (test_bit (set_bit m 2) 2 ≡ true)
      × (test_bit (set_bit m 2) 8 ≡ test_bit m 8)
      × (test_bit (set_bit m 2) 5 ≡ test_bit m 5)
      × (file_type (set_bit m 2) ≡ file_type m)
set_bit-2 m = ground arith

readable-8 :
    (m : ℕ)
    → (test_bit (readable_if 6 8 m) 8 ≡ (test_bit m 8 || test_bit m 6))
      × (test_bit (readable_if 6 8 m) 3 ≡ test_bit m 3)
      × (test_bit (readable_if 6 8 m) 0 ≡ test_bit m 0)
      × (test_bit (readable_if 6 8 m) 5 ≡ test_bit m 5)
      × (test_bit (readable_if 6 8 m) 2 ≡ test_bit m 2)
      × (file_type (readable_if 6 8 m) ≡ file_type m)
readable-8 m = elim (Bool-cases (test_bit m 6)) [
  | inl on ↦ rw on (
      let (now, one, two, three, four, kind) = set_bit-8 m in
      (ground arith, one, two, three, four, kind))
  | inr off ↦ rw off (ground arith, refl, refl, refl, refl, refl)
]

readable-5 :
    (m : ℕ)
    → (test_bit (readable_if 3 5 m) 5 ≡ (test_bit m 5 || test_bit m 3))
      × (test_bit (readable_if 3 5 m) 8 ≡ test_bit m 8)
      × (test_bit (readable_if 3 5 m) 0 ≡ test_bit m 0)
      × (test_bit (readable_if 3 5 m) 2 ≡ test_bit m 2)
      × (file_type (readable_if 3 5 m) ≡ file_type m)
readable-5 m = elim (Bool-cases (test_bit m 3)) [
  | inl on ↦
      rw on
        (let (now, one, two, three, kind) = set_bit-5 m in (ground arith, one, two, three, kind))
  | inr off ↦ rw off (ground arith, refl, refl, refl, refl)
]

readable-2 :
    (m : ℕ)
    → (test_bit (readable_if 0 2 m) 2 ≡ (test_bit m 2 || test_bit m 0))
      × (test_bit (readable_if 0 2 m) 8 ≡ test_bit m 8)
      × (test_bit (readable_if 0 2 m) 5 ≡ test_bit m 5)
      × (file_type (readable_if 0 2 m) ≡ file_type m)
readable-2 m = elim (Bool-cases (test_bit m 0)) [
  | inl on ↦ rw on (let (now, one, two, kind) = set_bit-2 m in (ground arith, one, two, kind))
  | inr off ↦ rw off (ground arith, refl, refl, refl)
]

-- With readable executables, each class of users is shown to be able to read a regular file
-- exactly if it can read or execute it, and the file's type is shown as it is.
pub adapt_mode-readable :
    (v : View) (mode : ℕ)
    → v.readable_executables ≡ true
    → s_isreg mode ≡ true
    → (test_bit (adapt_mode v mode) 8 ≡ (test_bit mode 8 || test_bit mode 6))
      × (test_bit (adapt_mode v mode) 5 ≡ (test_bit mode 5 || test_bit mode 3))
      × (test_bit (adapt_mode v mode) 2 ≡ (test_bit mode 2 || test_bit mode 0))
      × (file_type (adapt_mode v mode) ≡ file_type mode)
unfolding adapt_mode
adapt_mode-readable v mode on reg =
    let m1 = readable_if 6 8 mode in
    let m2 = readable_if 3 5 m1 in
    let (r8, b3, b0, b5, b2, t1) = readable-8 mode in
    let (r5, c8, c0, c2, t2) = readable-5 m1 in
    let (r2, d8, d5, t3) = readable-2 m2 in
    rw (on, reg)
      (
        d8 ∙ c8 ∙ r8,
        d5 ∙ r5 ∙ (λ i. b5 i || b3 i),
        r2 ∙ (λ i. (c2 ∙ b2) i || (c0 ∙ b0) i),
        t3 ∙ t2 ∙ t1,
      )
