-- ===== src/Attr/Changes.antt =====
-- Which changes `set_attr` of src/attr.c makes.
use nfsrods.Prelude.{
  ℕ, ◌≡◌, ◌≢◌, ◌⊎◌, ◌↔◌, inl, inr, refl, true, false, not, ◌||◌, List, [], ◌∷◌, ◌++◌, Option, none,
  some, arith, Bool-cases, Option-cases,
}
use nfsrods.Status.{Nfsstat3, nfs3_ok, is_ok}
use nfsrods.Error.{setattr_err}
use nfsrods.Backend.{Stat, s_isblk, s_ischr, s_islnk}
use nfsrods.Fh.Handles.{Handle}
use nfsrods.User.Ids.{Settings, mangle_uid, mangle_gid}
use nfsrods.Attr.Asked.{Asked, wanted-Asked}
use nfsrods.Attr.Put.{
  Sattr3, Change, Answers, Outcome, apply, set_time, wanted, and_then, set_attr_unsafe,
  set_attr_open, set_attr, atomic_attr, differs, has_size, is_client_time, SetTime,
}

setattr_err-fails : (errno : ℕ) → setattr_err errno ≢ nfs3_ok
unfolding setattr_err
setattr_err-fails errno h = ground arith

is_ok→≡ : (s : Nfsstat3) → is_ok s ≡ true → s ≡ nfs3_ok
is_ok→≡ s h = ground arith

-- Changes that all succeed are all made.
apply-ok :
    (w : Answers) (chs : List Change) → (apply w chs).status ≡ nfs3_ok → (apply w chs).made ≡ chs
unfolding apply
apply-ok w [] ok = refl
apply-ok w (ch ∷ chs) ok =
    ground (arith, apply-ok w chs, setattr_err-fails (w.errno ch), Bool-cases (w.change_ok ch))

-- A status other than `nfs3_ok` ends the sequence.
and_then-ok :
    (first second : Outcome)
    → (and_then first second).status ≡ nfs3_ok
    → (first.status ≡ nfs3_ok)
      × (second.status ≡ nfs3_ok)
      × ((and_then first second).made ≡ first.made ++ second.made)
and_then-ok first second ok = ground (arith, is_ok→≡ first.status)

-- When an unsafe setting of attributes reports success, the path was an object with the handle's
-- device and inode, and exactly the changes asked for have been made.
set_attr_unsafe-ok :
    (w : Answers) (fh : Handle) (new : Sattr3)
    → (set_attr_unsafe w fh new).status ≡ nfs3_ok
    → (buf : Stat) × ((w.lstat ≡ some buf) ⊎ (w.fstat ≡ some buf))
      × (buf.dev ≡ fh.dev)
      × (buf.ino ≡ fh.ino)
      × ((set_attr_unsafe w fh new).made ≡ wanted buf new ++ set_time w buf new)
unfolding set_attr_unsafe
set_attr_unsafe-ok w fh new ok = elim (Option-cases w.lstat) [
  | inl missing ↦ absurd (ground arith)
  | inr (buf, at) ↦
      let first = apply w (wanted buf new) in
      let second = apply w (set_time w buf new) in
      (
        buf,
        inl at,
        ground arith,
        ground arith,
        ground (
          arith,
          and_then-ok first second,
          apply-ok w (wanted buf new),
          apply-ok w (set_time w buf new),
        ),
      )
]

set_attr_open-ok :
    (w : Answers) (fh : Handle) (new : Sattr3)
    → (set_attr_open w fh new).status ≡ nfs3_ok
    → (buf : Stat) × ((w.lstat ≡ some buf) ⊎ (w.fstat ≡ some buf))
      × (buf.dev ≡ fh.dev)
      × (buf.ino ≡ fh.ino)
      × ((set_attr_open w fh new).made ≡ wanted buf new ++ set_time w buf new)
unfolding set_attr_open
set_attr_open-ok w fh new ok = elim (Option-cases w.fstat) [
  | inl missing ↦ absurd (ground arith)
  | inr (buf, at) ↦
      let first = apply w (wanted buf new) in
      let second = apply w (set_time w buf new) in
      (
        buf,
        inr at,
        ground arith,
        ground arith,
        ground (
          arith,
          and_then-ok first second,
          apply-ok w (wanted buf new),
          apply-ok w (set_time w buf new),
        ),
      )
]

set_attr-made :
    (w : Answers) (fh : Handle) (new : Sattr3)
    → (set_attr w fh new).status ≡ nfs3_ok
    → (buf : Stat) × ((w.lstat ≡ some buf) ⊎ (w.fstat ≡ some buf))
      × (buf.dev ≡ fh.dev)
      × (buf.ino ≡ fh.ino)
      × ((set_attr w fh new).made ≡ wanted buf new ++ set_time w buf new)
unfolding set_attr
set_attr-made w fh new ok = elim (Option-cases w.lstat) [
  | inl missing ↦ absurd (ground arith)
  | inr (st, at) ↦
      let unsafe =
        s_isblk st.mode
        || s_ischr st.mode
        || s_islnk st.mode
        || not (w.open_write || w.open_read) in
      elim (Bool-cases unsafe) [
        | inl unopened ↦
            let same : set_attr w fh new ≡ set_attr_unsafe w fh new = ground arith in
            rw same (set_attr_unsafe-ok w fh new (rw same at ok))
        | inr live ↦
            let same : set_attr w fh new ≡ set_attr_open w fh new = ground arith in
            rw same (set_attr_open-ok w fh new (rw same at ok))
      ]
]

-- When setting attributes reports success, the path or the descriptor opened for it was, as `lstat`
-- or `fstat` answered, an object with the handle's device and inode, and the changes that were made are
-- the following, in this order and no others: the size, if one is asked for; the owner and the group in
-- one call, if either is, with the group asked for and with the uid asked for unless the file has that
-- one already; the mode, if one is; and the access and modification time in one call, if either is to
-- change, each as it was, the server's or the client's.
pub set_attr-ok :
    (w : Answers) (fh : Handle) (new : Sattr3)
    → (set_attr w fh new).status ≡ nfs3_ok
    → (buf : Stat) × ((w.lstat ≡ some buf) ⊎ (w.fstat ≡ some buf))
      × (buf.dev ≡ fh.dev)
      × (buf.ino ≡ fh.ino)
      × Asked w.now buf new (set_attr w fh new).made
set_attr-ok w fh new ok =
    let (buf, seen, dev, ino, made) = set_attr-made w fh new ok in
    (buf, seen, dev, ino, wanted-Asked w buf new (set_attr w fh new).made made)

differs_iff :
    (used : ℕ → ℕ) (o : Option ℕ) (current : ℕ)
    → (differs used o current ≡ false)
      ↔ ((o ≡ none) ⊎ ((id : ℕ) × (o ≡ some id) × (used id ≡ current)))
differs_iff used none current = (λ _. inl refl, λ _. refl)
differs_iff used (some x) current = (
  λ same. inr (x, refl, ground arith),
  λ asked. elim asked [ inl e ↦ absurd (ground arith) | inr (id, e, same) ↦ ground arith ],
)

has_size_iff : (o : Option ℕ) → (has_size o ≡ false) ↔ ((o ≡ none) ⊎ (o ≡ some 0))
has_size_iff none = (λ _. inl refl, λ _. refl)
has_size_iff (some x) = ground arith

is_client_time_iff :
    (t : SetTime)
    → (is_client_time t ≡ false) ↔ ((t ≡ SetTime.dont_change) ⊎ (t ≡ SetTime.set_to_server_time))
is_client_time_iff t = ground arith

-- Attributes can be set atomically by a create exactly if the owner and the group, where they are
-- asked for, are, as they are mangled, those that the process has, no size but 0 is asked for, and
-- no time of the client's.
pub atomic_attr_iff :
    (s : Settings) (euid egid : ℕ) (attr : Sattr3)
    → (atomic_attr s euid egid attr ≡ nfs3_ok) ↔ (
        ((attr.uid ≡ none) ⊎ ((uid : ℕ) × (attr.uid ≡ some uid) × (mangle_uid s uid ≡ euid)))
        × ((attr.gid ≡ none) ⊎ ((gid : ℕ) × (attr.gid ≡ some gid) × (mangle_gid s gid ≡ egid)))
        × ((attr.size ≡ none) ⊎ (attr.size ≡ some 0))
        × ((attr.atime ≡ SetTime.dont_change) ⊎ (attr.atime ≡ SetTime.set_to_server_time))
        × ((attr.mtime ≡ SetTime.dont_change) ⊎ (attr.mtime ≡ SetTime.set_to_server_time)))
unfolding atomic_attr
atomic_attr_iff s euid egid attr =
    let u = differs_iff (mangle_uid s) attr.uid euid in
    let g = differs_iff (mangle_gid s) attr.gid egid in
    let z = has_size_iff attr.size in
    let a = is_client_time_iff attr.atime in
    let m = is_client_time_iff attr.mtime in
    (
      λ ok. (
        u.0 (ground arith),
        g.0 (ground arith),
        z.0 (ground arith),
        a.0 (ground arith),
        m.0 (ground arith),
      ),
      λ (hu, hg, hz, ha, hm).
          let fu = u.1 hu in
          let fg = g.1 hg in let fz = z.1 hz in let fa = a.1 ha in let fm = m.1 hm in ground arith,
    )
