-- ===== src/Fh/Resolve/Sound.antt =====
-- src/fh.c: the object at the path that a handle is resolved into.
use nfsrods.Prelude.{
  ℕ, ◌≡◌, refl, Bool, true, false, ◌==◌, List, [], ◌∷◌, Option, some, arith, inl, inr, Option-cases,
}
use nfsrods.Backend.{FilePath, Stat, FileSys}
use nfsrods.Fh.Handles.{Handle, slash, fh_valid}
use nfsrods.Fh.Resolve.{Found, Resolved, join_path, stat_buffer, visit, scan, fh_rec, fh_decomp_raw}

-- The path begins with a slash; `is_rooted` holds of the empty path too.
abbrev pub is_absolute : FilePath → Bool
is_absolute [] = false
is_absolute (c ∷ cs) = c == slash

abbrev is_rooted : FilePath → Bool
is_rooted [] = true
is_rooted (c ∷ cs) = c == slash

join_path-is_absolute :
    (l name : FilePath) → is_rooted l ≡ true → is_absolute (join_path l name) ≡ true
join_path-is_absolute [] name h = refl
join_path-is_absolute (c ∷ l) name h = h

join_path-is_rooted : (l name : FilePath) → is_rooted l ≡ true → is_rooted (join_path l name) ≡ true
join_path-is_rooted [] name h = refl
join_path-is_rooted (c ∷ l) name h = h

module _ (fs : FileSys) (fh : Handle) (junk : Stat) where
  -- The found path exists, seen from the root that the search starts at, and is the handle's object.
  pub record Leads (f : Found) : Type 0 where
    pub exists : fs.lstat (slash ∷ f.path) ≡ some f.stat
    pub absolute : is_absolute f.path ≡ true
    pub same_dev : f.stat.dev ≡ fh.dev
    pub same_ino : f.stat.ino ≡ fh.ino

  module _ (valid : fh_valid fh ≡ true) where
    buffer_sound :
        (p : FilePath) (buf : Stat)
        → (stat_buffer buf (fs.lstat p)).dev ≡ fh.dev
        → (stat_buffer buf (fs.lstat p)).ino ≡ fh.ino
        → fs.lstat p ≡ some (stat_buffer buf (fs.lstat p))
    unfolding fh_valid
    buffer_sound p buf = ground arith

    visit_sound :
        (rec : FilePath → Option Found) (hash : ℕ) (l name : FilePath) (b : Stat) (f : Found)
        → (b.dev ≡ fh.dev → b.ino ≡ fh.ino → fs.lstat (join_path (slash ∷ l) name) ≡ some b)
        → is_rooted l ≡ true
        → ((p : FilePath) (g : Found) → is_rooted p ≡ true → rec (slash ∷ p) ≡ some g → Leads g)
        → visit fs fh junk rec hash (slash ∷ l) name b ≡ some f
        → Leads f
    unfolding visit
    visit_sound rec hash l name b f read top deeper h = ground (
      arith,
      read,
      join_path-is_absolute l name top,
      deeper (join_path l name) f (join_path-is_rooted l name top),
    )

    scan_sound :
        (rec : FilePath → Option Found) (hash : ℕ) (l : FilePath) (buf : Stat)
        (names : List FilePath) (f : Found)
        → is_rooted l ≡ true
        → ((p : FilePath) (g : Found) → is_rooted p ≡ true → rec (slash ∷ p) ≡ some g → Leads g)
        → scan fs fh junk rec hash (slash ∷ l) buf names ≡ some f
        → Leads f
    unfolding scan
    scan_sound rec hash l buf [] f top deeper h = absurd (ground arith)
    scan_sound rec hash l buf (name ∷ names) f top deeper h =
        let p = join_path (slash ∷ l) name in
        let b = stat_buffer buf (fs.lstat p) in
        ground (
          arith,
          visit_sound rec hash l name b f (buffer_sound p buf) top deeper,
          scan_sound rec hash l b names f top deeper,
          scan_sound rec hash l buf names f top deeper,
        )

    fh_rec_sound :
        (ns : List ℕ) (l : FilePath) (f : Found)
        → is_rooted l ≡ true
        → fh_rec fs fh junk ns (slash ∷ l) ≡ some f
        → Leads f
    unfolding fh_rec
    fh_rec_sound [] l f top h = absurd (ground arith)
    fh_rec_sound (n ∷ ns) l f top h = elim (Option-cases (fs.list_dir (slash ∷ l))) [
      | inl e ↦ absurd (ground arith)
      | inr (names, e) ↦
          scan_sound (fh_rec fs fh junk ns) n l junk names f top (fh_rec_sound ns) (ground arith)
    ]

-- Where a handle that is not the invalid one is resolved by a search, the path found exists, and
-- the object there has the device and the inode of the handle. The stat buffer that goes with the
-- path is the one that `lstat` gives for it, and the path is absolute.
pub fh_decomp_raw-Leads :
    (fs : FileSys) (fh : Handle) (junk : Stat) (f : Found)
    → fh_valid fh ≡ true
    → fh_decomp_raw fs fh junk ≡ Resolved.found f
    → Leads fs fh junk f
unfolding fh_decomp_raw
fh_decomp_raw-Leads fs fh junk f valid h =
    ground (arith, fh_rec_sound fs fh junk valid fh.inos [] f refl)
